-- ===== src/Protocol/Unowned.antt =====
-- backend/tcp/protocol.hpp: nothing owns the buffers that the constructor makes.
use libgscale.Prelude.{
  ℕ, ◌+◌, ◌≤◌, ◌≡◌, refl, ◌⊎◌, inl, inr, Bool, true, false, Bool-cases, none, List, [], ◌∷◌, arith,
}
use libgscale.Protocol.{free, accepts_buffsize}
use libgscale.Protocol.Memory.{
  Heap, new_chars, delete_chars, Members, no_memory, built, read_again, new_protocol,
  destroy_protocol, new_session_protocol, Reading, constructed, completed,
}

-- The bytes of the blocks.
abbrev pub bytes_of : List (ℕ × ℕ) → ℕ
bytes_of [] = 0
bytes_of ((a, size) ∷ blocks) = size + bytes_of blocks

-- A session that has no read under way from the start never has one.
Reading-never : {b : Bool} → Reading false b → b ≡ false
Reading-never constructed = refl
Reading-never (completed is_open r) = let same : true ≡ false = Reading-never r in absurd cc

-- Construction of the protocol of a session has two ends. It can throw for want of memory, and then
-- the heap has grown by one buffer at most. Otherwise both its buffers of 8192 bytes stay on the heap
-- with no member that points to them, no read is ever under way, whatever the socket goes through,
-- and destroying the protocol is undefined.
pub new_session_protocol_cases :
    (memory : Heap → ℕ → Bool) (heap : Heap)
    → ((h : Heap) × (new_session_protocol memory heap ≡ no_memory h)
        × (bytes_of h.blocks ≤ bytes_of heap.blocks + 8192))
      ⊎ ((p : Members) × (h : Heap) × (begun : Bool) × (new_session_protocol memory heap
            ≡ built p h begun)
          × (bytes_of h.blocks ≡ bytes_of heap.blocks + 16384)
          × (p.inbuffer ≡ none)
          × (p.outbuffer ≡ none)
          × ((later : Bool) → Reading begun later → later ≡ false)
          × (destroy_protocol p h ≡ none))
unfolding new_session_protocol new_protocol accepts_buffsize new_chars read_again destroy_protocol
    delete_chars
new_session_protocol_cases memory heap =
    let grown : Heap = record { next = heap.next + 1; blocks = (heap.next, 8192) ∷ heap.blocks } in
    elim (Bool-cases (memory heap 8192)) [
      | inr e ↦ inl (heap, rw e refl, omega arith)
      | inl e ↦ elim (Bool-cases (memory grown 8192)) [
        | inr f ↦ inl (grown, rw (e, f) refl, omega arith)
        | inl f ↦ inr (
          record {
            buffsize = 8192;
            instate = free;
            outstate = free;
            inbuffer = none;
            outbuffer = none;
          },
          record { next = grown.next + 1; blocks = (grown.next, 8192) ∷ grown.blocks },
          false,
          rw (e, f) refl,
          omega arith,
          refl,
          refl,
          λ later r. Reading-never r,
          refl,
        )
      ]
    ]
