-- ===== src/Protocol/Parsing.antt =====
-- protocol.hpp, processReadBuffer: what a read gives the subscriber.
use mathlib.Core.List.{append-nil}
use libgscale.Prelude.{
  ℕ, zero, suc, ◌+◌, ◌%◌, ◌^◌, ◌≤◌, ◌<◌, ◌≡◌, ◌≢◌, ◌⊎◌, inl, inr, refl, sym, subst, Bool, true,
  false, not, Option, Option-cases, Bool-cases, List, [], ◌∷◌, ◌++◌, arith, take, drop, get_or, leb,
  ltb, ◌==◌,
}
use libgscale.Words.{Bytes, u32_mod, load_u32, htonl}
use libgscale.Packet.{Packet}
use libgscale.Protocol.{free, header, Event, on_read}
use libgscale.Protocol.Receiver.{
  In, Read, faulted, threw, running, done, payload_round, with_payload, without_payload,
  header_round, round, read_loop, process_read_buffer,
}

-- A call has ended with all bytes used up, and has given the subscriber at most one packet, whose
-- payload is empty if the flag byte says that the frame has one.
abbrev pub Settled : Bool → Read → Type 0
Settled flag faulted = Unit {0}
Settled flag threw = Unit {0}
Settled flag running = ⊥
Settled flag (done i left events) =
    (left ≡ 0)
    × ((events ≡ [])
        ⊎ ((q : Packet) × (events ≡ on_read q ∷ []) × ((flag ≡ false) ⊎ (q.payload ≡ []))))

module _ (load : Packet → Bytes → Option Packet) where
  -- In the free state the next read is dropped: whatever bytes came and however many, nothing is
  -- given to the subscriber, and the following read overwrites them from the start of the buffer,
  -- then as a header.
  pub first_read_lost :
      (fuel : ℕ) (i : In) (n : ℕ)
      → i.instate ≡ free
      → process_read_buffer load (suc (suc fuel)) i (suc n)
        ≡ done (record i { instate = header; alreadyread = 0; readoffset = 0 }) 0 []
  unfolding process_read_buffer read_loop round header_round
  first_read_lost fuel i n e = ground arith

  -- The four bytes at 5 are a length near 2 ^ 32: with its own length added it wraps below the
  -- number of bytes that were read.
  length_wraps :
      (fuel : ℕ) (i : In) (n : ℕ)
      → i.instate ≡ header
      → get_or i.inbuffer 0 0 ≢ 0
      → u32_mod ≤ 9 + load_u32 i.inbuffer 5
      → load_u32 i.inbuffer 5 < u32_mod
      → 9 ≤ i.readoffset + suc n
      → i.readoffset + suc n ≤ i.buffsize
      → i.buffsize < 2 ^ 31
      → process_read_buffer load (suc fuel) i (suc n) ≡ faulted
  unfolding process_read_buffer read_loop round header_round with_payload
  length_wraps fuel i n e flag big word enough within small = ground arith

  -- What one round in the header state leaves: it waits for more bytes, or it has given the
  -- subscriber one packet and is free. A packet of a frame with a payload has an empty payload.
  abbrev Rounded : Bool → Read → Type 0
  Rounded flag faulted = Unit {0}
  Rounded flag threw = Unit {0}
  Rounded flag running = ⊥
  Rounded flag (done i left events) =
      ((i.instate ≡ header) × (left ≡ 0) × (events ≡ []))
      ⊎ ((i.instate ≡ free)
          × ((q : Packet) × (events ≡ on_read q ∷ []) × ((flag ≡ false) ⊎ (q.payload ≡ []))))

  with_payload-Rounded :
      (flag : Bool) (headersize size : ℕ) (i : In) (n : ℕ)
      → Rounded flag (with_payload load headersize size (record i { payloadsize = 0 }) n)
  unfolding with_payload payload_round
  with_payload-Rounded flag headersize size i n =
      elim (Bool-cases (ltb i.buffsize (9 + headersize))) [
        | inl e ↦ rw (with_payload, e) tt
        | inr e ↦ elim (Option-cases (load i.input (take headersize (drop 9 i.inbuffer)))) [
          | inl k ↦ rw (with_payload, e, k) tt
          | inr (q, k) ↦ rw (with_payload, e, k) (inr (refl, (_, refl, inr refl)))
        ]
      ]

  without_payload-Rounded :
      (headersize size : ℕ) (i : In) (n : ℕ)
      → Rounded false (without_payload load headersize size (record i { payloadsize = 0 }) n)
  unfolding without_payload
  without_payload-Rounded headersize size i n =
      elim (Bool-cases (ltb i.buffsize (5 + headersize))) [
        | inl e ↦ rw (without_payload, e) tt
        | inr e ↦ elim (Option-cases (load i.input (take headersize (drop 5 i.inbuffer)))) [
          | inl k ↦ rw (without_payload, e, k) tt
          | inr (q, k) ↦ rw (without_payload, e, k) (inr (refl, (q, refl, inl refl)))
        ]
      ]

  header_round-Rounded :
      (i : In) (n : ℕ)
      → i.instate ≡ header
      → Rounded (not (get_or i.inbuffer 0 0 == 0)) (header_round load i n)
  unfolding header_round htonl
  header_round-Rounded i n e = elim (Bool-cases (ltb i.readoffset 5)) [
    | inl k ↦ rw (header_round, k) (inl (e, refl, refl))
    | inr k ↦ elim (Bool-cases (not (get_or i.inbuffer 0 0 == 0))) [
      | inl f ↦ elim (Bool-cases (leb ((9 + load_u32 i.inbuffer 5) % u32_mod) i.readoffset)) [
        | inl g ↦ rw (header_round, k, f, g) (with_payload-Rounded true _ _ i n)
        | inr g ↦ rw (header_round, k, f, g) (inl (e, refl, refl))
      ]
      | inr f ↦ elim (Bool-cases (leb ((5 + load_u32 i.inbuffer 5) % u32_mod) i.readoffset)) [
        | inl g ↦ rw (header_round, k, f, g) (without_payload-Rounded _ _ i n)
        | inr g ↦ rw (header_round, k, f, g) (inl (e, refl, refl))
      ]
    ]
  ]

  -- The loop from the free state takes one round more, which drops what is left.
  read_loop_free :
      (fuel : ℕ) (i : In) (n : ℕ) (events : List Event)
      → i.instate ≡ free
      → (j : In) × (read_loop load (suc (suc fuel)) i n events ≡ done j 0 (events))
  unfolding read_loop round header_round
  read_loop_free fuel i zero events e = (i, refl)
  read_loop_free fuel i (suc n) events e = (
    record i { instate = header; alreadyread = 0; readoffset = 0 },
    ground (arith, append-nil events),
  )

  rest-Settled :
      (fuel : ℕ) (flag : Bool) (r : Read)
      → Rounded flag r
      → Settled flag (elim r [
        | faulted ↦ faulted
        | threw ↦ threw
        | running ↦ running
        | done i' left more ↦ read_loop load (suc (suc fuel)) i' left ([] ++ more)
      ])
  unfolding read_loop
  rest-Settled fuel flag faulted h = tt
  rest-Settled fuel flag threw h = tt
  rest-Settled fuel flag running h = h
  rest-Settled fuel flag (done i left events) (inl (e, z, none_given)) =
      rw (z, none_given) (refl, inl refl)
  rest-Settled fuel flag (done i left events) (inr (e, given)) =
      rw (read_loop_free fuel i left events e).1 (refl, inr given)

  -- From the free or the header state, three rounds are enough for any number of bytes: a call ends
  -- in undefined behaviour, by an exception of the archive, or with all bytes used up and at most
  -- one packet given to the subscriber. If the first byte of the buffer says that the frame has a
  -- payload, the packet given has an empty one.
  pub process_read_buffer-Settled :
      (fuel : ℕ) (i : In) (n : ℕ)
      → (i.instate ≡ free) ⊎ (i.instate ≡ header)
      → Settled
          (not (get_or i.inbuffer 0 0 == 0))
          (process_read_buffer load (suc (suc (suc fuel))) i n)
  unfolding process_read_buffer read_loop round
  process_read_buffer-Settled fuel i zero e = (refl, inl refl)
  process_read_buffer-Settled fuel i (suc n) (inl e) =
      rw (first_read_lost (suc fuel) i n e) (refl, inl refl)
  process_read_buffer-Settled fuel i (suc n) (inr e) =
      let j : In = record i { readoffset = (i.readoffset + suc n) % u32_mod } in
      let flag = not (get_or i.inbuffer 0 0 == 0) in
      rest-Settled fuel flag (round load i.instate j (suc n)) (
        subst (λ s. Rounded flag (round load s j (suc n))) (sym e)
          (header_round-Rounded j (suc n) e))
