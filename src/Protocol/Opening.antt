-- ===== src/Protocol/Opening.antt =====
-- protocol.hpp: how `send` begins with a packet that has no payload, and how onSend goes on with it.
use libgscale.Prelude.{
  ℕ, ◌+◌, ◌%◌, ◌≤◌, ◌<◌, ◌≡◌, ap, ◌⊎◌, inl, inr, refl, Bool, true, false, Bool-cases, Option, none,
  some, [], ◌∷◌, ◌++◌, arith, length, length-take, take_all, ltb, leb,
}
use libgscale.Words.{Bytes, u32_mod, store_u32, htonl}
use libgscale.Packet
use libgscale.Packet.{Packet}
use libgscale.Protocol.{free, header, payload, send_error}
use libgscale.Protocol.Sender.{
  Out, Sent, put_sizes, write_header, sent, faulted, flush, sub32, payload_case, header_case,
  send_switch, on_send, send, after_header,
}

-- A write that is under way is all of the frame, and nothing of the payload counts as sent.
abbrev pub UnderWay : Out → Bytes → Type 0
UnderWay o b = (o.writeoffset ≡ 0) × (o.alreadysent ≡ 0) × (0 < length b) × (length b < u32_mod)

-- How a call ends: free with nothing written, or in the payload state with the frame written, or
-- not written as the socket is closed.
abbrev pub Opened : ℕ → Option Sent → Type 0
Opened b none = ⊥
Opened b (some faulted) = ⊥
Opened b (some (sent o events none)) =
    (o.buffsize ≡ b) × ((o.outstate ≡ free) ⊎ (o.outstate ≡ payload))
Opened b (some (sent o events (some bytes))) =
    (o.buffsize ≡ b) × (o.outstate ≡ payload) × UnderWay o bytes

module _ (head : Bytes) (p : Packet) (is_open : Bool) (empty : p.payload ≡ []) where
  size_zero : Packet.size p ≡ 0
  unfolding Packet.size
  size_zero = rw empty refl

  failed-Opened : (o : Out) → Opened o.buffsize (some (after_header p is_open (o, false)))
  unfolding flush
  failed-Opened o = elim (Bool-cases is_open) [
    | inl e ↦ rw e (refl, inl refl)
    | inr e ↦ rw e (refl, inl refl)
  ]

  -- The frame of a packet without a payload.
  abbrev bare : Bytes
  bare = 0 ∷ store_u32 (htonl (length head % u32_mod)) ++ head

  sized-length : length (0 ∷ store_u32 (htonl (length head % u32_mod))) ≡ 5
  unfolding store_u32
  sized-length = refl

  length-bare : length bare ≡ 5 + length head
  unfolding store_u32
  length-bare = omega arith

  put_sizes_bare :
      (o : Out)
      → o.writeoffset ≡ 0
      → put_sizes head p o
        ≡ record o { outbuffer = 0 ∷ store_u32 (htonl (length head % u32_mod)); writeoffset = 5 }
  unfolding put_sizes store_u32
  put_sizes_bare o z = rw (put_sizes, size_zero, z) refl

  -- The tests of writeHeader, one after the other.
  write_header-bare :
      (o : Out)
      → o.writeoffset ≡ 0
      → o.buffsize < u32_mod
      → ((q : Out) × (write_header head p o ≡ (q, false)) × (q.buffsize ≡ o.buffsize))
        ⊎ ((write_header head p o
              ≡ (record o { outbuffer = bare; writeoffset = 5 + length head }, true))
            × (5 + length head ≤ o.buffsize))
  unfolding write_header
  write_header-bare o z small = elim (Bool-cases (ltb (sub32 o.buffsize 0) (5 + length head))) [
    | inl e ↦ inl (o, ground (arith, size_zero), refl)
    | inr e ↦ elim (Bool-cases (leb (sub32 o.buffsize 5) (length head))) [
      | inl f ↦ inl (
        record o { outbuffer = 0 ∷ store_u32 (htonl (length head % u32_mod)) },
        ground (arith, size_zero, put_sizes_bare o z),
        refl,
      )
      | inr f ↦ inr (
        ground (
          arith,
          size_zero,
          put_sizes_bare o z,
          take_all 5 (0 ∷ store_u32 (htonl (length head % u32_mod))) (omega (arith, sized-length)),
        ),
        ground arith,
      )
    ]
  ]

  -- With no payload to send the payload state only flushes what stands in the buffer.
  payload_bare :
      (o : Out)
      → o.alreadysent ≡ 0
      → 0 < o.writeoffset
      → payload_case p is_open o ≡ flush is_open [] o
  unfolding payload_case
  payload_bare o z some_written = ground (arith, size_zero)

  flush-Opened :
      (o : Out)
      → o.outstate ≡ payload
      → o.alreadysent ≡ 0
      → 0 < o.writeoffset
      → o.writeoffset ≤ length o.outbuffer
      → o.writeoffset < u32_mod
      → Opened o.buffsize (some (flush is_open [] o))
  unfolding flush
  flush-Opened o e z some_written within small =
      let more : ltb 0 o.writeoffset ≡ true = ground arith in
      elim (Bool-cases is_open) [
        | inl k ↦
            let long = length-take o.writeoffset o.outbuffer in
            rw (flush, k, more) (refl, e, (refl, z, omega (arith, long), omega (arith, long)))
        | inr k ↦ rw (flush, k) (refl, inr e)
      ]

  after_header-Opened :
      (o : Out)
      → o.writeoffset ≡ 0
      → o.buffsize < u32_mod
      → Opened o.buffsize (some (after_header p is_open (write_header head p o)))
  after_header-Opened o z small = elim (write_header-bare o z small) [
    | inl (q, e, same) ↦ rw (e, ← same) (failed-Opened q)
    | inr (e, room) ↦
        let o' : Out = record o {
          outbuffer = bare;
          writeoffset = 5 + length head;
          alreadysent = 0;
          outstate = payload;
        } in
        rw (e, payload_bare o' refl (omega arith))
          (flush-Opened o' refl refl (omega arith) (omega (arith, length-bare)) (omega arith))
  ]

  -- A free sender whose buffer is smaller than 2 ^ 32 bytes.
  pub send-Opened :
      (o : Out)
      → o.outstate ≡ free
      → o.buffsize < u32_mod
      → Opened o.buffsize (send head p is_open o)
  unfolding send on_send send_switch header_case
  send-Opened o e small = rw e (
      after_header-Opened (record o { writeoffset = 0; alreadysent = 0; outstate = header }) refl
        small)

  -- The end of the write that is under way: an error is reported and nothing is sent any more;
  -- without one the copy of a payload that is not there is undefined.
  pub on_send_bare :
      (o : Out) (error bytes : ℕ) (b : Bytes)
      → o.outstate ≡ payload
      → UnderWay o b
      → (error ≡ 0 → bytes ≡ length b)
      → 0 < o.buffsize
      → o.buffsize < u32_mod
      → (on_send head p error bytes is_open o ≡ sent o (send_error p error ∷ []) none)
        ⊎ (on_send head p error bytes is_open o ≡ faulted)
  unfolding on_send send_switch payload_case flush
  on_send_bare o error bytes b e way whole pos small = elim (Bool-cases (ltb 0 error)) [
    | inl k ↦ inl (ground arith)
    | inr k ↦
        let all : bytes ≡ length b = whole (ground arith) in
        inr (rw (on_send, k, e) (ground (arith, size_zero, ap length empty)))
  ]

  pub on_send_bare_faults :
      (o : Out) (b : Bytes)
      → o.outstate ≡ payload
      → UnderWay o b
      → 0 < o.buffsize
      → o.buffsize < u32_mod
      → on_send head p 0 (length b) is_open o ≡ faulted
  unfolding on_send send_switch payload_case flush
  on_send_bare_faults o b e way pos small =
      rw (on_send, e) (ground (arith, size_zero, ap length empty))
