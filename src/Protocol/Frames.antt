-- ===== src/Protocol/Frames.antt =====
-- protocol.hpp: the first bytes that `send` puts on the wire.
use mathlib.Core.List.{append-nil}
use libgscale.Prelude.{
  ℕ, ◌+◌, ◌-◌, ◌/◌, ◌%◌, ◌≤◌, ◌<◌, ◌≡◌, ap, ◌∙◌, true, some, [], ◌∷◌, ◌++◌, arith, length,
  length-append, take, take_all, length-take, ltb, if◌then◌else◌, Bool-cases, inl, inr, min,
}
use libgscale.Words.{Bytes, u32_mod, store_u32-htonl}
use libgscale.Packet
use libgscale.Packet.{Packet}
use libgscale.Protocol.{free, header, payload}
use libgscale.Protocol.Sender.{
  Out, put_sizes, write_header, sent, flush, put, sub32, min_u32, payload_case, header_case,
  send_switch, on_send, send,
}

-- A number below 2 ^ 32 in network order.
abbrev pub be32 : ℕ → Bytes
be32 w = w / 16777216 % 256 ∷ w / 65536 % 256 ∷ w / 256 % 256 ∷ w % 256 ∷ []

-- The layout of a frame up to its payload: a flag, the header's length, the payload's length if
-- it is not 0, and the header.
abbrev pub sizes : Bytes → ℕ → Bytes
sizes head n = if ltb 0 n then 1 ∷ be32 (length head) ++ be32 n else 0 ∷ be32 (length head)

abbrev pub frame_head : Bytes → ℕ → Bytes
frame_head head n = sizes head n ++ head

abbrev cleared : Out → Out
cleared o = record o { writeoffset = 0; alreadysent = 0; outstate = header }

pub size_lem : (p : Packet) → length p.payload < u32_mod → Packet.size p ≡ length p.payload
unfolding Packet.size
size_lem p k = omega arith

put_sizes_lem :
    (head : Bytes) (p : Packet) (o : Out)
    → length head < u32_mod
    → length p.payload < u32_mod
    → put_sizes head p (cleared o) ≡ record (cleared o) {
      outbuffer = sizes head (length p.payload);
      writeoffset = length (sizes head (length p.payload));
    }
unfolding put_sizes
put_sizes_lem head p o h k =
    let fits : length head % u32_mod ≡ length head = omega arith in
    elim (Bool-cases (ltb 0 (length p.payload))) [
      | inl e ↦ rw (
        put_sizes,
        size_lem p k,
        fits,
        e,
        store_u32-htonl (length head) h,
        store_u32-htonl (length p.payload) k,
      )
      | inr e ↦ rw (put_sizes, size_lem p k, fits, e, store_u32-htonl (length head) h)
    ]

pub length-sizes : (head : Bytes) (n : ℕ) → length (sizes head n) ≡ (if ltb 0 n then 9 else 5)
length-sizes head n = ground arith

write_header_lem :
    (head : Bytes) (p : Packet) (o : Out)
    → length head + 9 < o.buffsize
    → o.buffsize < u32_mod
    → length p.payload < u32_mod
    → write_header head p (cleared o) ≡ (
      record (cleared o) {
        outbuffer = frame_head head (length p.payload);
        writeoffset = length (sizes head (length p.payload)) + length head;
      },
      true,
    )
unfolding write_header
write_header_lem head p o room small k =
    let s = sizes head (length p.payload) in
    ground (
      arith,
      size_lem p k,
      put_sizes_lem head p o (omega arith) k,
      length-sizes head (length p.payload),
      take_all (length s) s (omega arith),
    )

-- The payload state behind a header `f`, with nothing of the payload sent.
abbrev behind : Bytes → Out → Out
behind f o = record o { outstate = payload; writeoffset = length f; alreadysent = 0; outbuffer = f }

abbrev part : Bytes → ℕ → ℕ → ℕ
part f n buffsize = min n (buffsize - length f)

-- What is left to send is the payload's length, and what fits is the rest of the buffer.
fillsize_lem :
    (f : Bytes) (n b : ℕ)
    → length f ≤ b
    → b < u32_mod
    → n < u32_mod
    → (sub32 n 0 ≡ n) × (min_u32 (sub32 b (length f)) n ≡ part f n b)
fillsize_lem f n b room small k =
    let rest : sub32 b (length f) ≡ b - length f = omega arith in
    (omega arith, rw rest (ground arith))

flush-part :
    (f : Bytes) (p : Packet) (o : Out)
    → 0 < length f
    → flush true []
        (record (put (take (part f (length p.payload) o.buffsize) p.payload) (behind f o)) {
          alreadysent = part f (length p.payload) o.buffsize;
        })
      ≡ sent
          (record o {
            outstate = payload;
            writeoffset = 0;
            alreadysent = part f (length p.payload) o.buffsize;
            outbuffer = f ++ take (part f (length p.payload) o.buffsize) p.payload;
          })
          []
          (some (f ++ take (part f (length p.payload) o.buffsize) p.payload))
unfolding flush
flush-part f p o h =
    let fill = take (part f (length p.payload) o.buffsize) p.payload in
    let positive : ltb 0 (length f + length fill) ≡ true = ground arith in
    rw (
      positive,
      take_all (length f) f (omega arith),
      take_all (length f + length fill) (f ++ fill) (omega (arith, length-append f fill)),
    )

payload_first :
    (f : Bytes) (p : Packet) (o : Out)
    → 0 < length f
    → length f ≤ o.buffsize
    → o.buffsize < u32_mod
    → length p.payload < u32_mod
    → payload_case p true (behind f o)
      ≡ flush true []
          (record (put (take (part f (length p.payload) o.buffsize) p.payload) (behind f o)) {
            alreadysent = part f (length p.payload) o.buffsize;
          })
unfolding payload_case
payload_first f p o h room small k =
    let facts = fillsize_lem f (length p.payload) o.buffsize room small k in
    rw (payload_case, size_lem p k, facts.0, facts.1)
      (ground (
        arith,
        take_all (length f) f,
        append-nil f,
        length-take (part f (length p.payload) o.buffsize) p.payload,
      ))

-- How much of a payload of `n` bytes the first frame has.
abbrev pub first_part : Bytes → ℕ → ℕ → ℕ
first_part head n buffsize = min n (buffsize - length (frame_head head n))

abbrev pub first_frame : Bytes → Packet → ℕ → Bytes
first_frame head p buffsize =
    frame_head head (length p.payload)
    ++ take (first_part head (length p.payload) buffsize) p.payload

-- A free sender with an open socket and a buffer that has room for more than the header writes
-- one frame: the flag, the sizes in network order, the header, and as much of the payload as the
-- buffer holds. It then waits in the payload state, and has told its subscriber nothing.
pub send_frame :
    (head : Bytes) (p : Packet) (o : Out)
    → o.outstate ≡ free
    → length head + 9 < o.buffsize
    → o.buffsize < u32_mod
    → length p.payload < u32_mod
    → (send head p true o
        ≡ some (
            sent
              (record o {
                outstate = payload;
                writeoffset = 0;
                alreadysent = first_part head (length p.payload) o.buffsize;
                outbuffer = first_frame head p o.buffsize;
              })
              []
              (some (first_frame head p o.buffsize))))
      × (length (first_frame head p o.buffsize) ≤ o.buffsize)
unfolding send on_send send_switch header_case
send_frame head p o e room small k =
    let n = length p.payload in
    let f = frame_head head n in
    let long : length f ≡ length (sizes head n) + length head = length-append (sizes head n) head in
    let short : length (sizes head n) ≤ 9 = ground (arith, length-sizes head n) in
    (
      rw (e, write_header_lem head p o room small k, ← long)
          (ap some (
            payload_first f p o (ground (arith, length-sizes head n)) (omega arith) small k
            ∙ flush-part f p o (ground (arith, length-sizes head n)))),
      omega (
        arith,
        length-append f (take (first_part head n o.buffsize) p.payload),
        length-take (first_part head n o.buffsize) p.payload,
      ),
    )
