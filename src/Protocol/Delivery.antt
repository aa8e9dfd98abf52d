-- ===== src/Protocol/Delivery.antt =====
-- protocol.hpp: what the receiver makes of the frames that the sender writes.
use libgscale.Prelude.{
  ℕ, suc, ◌+◌, ◌%◌, ◌^◌, ◌≤◌, ◌<◌, ◌≡◌, ◌≢◌, refl, true, Option, List, [], ◌++◌, arith, ltb, get_or,
  if◌then◌else◌,
}
use libgscale.Words.{Bytes, u32_mod, load_u32, htonl}
use libgscale.Packet.{Packet}
use libgscale.Protocol.{header, free}
use libgscale.Protocol.Receiver.{
  In, done, header_round, round, read_loop, process_read_buffer, shift,
}
use libgscale.Protocol.Frames.{frame_head}

-- At 5 stands the length of the payload, in network order; it is read in host order.
load_u32-frame :
    (head rest : Bytes) (n : ℕ)
    → 0 < n
    → n < u32_mod
    → (load_u32 (frame_head head n ++ rest) 5 ≡ htonl n)
      × (get_or (frame_head head n ++ rest) 0 0 ≡ 1)
unfolding load_u32 htonl
load_u32-frame head rest n pos small =
    let e : ltb 0 n ≡ true = ground arith in rw e (omega arith, refl)

htonl_big : (n : ℕ) → n < 2 ^ 31 → n % 256 ≢ 0 → (2 ^ 24 ≤ htonl n) × (9 + htonl n < u32_mod)
unfolding htonl
htonl_big n small odd = omega arith

-- A receiver that expects a header and has in its buffer a frame as the sender writes it, with a
-- payload whose length is not a multiple of 256, gives nothing to its subscriber, however much of
-- the frame has come, as long as the buffer has less than 2 ^ 24 bytes: it takes the payload's
-- length with its bytes reversed for the header's, and waits for more bytes than the buffer holds.
pub frame_never_delivered :
    (load : Packet → Bytes → Option Packet) (fuel : ℕ) (i : In) (head rest : Bytes) (n bytes : ℕ)
    → i.instate ≡ header
    → i.inbuffer ≡ frame_head head n ++ rest
    → n < 2 ^ 31
    → n % 256 ≢ 0
    → i.readoffset + suc bytes ≤ i.buffsize
    → i.buffsize < 2 ^ 24
    → (j : In) × (process_read_buffer load (suc (suc fuel)) i (suc bytes) ≡ done j 0 [])
      × (j.instate ≡ header)
      × (j.readoffset ≡ i.readoffset + suc bytes)
      × (j.inbuffer ≡ i.inbuffer)
unfolding process_read_buffer read_loop round header_round
frame_never_delivered load fuel i head rest n bytes e frame small odd within tiny =
    let offset : (i.readoffset + suc bytes) % u32_mod ≡ i.readoffset + suc bytes = omega arith in
    let facts = load_u32-frame head rest n (ground arith) (omega arith) in
    let size : load_u32 i.inbuffer 5 ≡ htonl n = rw frame facts.0 in
    let flag : get_or i.inbuffer 0 0 ≡ 1 = rw frame facts.1 in
    let big = htonl_big n small odd in
    (
      record i {
        readoffset = i.readoffset + suc bytes;
        payloadsize = if ltb (i.readoffset + suc bytes) 5 then i.payloadsize else htonl 0;
      },
      rw (offset, e) (ground (arith, size, flag, big)),
      e,
      refl,
      refl,
    )

module _ (load : Packet → Bytes → Option Packet) where
  -- What is left of a receiver that has read a header of `m` bytes.
  abbrev behind : In → ℕ → Packet → In
  behind i m input = record i {
    input = input;
    payloadsize = htonl 0;
    inbuffer = shift i.buffsize (5 + m) i.inbuffer;
    readoffset = 0;
    instate = free;
  }
