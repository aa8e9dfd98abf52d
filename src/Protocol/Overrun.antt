-- ===== src/Protocol/Overrun.antt =====
-- protocol.hpp: what onSend does when the first frame of a packet has been written.
use libgscale.Prelude.{
  ℕ, ◌+◌, ◌-◌, ◌%◌, ◌^◌, ◌≤◌, ◌<◌, ◌≡◌, ◌∙◌, true, some, [], arith, length, length-append,
  length-take, length-drop, take, take_all, min, drop, min,
}
use libgscale.Words.{Bytes, u32_mod}
use libgscale.Packet.{Packet}
use libgscale.Protocol.{free, payload}
use libgscale.Protocol.Sender.{
  Out, faulted, sent, flush, payload_case, send_switch, on_send, send, sub32, min_u32,
}
use libgscale.Protocol.Frames.{
  frame_head, first_part, first_frame, send_frame, size_lem, length-sizes, sizes,
}

-- The state in which `send` leaves the sender.
abbrev pub waiting : Bytes → Packet → Out → Out
waiting head p o = record o {
  outstate = payload;
  writeoffset = 0;
  alreadysent = first_part head (length p.payload) o.buffsize;
  outbuffer = first_frame head p o.buffsize;
}

-- The number of payload bytes that onSend takes for sent: those of the first frame twice, and the
-- length of the frame's head.
abbrev pub counted : Bytes → Packet → Out → ℕ
counted head p o =
    first_part head (length p.payload) o.buffsize + length (first_frame head p o.buffsize)

length-first_frame :
    (head : Bytes) (p : Packet) (o : Out)
    → length (first_frame head p o.buffsize)
      ≡ length (frame_head head (length p.payload)) + first_part head (length p.payload) o.buffsize
length-first_frame head p o = omega (
  arith,
  length-append (frame_head head (length p.payload))
      (take (first_part head (length p.payload) o.buffsize) p.payload),
  length-take (first_part head (length p.payload) o.buffsize) p.payload,
)

five-le-head : (head : Bytes) (n : ℕ) → 5 ≤ length (frame_head head n)
five-le-head head n =
    let long = length-append (sizes head n) head in ground (arith, length-sizes head n, long)

module _ (head : Bytes) (p : Packet) (o : Out) (is_free : o.outstate ≡ free)
    (room : length head + 9 < o.buffsize) (small : o.buffsize < 2 ^ 31)
    (fits : length p.payload < u32_mod) where
  counted_small : (counted head p o < u32_mod) × (5 ≤ counted head p o)
  counted_small = omega (
    arith,
    length-first_frame head p o,
    five-le-head head (length p.payload),
    (send_frame head p o is_free room (omega arith) fits).1,
  )

  completed :
      on_send head p 0 (length (first_frame head p o.buffsize)) true (waiting head p o)
      ≡ payload_case p true (record (waiting head p o) { alreadysent = counted head p o })
  unfolding on_send send_switch
  completed =
      let fine : counted head p o % u32_mod ≡ counted head p o = omega (arith, counted_small) in
      rw fine

  -- When the first frame has been written and the bytes that onSend then counts as sent are more
  -- than the payload has, it copies from behind the payload. So it is for each packet whose payload
  -- went out with the first frame, the empty payload included: sendFinished is not called.
  pub on_send_overruns :
      length p.payload < counted head p o
      → (send head p true o
          ≡ some (sent (waiting head p o) [] (some (first_frame head p o.buffsize))))
        × (on_send head p 0 (length (first_frame head p o.buffsize)) true (waiting head p o)
            ≡ faulted)
  unfolding payload_case
  on_send_overruns short =
      let bounds = counted_small in
      let todo : sub32 (length p.payload) (counted head p o)
          ≡ length p.payload + u32_mod - counted head p o =
        omega arith in
      let space : sub32 o.buffsize 0 ≡ o.buffsize = omega arith in
      (
        (send_frame head p o is_free room (omega arith) fits).0,
        completed ∙ rw (payload_case, size_lem p fits, todo, space) (ground arith),
      )

  -- A longer payload goes on after the first frame at the counted position: the bytes between the
  -- end of the first frame's part and that position, at least five, are never sent.
  on_send_skips :
      counted head p o < length p.payload
      → (on_send head p 0 (length (first_frame head p o.buffsize)) true (waiting head p o)
          ≡ sent
              (record (waiting head p o) {
                writeoffset = 0;
                alreadysent =
                    counted head p o + min o.buffsize (length p.payload - counted head p o);
                outbuffer =
                    take
                      (min o.buffsize (length p.payload - counted head p o))
                      (drop (counted head p o) p.payload);
              })
              []
              (some (
                take
                  (min o.buffsize (length p.payload - counted head p o))
                  (drop (counted head p o) p.payload))))
        × (first_part head (length p.payload) o.buffsize + 5 ≤ counted head p o)
  unfolding payload_case flush
  on_send_skips long =
      let n = length p.payload in
      let at = counted head p o in
      let fill = min o.buffsize (n - at) in
      let chunk = take fill (drop at p.payload) in
      let bounds = counted_small in
      let todo : sub32 n at ≡ n - at = omega arith in
      let space : sub32 o.buffsize 0 ≡ o.buffsize = omega arith in
      let chosen : min_u32 o.buffsize (n - at) ≡ fill = ground arith in
      let size : length chunk ≡ fill =
        omega (arith, length-take fill (drop at p.payload), length-drop at p.payload) in
      (
        completed
            ∙ rw (payload_case, size_lem p fits, todo, space, chosen)
                (ground (arith, size, take_all (0 + length chunk) chunk)),
        omega (arith, length-first_frame head p o, five-le-head head n),
      )
