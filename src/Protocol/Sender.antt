-- ===== src/Protocol/Sender.antt =====
-- protocol.hpp, writeHeader, onSend and send.
use libgscale.Prelude.{
  ℕ, ◌+◌, ◌-◌, ◌%◌, Bool, true, false, ◌&&◌, ◌||◌, Option, none, some, List, [], ◌∷◌, ◌++◌, length,
  take, drop, leb, ltb, if◌then◌else◌,
}
use libgscale.Words.{Bytes, u32_mod, store_u32, htonl}
use libgscale.Packet
use libgscale.Packet.{Packet}
use libgscale.Protocol.{
  Transfer, min_state, free, header, payload, max_state, Event, send_error, send_finished,
  value_too_large,
}

-- `outbuffer` holds the bytes that were written to the buffer, from its start; what stands behind
-- them is not used.
pub record Out : Type 0 where
  pub buffsize : ℕ
  pub outstate : Transfer
  pub writeoffset : ℕ
  pub alreadysent : ℕ
  pub outbuffer : Bytes

-- uint32_t subtraction.
abbrev pub sub32 : ℕ → ℕ → ℕ
sub32 a b = (a + u32_mod - b) % u32_mod

-- memcpy of some bytes to the buffer at `writeoffset`, which moves behind them.
abbrev pub put : Bytes → Out → Out
put bytes o = record o {
  outbuffer = take o.writeoffset o.outbuffer ++ bytes;
  writeoffset = o.writeoffset + length bytes;
}

-- The flag, the two sizes and the header, in the order in which writeHeader copies them.
unfoldable pub put_sizes : Bytes → Packet → Out → Out
put_sizes head p o =
    let flagged = put ((if ltb 0 (Packet.size p) then 1 else 0) ∷ []) o in
    let sized = put (store_u32 (htonl (length head % u32_mod))) flagged in
    if ltb 0 (Packet.size p) then put (store_u32 (htonl (Packet.size p))) sized else sized

-- writeHeader; `head` is what the archive made of the packet. The result tells success.
unfoldable pub write_header : Bytes → Packet → Out → Out × Bool
unfolding put_sizes
write_header head p o =
    let freespace = sub32 o.buffsize o.writeoffset in
    if ltb freespace (5 + length head) || (ltb 0 (Packet.size p) && ltb freespace (9 + length head))
    then (o, false)
    else let o' = put_sizes head p o in
      if leb (sub32 o.buffsize o'.writeoffset) (length head)
      then (record o' { writeoffset = o.writeoffset }, false)
      else (put head o', true)

-- What a call leaves behind: the state, the subscriber's calls, and what async_write was given.
pub data Sent : Type 0 where
  faulted : Sent
  sent : Out → List Event → Option Bytes → Sent

-- The last part of onSend.
unfoldable pub flush : Bool → List Event → Out → Sent
flush is_open events o =
    if is_open && ltb 0 o.writeoffset
    then sent (record o { writeoffset = 0 }) events (some (take o.writeoffset o.outbuffer))
    else sent o events none

abbrev pub min_u32 : ℕ → ℕ → ℕ
min_u32 fillsize todo = if ltb todo fillsize then todo else fillsize

-- case PAYLOAD of onSend. memcpy reads `fillsize` bytes of the payload from `alreadysent` on.
unfoldable pub payload_case : Packet → Bool → Out → Sent
unfolding flush
payload_case p is_open o =
    let todo = sub32 (Packet.size p) o.alreadysent in
    let fillsize = min_u32 (sub32 o.buffsize o.writeoffset) todo in
    if ltb 0 todo && ltb 0 fillsize
    then if ltb (length p.payload) (o.alreadysent + fillsize)
      then faulted
      else flush is_open [] (record (put (take fillsize (drop o.alreadysent p.payload)) o) {
        alreadysent = (o.alreadysent + fillsize) % u32_mod;
      })
    else if leb o.writeoffset 0
    then sent (record o { outstate = free }) (send_finished p ∷ []) none
    else flush is_open [] o

abbrev pub after_header : Packet → Bool → Out × Bool → Sent
after_header p is_open (o, true) =
    payload_case p is_open (record o { alreadysent = 0; outstate = payload })
after_header p is_open (o, false) =
    flush is_open (send_error p value_too_large ∷ [])
      (record o { outstate = free; writeoffset = 0 })

-- case HEADER of onSend, which goes on to PAYLOAD.
unfoldable pub header_case : Bytes → Packet → Bool → Out → Sent
header_case head p is_open o = after_header p is_open (write_header head p o)

-- The switch of onSend on `outstate`.
unfoldable pub send_switch : Transfer → Bytes → Packet → Bool → Out → Sent
send_switch min_state head p is_open o = flush is_open [] o
send_switch max_state head p is_open o = flush is_open [] o
send_switch free head p is_open o =
    header_case head p is_open (record o { writeoffset = 0; alreadysent = 0; outstate = header })
send_switch header head p is_open o = header_case head p is_open o
send_switch payload head p is_open o = payload_case p is_open o

-- onSend(p, error, bytes_transferred); `error` is 0 for success.
unfoldable pub on_send : Bytes → Packet → ℕ → ℕ → Bool → Out → Sent
on_send head p error bytes is_open o =
    if ltb 0 error
    then flush is_open (send_error p error ∷ []) o
    else send_switch o.outstate head p is_open
        (record o { alreadysent = (o.alreadysent + bytes) % u32_mod })

abbrev pub is_free : Transfer → Bool
is_free free = true
is_free _ = false

-- send; `none` is the exception with EFAULT.
unfoldable pub send : Bytes → Packet → Bool → Out → Option Sent
send head p is_open o = if is_free o.outstate then some (on_send head p 0 0 is_open o) else none
