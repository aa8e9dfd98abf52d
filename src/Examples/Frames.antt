-- ===== src/Examples/Frames.antt =====
-- Runs of backend/tcp/protocol.hpp.
use libgscale.Prelude.{
  ◌≡◌, ◌≤◌, refl, true, some, Option, [], ◌∷◌, ◌++◌, arith, inr, length, replicate, not, get_or,
  ◌==◌,
}
use libgscale.Words.{Bytes}
use libgscale.Packet.{Packet}
use libgscale.Protocol.{free, header, payload}
use libgscale.Protocol.Sender.{Out, Sent, sent, send, on_send}
use libgscale.Protocol.Receiver.{In, done, process_read_buffer}
use libgscale.Protocol.Frames.{frame_head, first_part, first_frame, send_frame}
use libgscale.Protocol.Overrun.{waiting, on_send_overruns}
use libgscale.Protocol.Parsing.{Settled, process_read_buffer-Settled}
use libgscale.Protocol.Delivery.{frame_never_delivered}
use libgscale.Protocol.Sender
use libgscale.Examples.{letter}

abbrev sender : Out
sender = record { buffsize = 64; outstate = free; writeoffset = 0; alreadysent = 0; outbuffer = [] }

-- An archive that made a header of two bytes.
abbrev head : Bytes
head = 8 ∷ 9 ∷ []

abbrev long_letter : Packet
long_letter = record letter { payload = replicate 200 5 }

abbrev keep : Packet → Bytes → Option Packet
keep p b = some p

send_frame_example :
    (send head letter true sender
      ≡ some (
          sent
            (record sender {
              outstate = payload;
              writeoffset = 0;
              alreadysent = first_part head 3 64;
              outbuffer = first_frame head letter 64;
            })
            []
            (some (first_frame head letter 64))))
    × (length (first_frame head letter 64) ≤ 64)
send_frame_example = send_frame head letter sender refl (omega arith) (omega arith) (omega arith)

on_send_overruns_example :
    (send head letter true sender
      ≡ some (sent (waiting head letter sender) [] (some (first_frame head letter 64))))
    × (on_send head letter 0 (length (first_frame head letter 64)) true (waiting head letter sender)
        ≡ Sender.faulted)
on_send_overruns_example =
    on_send_overruns head letter sender refl (omega arith) (omega arith) (omega arith) (omega arith)

abbrev receiver : In
receiver = record {
  buffsize = 64;
  instate = free;
  inbuffer = replicate 64 0;
  payloadsize = 0;
  readoffset = 0;
  alreadyread = 0;
  input = letter;
}

abbrev wrapping : In
wrapping = record receiver {
  instate = header;
  inbuffer = 1 ∷ 0 ∷ 0 ∷ 0 ∷ 2 ∷ 255 ∷ 255 ∷ 255 ∷ 255 ∷ replicate 55 0;
}

process_read_buffer-Settled_example :
    Settled (not (get_or wrapping.inbuffer 0 0 == 0)) (process_read_buffer keep 3 wrapping 20)
process_read_buffer-Settled_example = process_read_buffer-Settled keep 0 wrapping 20 (inr refl)

abbrev arrived : In
arrived = record receiver {
  instate = header;
  inbuffer = frame_head head 3 ++ 1 ∷ 2 ∷ 3 ∷ replicate 50 0;
}

frame_never_delivered_example :
    (j : In) × (process_read_buffer keep 2 arrived 14 ≡ done j 0 [])
    × (j.instate ≡ header)
    × (j.readoffset ≡ 14)
    × (j.inbuffer ≡ arrived.inbuffer)
frame_never_delivered_example =
    frame_never_delivered keep 0 arrived head (1 ∷ 2 ∷ 3 ∷ replicate 50 0) 3 13 refl refl
      (omega arith) (omega arith) (omega arith) (omega arith)
