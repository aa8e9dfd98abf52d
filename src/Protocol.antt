-- ===== src/Protocol.antt =====
-- backend/tcp/protocol.hpp: packets framed on a stream socket. The archive that a packet's header
-- is made with is a parameter, and so is what the socket does. Memory that the program reads or
-- writes out of bounds is undefined behaviour and ends a run as `faulted`.
pub mod Sender
pub mod Receiver
pub mod Frames
pub mod Delivery
pub mod Parsing
pub mod Overrun
pub mod Opening
pub mod Memory
pub mod Unowned
use libgscale.Prelude.{ℕ, Bool, true, false, List, ltb, if◌then◌else◌}
use libgscale.Packet.{Packet}

-- enum TRANSFER
pub data Transfer : Type 0 where
  min_state free header payload max_state : Transfer

-- The calls of the subscriber.
pub data Event : Type 0 where
  read_error : ℕ → Event
  send_error : Packet → ℕ → Event
  on_read : Packet → Event
  send_finished : Packet → Event

-- boost::system::errc::value_too_large.
abbrev pub value_too_large : ℕ
value_too_large = 75

-- The test of the constructor on the buffer size.
unfoldable pub accepts_buffsize : ℕ → Bool
accepts_buffsize buffsize = if ltb buffsize 64 then false else true
