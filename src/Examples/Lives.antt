-- ===== src/Examples/Lives.antt =====
-- Runs of backend/tcp/session.cpp and protocol.hpp over a session's life.
use libgscale.Prelude.{
  ℕ, Bool, false, ◌+◌, ◌⊎◌, none, leb, ◌≡◌, ◌≢◌, ◌≤◌, refl, some, Option, [], ◌∷◌, ◌++◌, length,
  All, replicate, keep_if,
}
use libgscale.Words.{Bytes, store_u32, htonl}
use libgscale.Packet
use libgscale.Packet.{Packet}
use libgscale.GroupCore.Rows.{LocalNodeRow}
use libgscale.GroupCore.Nodes.{range_by_created}
use libgscale.MultiIndex.{ordered}
use libgscale.Protocol.{free, header, payload}
use libgscale.Protocol.Sender.{
  faulted, put_sizes, write_header, send, on_send, send_switch, header_case, payload_case, flush,
}
use libgscale.Protocol.Receiver.{In, done, fill, process_read_buffer}
use libgscale.Protocol.Frames.{frame_head}
use libgscale.Protocol.Memory.{
  Heap, Members, no_memory, built, new_session_protocol, destroy_protocol, Reading,
}
use libgscale.Protocol.Unowned.{bytes_of, new_session_protocol_cases}
use libgscale.Session.{Session, threw, sync_send, sync_range, sync_node_list, sync_loop, sync_round}
use libgscale.Session.Life.{Life, begun, ran, announcement}
use libgscale.Session.Once.{Life-announces_once}
use libgscale.Examples.{letter}
use libgscale.Examples.Sessions.{archive, group, session, there}

-- A session as it is made, and behind the announcement of a node.
abbrev made : Session
made = record session {
  proto = record {
    buffsize = 8192;
    outstate = free;
    writeoffset = 0;
    alreadysent = 0;
    outbuffer = [];
  };
}

abbrev frame : Bytes
frame = 0 ∷ 0 ∷ 0 ∷ 0 ∷ 2 ∷ 8 ∷ 9 ∷ []

abbrev told : Session
told = record made {
  nodesyncctime = some 110;
  syncpacket = announcement archive there;
  proto = record made.proto { outstate = payload; outbuffer = frame };
}

told-Life : Life archive told (some (announcement archive there, frame)) (frame ∷ [])
unfolding sync_node_list sync_loop sync_round sync_range ordered range_by_created keep_if sync_send
    send on_send send_switch header_case payload_case flush write_header put_sizes store_u32 htonl
    Packet.size Packet.new_packet Packet.set_type
told-Life = ran 3 group told (some frame) (begun made refl refl) refl

abbrev receiver : In
receiver = record {
  buffsize = 64;
  instate = free;
  inbuffer = replicate 64 0;
  payloadsize = 0;
  readoffset = 0;
  alreadyread = 0;
  input = letter;
}

abbrev keep : Packet → Bytes → Option Packet
keep p b = some p

Life-announces_once_example :
    (length (frame ∷ []) ≤ 1)
    × ((p : Packet) (b : Bytes)
        → ◌≡◌ {A = Option (Packet × Bytes)} (some (announcement archive there, frame)) (some (p, b))
        → on_send (archive p) p 0 (length b) told.is_open told.proto ≡ faulted)
    × ((frame ∷ []) ≢ []
        → (r : LocalNodeRow)
        → sync_send archive r told ≡ threw (record told { syncpacket = announcement archive r }))
    × All
        (λ f. (j : In) × (process_read_buffer keep 2 (fill f receiver) (length f) ≡ done j 0 []))
        (frame ∷ [])
Life-announces_once_example = Life-announces_once archive told-Life keep 0 receiver refl

-- A frame without a payload whose archive begins with a small number.
abbrev head : Bytes
head = 2 ∷ 0 ∷ 0 ∷ 0 ∷ 7 ∷ []

abbrev arrived : In
arrived = record receiver { instate = header; inbuffer = frame_head head 0 ++ replicate 54 0 }

-- Memory for blocks of up to 10000 bytes.
abbrev memory : Heap → ℕ → Bool
memory heap size = leb size 10000

abbrev untouched : Heap
untouched = record { next = 1; blocks = (0, 5) ∷ [] }

new_session_protocol_cases_example :
    ((h : Heap) × (new_session_protocol memory untouched ≡ no_memory h)
      × (bytes_of h.blocks ≤ bytes_of untouched.blocks + 8192))
    ⊎ ((p : Members) × (h : Heap) × (reads : Bool) × (new_session_protocol memory untouched
          ≡ built p h reads)
        × (bytes_of h.blocks ≡ bytes_of untouched.blocks + 16384)
        × (p.inbuffer ≡ none)
        × (p.outbuffer ≡ none)
        × ((later : Bool) → Reading reads later → later ≡ false)
        × (destroy_protocol p h ≡ none))
new_session_protocol_cases_example = new_session_protocol_cases memory untouched
