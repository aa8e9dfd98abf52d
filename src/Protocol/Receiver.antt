-- ===== src/Protocol/Receiver.antt =====
-- protocol.hpp, onRead and processReadBuffer.
use libgscale.Prelude.{
  ℕ, zero, suc, ◌+◌, ◌-◌, ◌%◌, ◌^◌, ◌&&◌, Option, none, some, List, [], ◌∷◌, ◌++◌, take, drop,
  length, get_or, leb, ltb, ◌==◌, not, if◌then◌else◌,
}
use libgscale.Words.{Bytes, u32_mod, load_u32, htonl}
use libgscale.Packet.{Packet, set_payload}
use libgscale.Protocol.{
  Transfer, min_state, free, header, payload, max_state, Event, on_read, read_error,
}

abbrev pub u64_mod : ℕ
u64_mod = 2 ^ 64

-- `inbuffer` is the whole buffer, of `buffsize` bytes.
pub record In : Type 0 where
  pub buffsize : ℕ
  pub instate : Transfer
  pub inbuffer : Bytes
  pub payloadsize : ℕ
  pub readoffset : ℕ
  pub alreadyread : ℕ
  pub input : Packet

-- The outcome of a round of the loop or of the loop: undefined behaviour, an exception of the
-- archive, no end within the fuel, or the state, what is left of `bytes_transferred` and the
-- subscriber's calls.
pub data Read : Type 0 where
  faulted threw running : Read
  done : In → ℕ → List Event → Read

-- `memmove(inbuffer, inbuffer + n, BUFFSIZE - n)`.
abbrev pub shift : ℕ → ℕ → Bytes → Bytes
shift buffsize n b = drop n b ++ drop (buffsize - n) b

-- size_t subtraction.
abbrev pub sub64 : ℕ → ℕ → ℕ
sub64 a b = (a + u64_mod - b) % u64_mod

-- case PAYLOAD of processReadBuffer.
unfoldable pub payload_round : In → ℕ → List Event → Read
unfolding set_payload
payload_round i bytes events =
    let plength = if leb i.payloadsize i.readoffset then i.payloadsize else i.readoffset in
    let input = (set_payload i.input (take plength i.inbuffer)).0 in
    let left = i.payloadsize - plength in
    done
      (record i {
        input = input;
        inbuffer = shift i.buffsize plength i.inbuffer;
        readoffset = 0;
        payloadsize = left;
        instate = if leb left 0 then free else i.instate;
      })
      (sub64 bytes plength) (events ++ on_read input ∷ [])

-- `load old bytes` reads a packet's header into `old`; `none` is an exception of the archive.
module _ (load : Packet → Bytes → Option Packet) where
  -- The first branch of case HEADER, for a frame with a payload: `size` is 1 + 4 + 4 + headersize
  -- as a uint32_t. A std::string of `headersize` bytes is made from the buffer.
  unfoldable pub with_payload : ℕ → ℕ → In → ℕ → Read
  with_payload headersize size i bytes =
      if ltb i.buffsize (9 + headersize)
      then faulted
      else elim (load i.input (take headersize (drop 9 i.inbuffer))) [
        | none ↦ threw
        | some input ↦
            payload_round
              (record i {
                input = input;
                inbuffer = shift i.buffsize (9 + headersize) i.inbuffer;
                readoffset = 0;
                instate = payload;
              })
              (sub64 bytes size) []
      ]

  -- The second branch, for a frame without a payload.
  unfoldable pub without_payload : ℕ → ℕ → In → ℕ → Read
  without_payload headersize size i bytes =
      if ltb i.buffsize (5 + headersize)
      then faulted
      else elim (load i.input (take headersize (drop 5 i.inbuffer))) [
        | none ↦ threw
        | some input ↦
            done
              (record i {
                input = input;
                inbuffer = shift i.buffsize (5 + headersize) i.inbuffer;
                readoffset = 0;
                instate = free;
              })
              (sub64 bytes size) (on_read input ∷ [])
      ]

  -- case HEADER. `headersize` is read at 1 and converted, and then read again at 5; `payloadsize`
  -- is set to 0 and converted.
  unfoldable pub header_round : In → ℕ → Read
  header_round i bytes =
      if ltb i.readoffset 5
      then done i 0 []
      else let headersize = load_u32 i.inbuffer 5 in
        let i' : In = record i { payloadsize = htonl 0 } in
        let flag = not (get_or i.inbuffer 0 0 == 0) in
        if flag && leb ((9 + headersize) % u32_mod) i.readoffset
        then with_payload headersize ((9 + headersize) % u32_mod) i' bytes
        else if not flag && leb ((5 + headersize) % u32_mod) i.readoffset
        then without_payload headersize ((5 + headersize) % u32_mod) i' bytes
        else done i' 0 []

  -- One round of the loop: the switch on `instate`.
  unfoldable pub round : Transfer → In → ℕ → Read
  round min_state i bytes = done i bytes []
  round max_state i bytes = done i bytes []
  round free i bytes =
      header_round (record i { instate = header; alreadyread = 0; readoffset = 0 }) bytes
  round header i bytes = header_round i bytes
  round payload i bytes = payload_round i bytes []

  -- The loop `while(bytes_transferred>0)`, on fuel.
  unfoldable pub read_loop : ℕ → In → ℕ → List Event → Read
  read_loop zero i bytes events = running
  read_loop (suc fuel) i zero events = done i zero events
  read_loop (suc fuel) i (suc n) events = elim (round i.instate i (suc n)) [
    | faulted ↦ faulted
    | threw ↦ threw
    | running ↦ running
    | done i' left more ↦ read_loop fuel i' left (events ++ more)
  ]

  -- processReadBuffer
  unfoldable pub process_read_buffer : ℕ → In → ℕ → Read
  process_read_buffer fuel i bytes =
      read_loop fuel (record i { readoffset = (i.readoffset + bytes) % u32_mod }) bytes []

  -- onRead(error, bytes_transferred), up to the next async_read_some; `error` is 0 for success.
  unfoldable pub on_read_some : ℕ → ℕ → In → ℕ → Read
  on_read_some fuel error i bytes =
      if ltb 0 error then done i bytes (read_error error ∷ []) else process_read_buffer fuel i bytes

-- Where the next async_read_some puts its bytes, and how many it takes at most.
unfoldable pub read_window : In → ℕ × ℕ
read_window i = (i.readoffset, i.buffsize - i.readoffset)

-- What async_read_some leaves: the bytes that came, from there on.
unfoldable pub fill : Bytes → In → In
fill bytes i = record i {
  inbuffer = take i.readoffset i.inbuffer ++ bytes ++ drop (i.readoffset + length bytes) i.inbuffer;
}
