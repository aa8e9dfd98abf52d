-- ===== src/Protocol/Memory.antt =====
-- backend/tcp/protocol.hpp, the constructor and the destructor, and session.cpp, the constructor: the
-- buffers on the heap and the first read. Whether there is memory for a block is a parameter.
use libgscale.Prelude.{
  ℕ, ◌+◌, Bool, true, false, not, Option, none, some, List, ◌∷◌, keep_if, any_of, ◌==◌,
  if◌then◌else◌,
}
use libgscale.Node.Archive.{◌>>=◌}
use libgscale.Protocol.{Transfer, free, accepts_buffsize}

-- The blocks that were made by `new char[]` and not deleted, with their addresses and sizes, and the
-- next address.
pub record Heap : Type 0 where
  pub next : ℕ
  pub blocks : List (ℕ × ℕ)

-- `new char[size]`, which throws std::bad_alloc if it fails and never gives NULL.
unfoldable pub new_chars : (Heap → ℕ → Bool) → ℕ → Heap → Option (ℕ × Heap)
new_chars memory size heap =
    if memory heap size
    then some (heap.next, record { next = heap.next + 1; blocks = (heap.next, size) ∷ heap.blocks })
    else none

-- `delete[]` of a pointer, which is `none` where it was never set; so is the result where that is
-- undefined.
unfoldable pub delete_chars : Option ℕ → Heap → Option Heap
delete_chars none heap = none
delete_chars (some a) heap =
    if any_of (λ (e : ℕ × ℕ). e.0 == a) heap.blocks
    then some (record heap { blocks = keep_if (λ (e : ℕ × ℕ). not (e.0 == a)) heap.blocks })
    else none

-- The members of TCP_Protocol that its constructor has to do with; a pointer that was never set is
-- `none`.
pub record Members : Type 0 where
  pub buffsize : ℕ
  pub instate : Transfer
  pub outstate : Transfer
  pub inbuffer : Option ℕ
  pub outbuffer : Option ℕ

-- How the constructor ends: by the exception for the size, by std::bad_alloc, or with the members and
-- whether a read is under way.
pub data Built : Type 0 where
  invalid_size no_memory : Heap → Built
  built : Members → Heap → Bool → Built

-- onRead: after a completed read, and from the constructor, the next read begins if the socket is
-- open.
unfoldable pub read_again : Bool → Bool
read_again is_open = is_open

-- Behind the first buffer, then behind both: these are local variables, whose names hide those of
-- the members.
abbrev pub with_outbuffer : Bool → ℕ → Heap → Option (ℕ × Heap) → Built
with_outbuffer is_open buffsize heap none = no_memory heap
with_outbuffer is_open buffsize heap (some (outbuffer, heap')) =
    built
      (record {
        buffsize = buffsize;
        instate = free;
        outstate = free;
        inbuffer = none;
        outbuffer = none;
      })
      heap' (read_again is_open)

abbrev pub with_inbuffer : (Heap → ℕ → Bool) → Bool → ℕ → Heap → Option (ℕ × Heap) → Built
with_inbuffer memory is_open buffsize heap none = no_memory heap
with_inbuffer memory is_open buffsize heap (some (inbuffer, heap')) =
    with_outbuffer is_open buffsize heap' (new_chars memory buffsize heap')

-- TCP_Protocol::TCP_Protocol
unfoldable pub new_protocol : (Heap → ℕ → Bool) → Bool → ℕ → Heap → Built
new_protocol memory is_open buffsize heap =
    if accepts_buffsize buffsize
    then with_inbuffer memory is_open buffsize heap (new_chars memory buffsize heap)
    else invalid_size heap

-- TCP_Protocol::~TCP_Protocol
unfoldable pub destroy_protocol : Members → Heap → Option Heap
destroy_protocol p heap = do left ← delete_chars p.inbuffer heap; delete_chars p.outbuffer left

-- The protocol that TCP_Session::TCP_Session makes, with the default size of its buffers. The socket
-- was just made and is not open.
unfoldable pub new_session_protocol : (Heap → ℕ → Bool) → Heap → Built
new_session_protocol memory heap = new_protocol memory false 8192 heap

-- The reads of a session, from what its constructor began: a handler runs for one that is under way,
-- whatever becomes of the socket.
pub data Reading (begun : Bool) : Bool → Type 0 where
  constructed : Reading begun begun
  completed : (is_open : Bool) → Reading begun true → Reading begun (read_again is_open)
