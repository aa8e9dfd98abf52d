-- ===== src/Session.antt =====
-- backend/tcp/session.cpp and session.hpp: one connection to another host. The socket is what the
-- code asks of it: whether it is open, and its two endpoints. The archive is a parameter.
pub mod Sync
pub mod Marked
pub mod Life
pub mod Once
use libgscale.Prelude.{
  ℕ, zero, suc, Bool, true, false, Option, none, some, List, [], ◌∷◌, ◌++◌, if◌then◌else◌, ◌==◌,
}
use libgscale.Words.{Bytes}
use libgscale.Core.{Uuid}
use libgscale.Node.{nil_node}
use libgscale.Packet.{Packet, new_packet, set_type, nodeavail}
use libgscale.Protocol.{Event, read_error, send_error, on_read, send_finished}
use libgscale.Protocol.Sender.{Out, Sent, faulted, sent, send}
use libgscale.GroupCore.{GroupCore}
use libgscale.GroupCore.Rows.{LocalNodeRow}
use libgscale.GroupCore.Nodes.{range_by_created}

-- What a session gives its service: the close function, by name, or syncNodeList.
pub data Handler : Type 0 where
  closed : ℕ → Handler
  sync_nodes : Handler

-- `dispatched` is what the session gave its service, in order.
pub record Session : Type 0 where
  pub remotehostuuid : Uuid
  pub is_syncnode_enqueued : Bool
  pub is_open : Bool
  pub remote_endpoint : ℕ
  pub local_endpoint : ℕ
  pub onclose : Option ℕ
  pub nodesyncctime : Option ℕ
  pub syncpacket : Packet
  pub proto : Out
  pub dispatched : List Handler

abbrev pub closing : Option ℕ → List Handler
closing none = []
closing (some f) = closed f ∷ []

-- TCP_Session::close
unfoldable pub close : Session → Session
close s =
    if s.is_open
    then record s {
      is_open = false;
      dispatched = s.dispatched ++ closing s.onclose;
      onclose = none;
    }
    else s

-- TCP_Session::onReadError, onSendError, onRead and sendFinished.
unfoldable pub handle : Event → Session → Session
handle (read_error e) s = close s
handle (send_error p e) s = close s
handle (on_read p) s = s
handle (send_finished p) s = s

abbrev pub handle_all : List Event → Session → Session
handle_all [] s = s
handle_all (e ∷ es) s = handle_all es (handle e s)

-- How syncNodeList ends: with the session and what was given to async_write, in undefined
-- behaviour, by the exception of `send`, or not within the fuel.
pub data Synced : Type 0 where
  synced : Session → Option Bytes → Synced
  threw : Session → Synced
  undefined running : Synced

-- The rows from `range.first` on.
abbrev pub skip_last : ℕ → List LocalNodeRow → List LocalNodeRow
skip_last t [] = []
skip_last t (r ∷ rs) = if r.time_connect == t then rs else r ∷ rs

unfoldable pub sync_range : GroupCore → Option ℕ → List LocalNodeRow
sync_range c none = range_by_created none none c
sync_range c (some t) = skip_last t (range_by_created (some t) none c)

abbrev pub after_send : Session → ℕ → Option Sent → Synced
after_send s time none = threw s
after_send s time (some faulted) = undefined
after_send s time (some (sent o events bytes)) =
    synced (record (handle_all events (record s { proto = o })) { nodesyncctime = some time }) bytes

module _ (archive : Packet → Bytes) where
  -- The branch for a node without a disconnect time, and the assignment behind it.
  unfoldable pub sync_send : LocalNodeRow → Session → Synced
  sync_send r s =
      let p = (set_type (new_packet r.node.inode nil_node) nodeavail).0 in
      after_send (record s { syncpacket = p }) r.time_connect (send (archive p) p s.is_open s.proto)

  -- A round of the loop of syncNodeList over the rows from `range.first` on; `again` is the next.
  unfoldable pub sync_round : (Session → Synced) → Session → List LocalNodeRow → Synced
  sync_round again s [] = synced s none
  sync_round again s (r ∷ rs) = elim r.time_disconnect [
    | none ↦ sync_send r s
    | some t ↦ again (record s { nodesyncctime = some r.time_connect })
  ]

  -- The loop of syncNodeList, on fuel.
  unfoldable pub sync_loop : ℕ → GroupCore → Session → Synced
  sync_loop zero c s = running
  sync_loop (suc fuel) c s = sync_round (sync_loop fuel c) s (sync_range c s.nodesyncctime)

  -- TCP_Session::syncNodeList
  unfoldable pub sync_node_list : ℕ → GroupCore → Session → Synced
  sync_node_list fuel c s = sync_loop fuel c (record s { is_syncnode_enqueued = false })

  abbrev pub mark_enqueued : Synced → Synced
  mark_enqueued (synced s bytes) = synced (record s { is_syncnode_enqueued = true }) bytes
  mark_enqueued r = r

  -- TCP_Session::enqueueSyncNodeList. `inside` says that the caller runs in a handler of the
  -- service: io_service::dispatch then calls the function before it returns.
  unfoldable pub enqueue_sync_node_list : Bool → ℕ → GroupCore → Session → Synced
  enqueue_sync_node_list inside fuel c s =
      if s.is_syncnode_enqueued
      then synced s none
      else if inside
      then mark_enqueued (sync_node_list fuel c s)
      else synced
          (record s { dispatched = s.dispatched ++ sync_nodes ∷ []; is_syncnode_enqueued = true })
          none

  -- TCP_Session::start
  unfoldable pub start : Bool → ℕ → GroupCore → Session → Synced
  unfolding enqueue_sync_node_list
  start inside fuel c s = enqueue_sync_node_list inside fuel c s
