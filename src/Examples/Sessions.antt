-- ===== src/Examples/Sessions.antt =====
-- Runs of backend/tcp.cpp and backend/tcp/session.cpp.
use libgscale.Prelude.{
  ◌⊎◌, Bool, ℕ, ◌≡◌, refl, true, false, none, some, Option, [], ◌∷◌, arith, ltb, any_of, keep_if,
}
use libgscale.Words.{Bytes}
use libgscale.Core.{Uuid, new_core, get_host_uuid}
use libgscale.Packet.{Packet}
use libgscale.MultiIndex.{ordered, IsUnique}
use libgscale.Tcp.Hosts.{same_host}
use libgscale.Tcp.Steps.{Reachable, built, step, worked, here, uuid_read}
use libgscale.Tcp.Binding.{bind_inside_ends}
use libgscale.Tcp.Reachable.{Reachable-HasOneRole}
use libgscale.GroupCore.{GroupCore}
use libgscale.GroupCore.Rows.{LocalNodeRow}
use libgscale.GroupCore.Nodes.{by_time, range_by_created}
use libgscale.Protocol.{payload, read_error}
use libgscale.Session.{
  Session, handle, close, synced, sync_range, sync_node_list, sync_loop, sync_round,
  enqueue_sync_node_list,
}
use libgscale.Session.Marked
use libgscale.Session.Marked.{waits, enqueue_sync_node_list_once}
use libgscale.Session.Sync.{next_node, announce, sync_node_list-next_node}
use libgscale.Tcp.{
  Attempt, bind_inside, Tcp, new_tcp, receiving, waiting, begin, uuid_read_finished,
  bind_or_connect,
}
use libgscale.Tcp.Worker.{worker}
use libgscale.Tcp.Peers.{one_end_closes, HasOneRole, attempt}
use libgscale.Examples.{sixteen, alice, bob, letter}

abbrev pub archive : Packet → Bytes
archive p = 8 ∷ 9 ∷ []

abbrev pub alone : LocalNodeRow
alone = record {
  id = 1;
  node = record { inode = alice; cbs = 5; io_service = 9 };
  time_connect = 100;
  time_disconnect = some 105;
  backendrefcount = 0;
}

abbrev pub there : LocalNodeRow
there = record {
  id = 2;
  node = record { inode = bob; cbs = 6; io_service = 9 };
  time_connect = 110;
  time_disconnect = none;
  backendrefcount = 0;
}

abbrev pub group : GroupCore
group = record {
  localnodes = there ∷ alone ∷ [];
  backends = [];
  sendqueue = [];
  connectcount = 2;
  gname = 103 ∷ [];
  queue = [];
  stopped = false;
  group = 1;
}

abbrev pub session : Session
session = record {
  remotehostuuid = sixteen;
  is_syncnode_enqueued = false;
  is_open = true;
  remote_endpoint = 3;
  local_endpoint = 4;
  onclose = none;
  nodesyncctime = none;
  syncpacket = letter;
  proto = record {
    buffsize = 64;
    outstate = payload;
    writeoffset = 0;
    alreadysent = 0;
    outbuffer = [];
  };
  dispatched = [];
}

abbrev other_end : Session
other_end = record session { remote_endpoint = 4; local_endpoint = 3 }

sync_node_list-next_node_example :
    sync_node_list archive 3 group session
    ≡ announce archive session (next_node none (by_time group))
unfolding ordered
sync_node_list-next_node_example = sync_node_list-next_node archive 3 group session (omega arith)

abbrev late : Session
late = record session { nodesyncctime = some 110 }

-- The session is marked, and the other end goes.
abbrev stuck : Session
stuck = record late { is_syncnode_enqueued = true }

enqueue_sync_node_list_once_example :
    (waits (handle (read_error 1) stuck) ≡ false)
    × ((handle (read_error 1) stuck).is_syncnode_enqueued ≡ true)
    × ((inside : Bool) (fuel : ℕ) (d : GroupCore)
        → enqueue_sync_node_list archive inside fuel d (handle (read_error 1) stuck)
          ≡ synced (handle (read_error 1) stuck) none)
unfolding enqueue_sync_node_list sync_node_list sync_loop sync_round sync_range ordered
    range_by_created keep_if any_of
enqueue_sync_node_list_once_example =
    enqueue_sync_node_list_once archive 3 group late stuck none refl refl
      (Marked.handled (read_error 1) Marked.now)

abbrev pub tcp : Tcp
tcp = record {
  groupc = none;
  gdao = none;
  sessions = [];
  acceptor_v4 = false;
  acceptor_v6 = false;
  local_v4 = none;
  listen_port = 8000;
  multicast_port = 8000;
  initialized = false;
  started = [];
}

ltb_asym : (a b : ℕ) → ltb a b ≡ true → ltb b a ≡ false
ltb_asym a b h = ground arith

one_end_closes_example :
    (uuid_read_finished ltb archive 0 16 3 group session tcp ≡ (tcp, synced (close session) none))
    ⊎ (uuid_read_finished ltb archive 0 16 3 group other_end tcp
        ≡ (tcp, synced (close other_end) none))
one_end_closes_example =
    one_end_closes ltb archive archive 0 16 3 0 16 3 group group session other_end tcp tcp ltb_asym
      refl refl

abbrev parse : Bytes → Option (Uuid × ℕ)
parse b = some (get_host_uuid new_core, 8000)

-- A process that accepts, before and after it keeps a session.
abbrev accepting_process : Tcp
accepting_process =
    begin (waiting ∷ [])
      (record (bind_or_connect new_core (attempt true true none)
        (begin (receiving false ∷ receiving true ∷ []) new_tcp)) { initialized = true })

abbrev keeping_process : Tcp
keeping_process = (uuid_read_finished ltb archive 0 16 3 group session accepting_process).0

accepting_process-Reachable : Reachable accepting_process
unfolding worker new_tcp
accepting_process-Reachable =
    worked new_core true true (attempt true true none) (λ t. t) built refl here

keeping_process-Reachable : Reachable keeping_process
keeping_process-Reachable =
    step accepting_process-Reachable (uuid_read ltb archive 0 16 3 group session)

Reachable-HasOneRole_example :
    HasOneRole keeping_process × IsUnique same_host keeping_process.sessions
Reachable-HasOneRole_example = Reachable-HasOneRole keeping_process-Reachable

-- Version 6 is never bound, or from the third attempt on.
abbrev never : ℕ → Attempt
never n = attempt true false none

abbrev third : ℕ → Attempt
third n = attempt true (ltb 1 n) none

bind_inside_ends_example :
    (bind_inside new_core never 9 0 tcp ≡ none)
    × ((u : Tcp) × (bind_inside new_core third 3 0 tcp ≡ some u))
bind_inside_ends_example =
    bind_inside_ends new_core never third tcp tcp 9 2 (λ n. refl) (λ n. refl) refl refl refl refl
