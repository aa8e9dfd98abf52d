-- ===== src/Tcp.antt =====
-- backend/tcp.cpp and tcp.hpp: the back end that connects hosts. What a call starts on the service
-- is a list of operations; their completions are the handlers below. The endpoints of sockets are
-- numbers, their order a parameter, and so are the archive and the outcome of bind and connect.
pub mod Peers
pub mod Hosts
pub mod Steps
pub mod Handlers
pub mod Attempts
pub mod Reachable
pub mod Binding
pub mod Worker
pub mod OneHost
pub mod Lasting
pub mod Network
pub mod Ordinary
pub mod Same
pub mod Strangers
pub mod Roles
pub mod Machine
pub mod Balance
pub mod Outstanding
use libgscale.Prelude.{
  ℕ, zero, suc, ◌+◌, ◌-◌, Bool, true, false, not, ◌&&◌, Option, none, some, List, [], ◌∷◌, ◌++◌,
  map, length, ltb, ◌==◌, if◌then◌else◌, bytes_eq, any_of, take,
}
use libgscale.Words.{Bytes}
use libgscale.Core.{Uuid, Core, get_host_uuid}
use libgscale.Packet.{Packet}
use libgscale.GroupCore.{GroupCore}
use libgscale.Session.{
  Session, close, Synced, synced, threw, undefined, running, enqueue_sync_node_list, start,
}

-- An operation that was started: the exchange of uuids on a session, an accept, a connect to an
-- address and port, a receive, a send to a multicast group, a wait, or bind_or_connect again. The
-- flag says version 6.
pub data Started : Type 0 where
  writing_uuid : Uuid → Session → Started
  reading_uuid : Session → Started
  accepting receiving : Bool → Started
  connecting : ℕ → ℕ → Started
  sending : Bool → Uuid → ℕ → Started
  waiting binding : Started

pub record Tcp : Type 0 where
  pub groupc : Option ℕ
  pub gdao : Option ℕ
  pub sessions : List Session
  -- Whether the pointers `acceptor_v4` and `acceptor_v6` are set.
  pub acceptor_v4 : Bool
  pub acceptor_v6 : Bool
  pub local_v4 : Option Session
  pub listen_port : ℕ
  pub multicast_port : ℕ
  pub initialized : Bool
  pub started : List Started

-- TCP::TCP
unfoldable pub new_tcp : Tcp
new_tcp = record {
  groupc = none;
  gdao = none;
  sessions = [];
  acceptor_v4 = false;
  acceptor_v6 = false;
  local_v4 = none;
  listen_port = 8000;
  multicast_port = 8000;
  initialized = false;
  started = [];
}

-- TCP::initialize
unfoldable pub initialize : ℕ → ℕ → Tcp → Tcp
initialize groupc gdao t = record t { groupc = some groupc; gdao = some gdao }

abbrev pub begin : List Started → Tcp → Tcp
begin ops t = record t { started = t.started ++ ops }

-- The session object after a call on it.
abbrev pub session_of : Session → Synced → Session
session_of s (synced s' bytes) = s'
session_of s (threw s') = s'
session_of s undefined = s
session_of s running = s

-- TCP::uuid_write_finished; `error` is 0 for success.
unfoldable pub uuid_write_finished : ℕ → ℕ → Session → Session
uuid_write_finished error bytes s = if error == 0 && bytes == 16 then s else close s

abbrev pub has_host : Uuid → Session → Bool
has_host uuid s = bytes_eq s.remotehostuuid uuid

-- TCP::OnLocalNodeAvailable: every session is asked for a sync, outside of the service.
unfoldable pub on_local_node_available : (Packet → Bytes) → GroupCore → Tcp → Tcp
on_local_node_available archive c t = record t {
  sessions = map (λ s. session_of s (enqueue_sync_node_list archive false 0 c s)) t.sessions;
}

-- The session stands in the table while `start` runs on it.
abbrev pub keep_session : Session → Synced → Tcp → Tcp × Synced
keep_session s r t = (record t { sessions = t.sessions ++ session_of s r ∷ [] }, r)

-- The test of uuid_read_finished, with the order of endpoints.
unfoldable pub accepts : (ℕ → ℕ → Bool) → ℕ → ℕ → Session → Tcp → Bool
accepts lt error bytes s t =
    error == 0
    && bytes == 16
    && not (any_of (has_host s.remotehostuuid) t.sessions)
    && lt s.remote_endpoint s.local_endpoint

-- TCP::uuid_read_finished, with the session's uuid as it was read. A handler runs inside the
-- service, and so does `start`. The result is the back end and what the call came to.
unfoldable pub uuid_read_finished :
    (ℕ → ℕ → Bool) → (Packet → Bytes) → ℕ → ℕ → ℕ → GroupCore → Session → Tcp → Tcp × Synced
uuid_read_finished lt archive error bytes fuel c s t =
    if accepts lt error bytes s t
    then keep_session s (start archive true fuel c s) t
    else (t, synced (close s) none)

-- TCP::start_accept; the session that it makes is the one that the accept will fill.
unfoldable pub start_accept : Bool → Tcp → Tcp
start_accept v6 t = begin (accepting v6 ∷ []) t

abbrev pub accept_again : Option Bool → Tcp → Tcp
accept_again none t = t
accept_again (some v6) t = start_accept v6 t

-- TCP::handle_socket_init; the acceptor is `none` for a connection that this side made.
unfoldable pub handle_socket_init : Core → Option Bool → Session → ℕ → Tcp → Tcp
handle_socket_init core acceptor s error t =
    accept_again acceptor (
      if error == 0 then begin (writing_uuid (get_host_uuid core) s ∷ reading_uuid s ∷ []) t else t)

-- Connect to the sender of a multicast packet unless it is this host or has a session.
unfoldable pub answer : Core → ℕ → Uuid × ℕ → Tcp → Tcp
answer core sender (hostuuid, ip_port) t =
    if not (bytes_eq (get_host_uuid core) hostuuid) && not (any_of (has_host hostuuid) t.sessions)
    then begin (connecting sender ip_port ∷ []) t
    else t

-- TCP::handle_receive_from; `parse` reads a MulticastPacket and `sender` is the sender's address.
-- `none` is an exception of the archive, which leaves no receive behind.
unfoldable pub handle_receive_from :
    (Bytes → Option (Uuid × ℕ)) → Core → Bytes → ℕ → ℕ → ℕ → Bool → Tcp → Option Tcp
handle_receive_from parse core buffer sender error bytes v6 t =
    if error == 0 && ltb 0 bytes
    then elim (parse (take bytes buffer)) [
      | none ↦ none
      | some packet ↦ some (begin (receiving v6 ∷ []) (answer core sender packet t))
    ]
    else some (begin (receiving v6 ∷ []) t)

-- TCP::multicastHeartbeat; `none` is a read through an acceptor that is NULL. The ports are those
-- of the acceptors' endpoints.
unfoldable pub multicast_heartbeat : Core → ℕ → ℕ → Tcp → Option Tcp
multicast_heartbeat core port_v4 port_v6 t =
    if t.acceptor_v4 && t.acceptor_v6
    then some (
        begin
          (sending false (get_host_uuid core) port_v4
            ∷ sending true (get_host_uuid core) port_v6
            ∷ waiting
            ∷ [])
          t)
    else none

-- The first part of TCP::bind_or_connect, and whether it is to run again: `bound` says whether the
-- version 4 acceptor could be made, and `made` is the connected session, `none` if that failed.
unfoldable pub first_role : Core → Bool → Option Session → Tcp → Tcp × Bool
first_role core bound made t =
    if not t.acceptor_v4 && elim t.local_v4 [ none ↦ true | some s ↦ false ]
    then if bound
      then (start_accept false (record t { acceptor_v4 = true }), false)
      else elim made [
        | none ↦ (t, true)
        | some s ↦
            let s' : Session = record s { onclose = some 0 } in
            (handle_socket_init core none s' 0 (record t { local_v4 = some s' }), false)
      ]
    else (t, false)

-- The second part.
unfoldable pub second_role : Bool → Tcp × Bool → Tcp × Bool
second_role bound (t, again) =
    if t.acceptor_v4 && not t.acceptor_v6
    then if bound then (start_accept true (record t { acceptor_v6 = true }), again) else (t, true)
    else (t, again)

-- The outcome of an attempt: whether each acceptor could be made, and the connected session.
pub record Attempt : Type 0 where
  pub bound_v4 : Bool
  pub bound_v6 : Bool
  pub made : Option Session

-- Both parts, and whether the call is to be made again.
abbrev pub bind_round : Core → Attempt → Tcp → Tcp × Bool
bind_round core a t = second_role a.bound_v6 (first_role core a.bound_v4 a.made t)

abbrev pub bind_again : Tcp × Bool → Tcp
bind_again (t, again) = if again then begin (binding ∷ []) t else t

-- TCP::bind_or_connect outside of the service, which then holds the call to be made again.
unfoldable pub bind_or_connect : Core → Attempt → Tcp → Tcp
bind_or_connect core a t = bind_again (bind_round core a t)

abbrev pub unless_again : (Tcp → Option Tcp) → Tcp × Bool → Option Tcp
unless_again rest (t, again) = if again then rest t else some t

-- TCP::bind_or_connect in a handler of the service, where io_service::dispatch makes the call again
-- before it returns; on fuel, with the outcome of each attempt from the `n`th on. `none` is out of
-- fuel.
unfoldable pub bind_inside : Core → (ℕ → Attempt) → ℕ → ℕ → Tcp → Option Tcp
bind_inside core attempt zero n t = none
bind_inside core attempt (suc fuel) n t =
    unless_again (bind_inside core attempt fuel (n + 1)) (bind_round core (attempt n) t)

-- TCP::on_local_close, which is a handler.
unfoldable pub on_local_close : Core → (ℕ → Attempt) → ℕ → Tcp → Option Tcp
on_local_close core attempt fuel t = bind_inside core attempt fuel 0 (record t { local_v4 = none })
