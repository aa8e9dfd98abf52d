-- ===== src/Tcp/Steps.antt =====
-- tcp.cpp: the states that a back end reaches by the calls of its group, by its own handlers and by
-- those of its sessions. A handler that ends returned; the exceptions of Worker's sockets are steps.
use libgscale.Prelude.{ℕ, ◌≡◌, Bool, Option, some}
use libgscale.Words.{Bytes}
use libgscale.Core.{Uuid, Core}
use libgscale.Packet.{Packet}
use libgscale.GroupCore.{GroupCore}
use libgscale.Protocol.{Event}
use libgscale.MultiIndex.{update_first}
use libgscale.Session.{Session, handle, sync_node_list}
use libgscale.Tcp.{
  Tcp, session_of, new_tcp, initialize, on_local_node_available, uuid_read_finished,
  handle_socket_init, handle_receive_from, multicast_heartbeat, on_local_close, Attempt,
  bind_inside,
}
use libgscale.Tcp.Worker.{worker, polled, failed}

-- A call of the back end, or a handler of it or of one of its sessions.
pub data Step (t : Tcp) : Tcp → Type 0 where
  initialized : (groupc gdao : ℕ) → Step t (initialize groupc gdao t)
  available :
      (archive : Packet → Bytes) (c : GroupCore) → Step t (on_local_node_available archive c t)
  uuid_read :
      (lt : ℕ → ℕ → Bool) (archive : Packet → Bytes) (error bytes fuel : ℕ) (c : GroupCore)
      (s : Session)
      → Step t (uuid_read_finished lt archive error bytes fuel c s t).0
  socket_init :
      (core : Core) (acceptor : Option Bool) (s : Session) (error : ℕ)
      → Step t (handle_socket_init core acceptor s error t)
  received :
      (parse : Bytes → Option (Uuid × ℕ)) (core : Core) (buffer : Bytes) (sender error bytes : ℕ)
      (v6 : Bool) (u : Tcp)
      → handle_receive_from parse core buffer sender error bytes v6 t ≡ some u
      → Step t u
  heartbeat :
      (core : Core) (port_v4 port_v6 : ℕ) (u : Tcp)
      → multicast_heartbeat core port_v4 port_v6 t ≡ some u
      → Step t u
  bound :
      (core : Core) (attempt : ℕ → Attempt) (fuel n : ℕ) (u : Tcp)
      → bind_inside core attempt fuel n t ≡ some u
      → Step t u
  local_closed :
      (core : Core) (attempt : ℕ → Attempt) (fuel : ℕ) (u : Tcp)
      → on_local_close core attempt fuel t ≡ some u
      → Step t u
  handled :
      (which : Session → Bool) (e : Event)
      → Step t (record t { sessions = update_first which (handle e) t.sessions })
  sync_nodes :
      (which : Session → Bool) (archive : Packet → Bytes) (fuel : ℕ) (c : GroupCore)
      → Step t (record t {
        sessions =
            update_first which (λ s. session_of s (sync_node_list archive fuel c s)) t.sessions;
      })

pub data Steps (t : Tcp) : Tcp → Type 0 where
  here : Steps t t
  next : {u v : Tcp} → Steps t u → Step u v → Steps t v

-- What the constructor and then steps and calls of Worker reach, in which `poll` makes steps.
pub data Reachable : Tcp → Type 0 where
  built : Reachable new_tcp
  step : {t u : Tcp} → Reachable t → Step t u → Reachable u
  worked :
      {t u : Tcp} (core : Core) (opened_v4 opened_v6 : Bool) (a : Attempt) (poll : Tcp → Tcp)
      → Reachable t
      → worker core opened_v4 opened_v6 a (λ v. v) t ≡ polled u
      → Steps u (poll u)
      → Reachable (poll u)
  not_opened :
      {t u : Tcp} (core : Core) (opened_v4 opened_v6 : Bool) (a : Attempt) (poll : Tcp → Tcp)
      → Reachable t
      → worker core opened_v4 opened_v6 a poll t ≡ failed u
      → Reachable u
