-- ===== src/Tcp/Same.antt =====
-- tcp.cpp with core.cpp: sessions to hosts that all have one uuid.
use libgscale.Prelude.{
  ℕ, ◌≡◌, refl, sym, ◌∙◌, subst, inl, inr, Bool, true, false, Bool-cases, Option, none, some, List,
  [], ◌∷◌, map, arith, All,
}
use libgscale.Core.{Core, new_core, get_host_uuid}
use libgscale.MultiIndex.{update_first, All-update_first}
use libgscale.Session.{Session, handle, sync_node_list, enqueue_sync_node_list}
use libgscale.Tcp.{
  Tcp, receiving, begin, session_of, accepts, initialize, on_local_node_available,
  uuid_read_finished, handle_socket_init, start_accept, on_local_close, Attempt, bind_round,
  bind_inside, bind_or_connect,
}
use libgscale.Tcp.Hosts.{handle_all_host}
use libgscale.Tcp.Handlers.{received-begin, heartbeat-begin, bind_round-sessions}
use libgscale.Tcp.Worker.{worker, start_worker, open_sockets}
use libgscale.Tcp.Steps.{
  Step, initialized, available, uuid_read, socket_init, received, heartbeat, bound, local_closed,
  handled, sync_nodes,
}
use libgscale.Tcp.Attempts.{bind_inside-keeps, left_by, chosen}
use libgscale.Tcp.Reachable.{enqueue_host, sync_host}
use libgscale.Tcp.Network.{IsOwn}

-- A session to a host with the uuid that every process has.
abbrev pub IsSame : Session → Type 0
IsSame s = s.remotehostuuid ≡ get_host_uuid new_core

abbrev pub AreSame : List Session → Type 0
AreSame = All IsSame

map-AreSame :
    (f : Session → Session)
    → ((s : Session) → (f s).remotehostuuid ≡ s.remotehostuuid)
    → (ss : List Session) → AreSame ss
    → AreSame (map f ss)
map-AreSame f keeps [] h = tt
map-AreSame f keeps (s ∷ ss) h = (keeps s ∙ h.0, map-AreSame f keeps ss h.1)

update_first-AreSame :
    (which : Session → Bool) (f : Session → Session)
    → ((s : Session) → (f s).remotehostuuid ≡ s.remotehostuuid)
    → (ss : List Session) → AreSame ss
    → AreSame (update_first which f ss)
update_first-AreSame which f keeps ss h = All-update_first IsSame which f ss (λ s e. keeps s ∙ e) h

inside-sessions :
    (core : Core) (attempt : ℕ → Attempt) (fuel n : ℕ) (t u : Tcp)
    → bind_inside core attempt fuel n t ≡ some u
    → u.sessions ≡ t.sessions
inside-sessions core attempt fuel n t u e =
    bind_inside-keeps (λ x. x.sessions ≡ t.sessions) core
      (λ a x h. bind_round-sessions core a x ∙ h) attempt fuel n t u e refl

socket_init-sessions :
    (core : Core) (acceptor : Option Bool) (s : Session) (error : ℕ) (t : Tcp)
    → (handle_socket_init core acceptor s error t).sessions ≡ t.sessions
unfolding handle_socket_init start_accept
socket_init-sessions core none s error t = ground arith
socket_init-sessions core (some v6) s error t = ground arith

-- A step of a host's own makes no session to another uuid.
pub Step-AreSame : {t u : Tcp} (s : Step t u) → IsOwn s → AreSame t.sessions → AreSame u.sessions
unfolding initialize on_local_node_available uuid_read_finished accepts on_local_close
Step-AreSame (initialized groupc gdao) alone h = h
Step-AreSame {t} (available archive c) alone h =
    map-AreSame (λ s. session_of s (enqueue_sync_node_list archive false 0 c s))
      (enqueue_host archive c) t.sessions h
Step-AreSame {t} (uuid_read lt archive error bytes fuel c s) alone h =
    let refused : accepts lt error bytes s t ≡ false = ground arith in rw refused h
Step-AreSame {t} (socket_init core acceptor s error) alone h =
    rw (socket_init-sessions core acceptor s error t) h
Step-AreSame {t} (received parse core buffer sender error bytes v6 u e) alone h =
    subst (λ (x : Tcp). AreSame x.sessions)
      (sym (received-begin parse core buffer sender error bytes v6 t u e)) h
Step-AreSame {t} (heartbeat core port_v4 port_v6 u e) alone h =
    subst (λ (x : Tcp). AreSame x.sessions) (sym (heartbeat-begin core port_v4 port_v6 t u e)) h
Step-AreSame {t} (bound core attempt fuel n u e) alone h =
    rw (inside-sessions core attempt fuel n t u e) h
Step-AreSame {t} (local_closed core attempt fuel u e) alone h =
    rw (inside-sessions core attempt fuel 0 (record t { local_v4 = none }) u e) h
Step-AreSame {t} (handled which e) alone h =
    update_first-AreSame which (handle e) (handle_all_host (e ∷ [])) t.sessions h
Step-AreSame {t} (sync_nodes which archive fuel c) alone h =
    update_first-AreSame which (λ s. session_of s (sync_node_list archive fuel c s))
      (sync_host archive fuel c) t.sessions h

-- Nor does a round of Worker, up to its `poll` or the exception of a socket.
connect-sessions :
    (core : Core) (a : Attempt) (t : Tcp) → (bind_or_connect core a t).sessions ≡ t.sessions
unfolding bind_or_connect
connect-sessions core a t =
    let kept = bind_round-sessions core a t in
    elim (Bool-cases (bind_round core a t).1) [ inl e ↦ rw e kept | inr e ↦ rw e kept ]

started-AreSame :
    (opened_v4 opened_v6 : Bool) (a : Attempt) (t : Tcp)
    → AreSame t.sessions
    → AreSame
        (left_by (start_worker new_core a (λ v. v) (open_sockets opened_v4 opened_v6 t))).sessions
started-AreSame false opened_v6 a t h = h
started-AreSame true false a t h = h
started-AreSame true true a t h =
    rw (connect-sessions new_core a (begin (receiving false ∷ receiving true ∷ []) t)) h

pub worker-AreSame :
    (opened_v4 opened_v6 : Bool) (a : Attempt) (t : Tcp)
    → AreSame t.sessions
    → AreSame (left_by (worker new_core opened_v4 opened_v6 a (λ v. v) t)).sessions
unfolding worker
worker-AreSame opened_v4 opened_v6 a t h =
    chosen (λ x. AreSame x.sessions) t.initialized t _ h (started-AreSame opened_v4 opened_v6 a t h)
