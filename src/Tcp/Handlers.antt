-- ===== src/Tcp/Handlers.antt =====
-- tcp.cpp: each handler that only starts operations or makes a role keeps the state sound.
use libgscale.Prelude.{
  ℕ, ◌≡◌, inl, inr, Bool, true, false, Bool-cases, Option, none, some, [], ◌∷◌, List, arith, ◌==◌,
  ◌&&◌, if◌then◌else◌,
}
use libgscale.Words.{Bytes}
use libgscale.Core.{Uuid, Core, get_host_uuid}
use libgscale.MultiIndex.{IsUnique}
use libgscale.Session.{Session}
use libgscale.Tcp.{
  Tcp, begin, sending, waiting, Started, handle_socket_init, handle_receive_from,
  multicast_heartbeat, bind_or_connect, start_accept, answer, Attempt, bind_round, bind_inside,
  binding, accepting, first_role, second_role,
}
use libgscale.Tcp.Peers.{HasOneRole, bind_round-HasOneRole}
use libgscale.Tcp.Hosts.{same_host}
use libgscale.Tcp.Attempts.{bind_inside-keeps}

pub record IsSound (t : Tcp) : Type 0 where
  pub role : HasOneRole t
  pub hosts : IsUnique same_host t.sessions

-- What a call does to `started` does not matter.
pub begin-IsSound : (ops : List Started) (t : Tcp) → IsSound t → IsSound (begin ops t)
begin-IsSound ops t v = record { role = v.role; hosts = v.hosts }

either-IsSound : (b : Bool) (t u : Tcp) → IsSound t → IsSound u → IsSound (if b then t else u)
either-IsSound true t u v w = v
either-IsSound false t u v w = w

pub socket_init-IsSound :
    (core : Core) (acceptor : Option Bool) (s : Session) (error : ℕ) (t : Tcp)
    → IsSound t
    → IsSound (handle_socket_init core acceptor s error t)
unfolding handle_socket_init start_accept
socket_init-IsSound core none s error t v = elim (Bool-cases (error == 0)) [
  | inl e ↦ rw e (begin-IsSound _ t v)
  | inr e ↦ rw e v
]
socket_init-IsSound core (some v6) s error t v = elim (Bool-cases (error == 0)) [
  | inl e ↦ rw e (begin-IsSound (accepting v6 ∷ []) _ (begin-IsSound _ t v))
  | inr e ↦ rw e (begin-IsSound _ t v)
]

-- A receive and a heartbeat that end only start operations.
pub received-begin :
    (parse : Bytes → Option (Uuid × ℕ)) (core : Core) (buffer : Bytes) (sender error bytes : ℕ)
    (v6 : Bool) (t u : Tcp)
    → handle_receive_from parse core buffer sender error bytes v6 t ≡ some u
    → u ≡ record t { started = u.started }
unfolding handle_receive_from answer
received-begin parse core buffer sender error bytes v6 t u e = ground arith

pub heartbeat-begin :
    (core : Core) (port_v4 port_v6 : ℕ) (t u : Tcp)
    → multicast_heartbeat core port_v4 port_v6 t ≡ some u
    → u ≡ record t { started = u.started }
unfolding multicast_heartbeat
heartbeat-begin core port_v4 port_v6 t u e = ground arith

-- A heartbeat that ends had both acceptors, and started these.
abbrev pub heartbeat_ops : Core → ℕ → ℕ → List Started
heartbeat_ops core port_v4 port_v6 =
    sending false (get_host_uuid core) port_v4
    ∷ sending true (get_host_uuid core) port_v6
    ∷ waiting
    ∷ []

pub heartbeat_begins :
    (core : Core) (port_v4 port_v6 : ℕ) (t u : Tcp)
    → multicast_heartbeat core port_v4 port_v6 t ≡ some u
    → begin (heartbeat_ops core port_v4 port_v6) t ≡ u
unfolding multicast_heartbeat
heartbeat_begins core port_v4 port_v6 t u e = elim (Bool-cases (t.acceptor_v4 && t.acceptor_v6)) [
  | inl k ↦
      let ended : some (begin (heartbeat_ops core port_v4 port_v6) t) ≡ some u = rw k at e in cc
  | inr k ↦ let stuck : none ≡ some u = rw k at e in absurd cc
]

-- An attempt leaves the sessions alone.
pub bind_round-sessions :
    (core : Core) (a : Attempt) (t : Tcp) → (bind_round core a t).0.sessions ≡ t.sessions
unfolding first_role second_role handle_socket_init start_accept
bind_round-sessions core a t = ground arith

bind_round-IsSound :
    (core : Core) (a : Attempt) (t : Tcp) → IsSound t → IsSound (bind_round core a t).0
bind_round-IsSound core a t v = record {
  role = bind_round-HasOneRole core a t v.role;
  hosts = rw (bind_round-sessions core a t) v.hosts;
}

pub bind_or_connect-IsSound :
    (core : Core) (a : Attempt) (t : Tcp) → IsSound t → IsSound (bind_or_connect core a t)
unfolding bind_or_connect
bind_or_connect-IsSound core a t v =
    let u = bind_round core a t in
    let w = bind_round-IsSound core a t v in
    either-IsSound u.1 _ _ (begin-IsSound (binding ∷ []) u.0 w) w

pub bind_inside-IsSound :
    (core : Core) (attempt : ℕ → Attempt) (fuel n : ℕ) (t u : Tcp)
    → bind_inside core attempt fuel n t ≡ some u
    → IsSound t
    → IsSound u
bind_inside-IsSound core attempt fuel n t u e v =
    bind_inside-keeps IsSound core (bind_round-IsSound core) attempt fuel n t u e v
