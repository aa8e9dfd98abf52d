-- ===== src/Tcp/Ordinary.antt =====
-- tcp.cpp with core.cpp: what a host starts of its own, where all hosts have one uuid.
use libgscale.Prelude.{
  ℕ, ◌≡◌, ◌≢◌, refl, subst, ◌⊎◌, inl, inr, Bool, true, false, Bool-cases, Option, none, some, List,
  [], ◌∷◌, arith, All, All-append, ◌==◌, ◌&&◌, ltb,
}
use libgscale.Words.{Bytes}
use libgscale.Core.{Uuid, Core, new_core, get_host_uuid}
use libgscale.Session.{Session}
use libgscale.Tcp.{
  Tcp, Started, writing_uuid, reading_uuid, accepting, receiving, connecting, sending, waiting,
  binding, begin, start_accept, handle_socket_init, handle_receive_from, multicast_heartbeat,
  uuid_read_finished, accepts, initialize, on_local_node_available, on_local_close, Attempt,
  first_role, second_role, bind_round, bind_inside, bind_or_connect,
}
use libgscale.Tcp.Handlers.{heartbeat_ops, heartbeat_begins}
use libgscale.Tcp.Peers.{with_role, attempt}
use libgscale.Tcp.Worker.{worker, start_worker, open_sockets}
use libgscale.Tcp.Steps.{
  Step, initialized, available, uuid_read, socket_init, received, heartbeat, bound, local_closed,
  handled, sync_nodes,
}
use libgscale.Tcp.Attempts.{bind_inside-keeps, left_by, chosen}
use libgscale.Tcp.Network.{IsOwn}

-- An operation that only tells that uuid, and is not a connect to the sender of a packet.
abbrev pub IsOrdinary : Started → Type 0
IsOrdinary (writing_uuid uuid s) = uuid ≡ get_host_uuid new_core
IsOrdinary (connecting address port) = ⊥
IsOrdinary (sending v6 uuid port) = uuid ≡ get_host_uuid new_core
IsOrdinary (reading_uuid s) = Unit {0}
IsOrdinary (accepting v6) = Unit {0}
IsOrdinary (receiving v6) = Unit {0}
IsOrdinary waiting = Unit {0}
IsOrdinary binding = Unit {0}

abbrev pub AreOrdinary : List Started → Type 0
AreOrdinary = All IsOrdinary

begin-AreOrdinary :
    (ops : List Started) (t : Tcp)
    → AreOrdinary ops
    → AreOrdinary t.started
    → AreOrdinary (begin ops t).started
begin-AreOrdinary ops t h k = All-append IsOrdinary t.started ops k h

-- The exchange of uuids on a session.
abbrev greeting : Session → List Started
greeting s = writing_uuid (get_host_uuid new_core) s ∷ reading_uuid s ∷ []

socket_init-AreOrdinary :
    (acceptor : Option Bool) (s : Session) (error : ℕ) (t : Tcp)
    → AreOrdinary t.started
    → AreOrdinary (handle_socket_init new_core acceptor s error t).started
unfolding handle_socket_init start_accept
socket_init-AreOrdinary none s error t h = elim (Bool-cases (error == 0)) [
  | inl e ↦ rw e (begin-AreOrdinary (greeting s) t (refl, (tt, tt)) h)
  | inr e ↦ rw e h
]
socket_init-AreOrdinary (some v6) s error t h = elim (Bool-cases (error == 0)) [
  | inl e ↦ rw e (
      begin-AreOrdinary (accepting v6 ∷ []) (begin (greeting s) t) (tt, tt)
        (begin-AreOrdinary (greeting s) t (refl, (tt, tt)) h))
  | inr e ↦ rw e (begin-AreOrdinary (accepting v6 ∷ []) t (tt, tt) h)
]

role-AreOrdinary :
    (b4 b6 : Bool) (made : Option Session) (v4 v6 : Bool) (s : Option Session) (t : Tcp)
    → AreOrdinary t.started
    → AreOrdinary (bind_round new_core (attempt b4 b6 made) (with_role v4 v6 s t)).0.started
unfolding first_role second_role handle_socket_init start_accept
role-AreOrdinary b4 b6 made true true s t h = h
role-AreOrdinary b4 true made true false s t h =
    begin-AreOrdinary (accepting true ∷ []) t (tt, tt) h
role-AreOrdinary b4 false made true false s t h = h
role-AreOrdinary b4 b6 made false v6 (some s) t h = h
role-AreOrdinary true true made false false none t h =
    begin-AreOrdinary (accepting true ∷ []) (begin (accepting false ∷ []) t) (tt, tt)
      (begin-AreOrdinary (accepting false ∷ []) t (tt, tt) h)
role-AreOrdinary true false made false false none t h =
    begin-AreOrdinary (accepting false ∷ []) t (tt, tt) h
role-AreOrdinary true b6 made false true none t h =
    begin-AreOrdinary (accepting false ∷ []) t (tt, tt) h
role-AreOrdinary false b6 none false v6 none t h = h
role-AreOrdinary false b6 (some s) false v6 none t h =
    begin-AreOrdinary (greeting (record s { onclose = some 0 })) t (refl, (tt, tt)) h

round-AreOrdinary :
    (a : Attempt) (t : Tcp)
    → AreOrdinary t.started
    → AreOrdinary (bind_round new_core a t).0.started
round-AreOrdinary a t h =
    role-AreOrdinary a.bound_v4 a.bound_v6 a.made t.acceptor_v4 t.acceptor_v6 t.local_v4 t h

inside-AreOrdinary :
    (attempt : ℕ → Attempt) (fuel n : ℕ) (t u : Tcp)
    → bind_inside new_core attempt fuel n t ≡ some u
    → AreOrdinary t.started
    → AreOrdinary u.started
inside-AreOrdinary attempt fuel n t u e h =
    bind_inside-keeps (λ x. AreOrdinary x.started) new_core round-AreOrdinary attempt fuel n t u e h

connect-AreOrdinary :
    (a : Attempt) (t : Tcp)
    → AreOrdinary t.started
    → AreOrdinary (bind_or_connect new_core a t).started
unfolding bind_or_connect
connect-AreOrdinary a t h =
    let again = bind_round new_core a t in
    let k : AreOrdinary again.0.started = round-AreOrdinary a t h in
    elim (Bool-cases again.1) [
      | inl f ↦ rw f (begin-AreOrdinary (binding ∷ []) again.0 (tt, tt) k)
      | inr f ↦ rw f k
    ]

-- A receive without a packet.
nothing-AreOrdinary :
    (parse : Bytes → Option (Uuid × ℕ)) (core : Core) (buffer : Bytes) (sender error bytes : ℕ)
    (v6 : Bool) (t u : Tcp)
    → (error ≢ 0) ⊎ (bytes ≡ 0)
    → handle_receive_from parse core buffer sender error bytes v6 t ≡ some u
    → AreOrdinary t.started
    → AreOrdinary u.started
unfolding handle_receive_from
nothing-AreOrdinary parse core buffer sender error bytes v6 t u none_came e h =
    let skips : (error == 0 && ltb 0 bytes) ≡ false = ground arith in
    let ended : some (begin (receiving v6 ∷ []) t) ≡ some u = rw skips at e in
    let same : begin (receiving v6 ∷ []) t ≡ u = cc in
    subst (λ (x : Tcp). AreOrdinary x.started) same
      (begin-AreOrdinary (receiving v6 ∷ []) t (tt, tt) h)

heartbeat-AreOrdinary :
    (port_v4 port_v6 : ℕ) (t u : Tcp)
    → multicast_heartbeat new_core port_v4 port_v6 t ≡ some u
    → AreOrdinary t.started
    → AreOrdinary u.started
heartbeat-AreOrdinary port_v4 port_v6 t u e h =
    subst (λ (x : Tcp). AreOrdinary x.started) (heartbeat_begins new_core port_v4 port_v6 t u e)
      (begin-AreOrdinary (heartbeat_ops new_core port_v4 port_v6) t (refl, (refl, (tt, tt))) h)

-- A step of a host's own starts only such operations.
pub Step-AreOrdinary :
    {t u : Tcp} (s : Step t u) → IsOwn s → AreOrdinary t.started → AreOrdinary u.started
unfolding initialize on_local_node_available uuid_read_finished on_local_close
Step-AreOrdinary (initialized groupc gdao) own h = h
Step-AreOrdinary (available archive c) own h = h
Step-AreOrdinary {t} (uuid_read lt archive error bytes fuel c s) own h =
    elim (Bool-cases (accepts lt error bytes s t)) [ inl e ↦ rw e h | inr e ↦ rw e h ]
Step-AreOrdinary {t} (socket_init core acceptor s error) own h =
    rw own (socket_init-AreOrdinary acceptor s error t h)
Step-AreOrdinary {t} (received parse core buffer sender error bytes v6 u e) own h =
    nothing-AreOrdinary parse core buffer sender error bytes v6 t u own e h
Step-AreOrdinary {t} (heartbeat core port_v4 port_v6 u e) own h =
    heartbeat-AreOrdinary port_v4 port_v6 t u (rw own at e) h
Step-AreOrdinary {t} (bound core attempt fuel n u e) own h =
    inside-AreOrdinary attempt fuel n t u (rw own at e) h
Step-AreOrdinary {t} (local_closed core attempt fuel u e) own h =
    inside-AreOrdinary attempt fuel 0 (record t { local_v4 = none }) u (rw own at e) h
Step-AreOrdinary (handled which e) own h = h
Step-AreOrdinary (sync_nodes which archive fuel c) own h = h

-- So does a round of Worker, up to its `poll` or the exception of a socket.
started-AreOrdinary :
    (opened_v4 opened_v6 : Bool) (a : Attempt) (t : Tcp)
    → AreOrdinary t.started
    → AreOrdinary
        (left_by (start_worker new_core a (λ v. v) (open_sockets opened_v4 opened_v6 t))).started
started-AreOrdinary false opened_v6 a t h = h
started-AreOrdinary true false a t h = begin-AreOrdinary (receiving false ∷ []) t (tt, tt) h
started-AreOrdinary true true a t h =
    let opened = begin (receiving false ∷ receiving true ∷ []) t in
    begin-AreOrdinary (waiting ∷ []) (bind_or_connect new_core a opened) (tt, tt)
      (connect-AreOrdinary a opened
        (begin-AreOrdinary (receiving false ∷ receiving true ∷ []) t (tt, (tt, tt)) h))

pub worker-AreOrdinary :
    (opened_v4 opened_v6 : Bool) (a : Attempt) (t : Tcp)
    → AreOrdinary t.started
    → AreOrdinary (left_by (worker new_core opened_v4 opened_v6 a (λ v. v) t)).started
unfolding worker
worker-AreOrdinary opened_v4 opened_v6 a t h =
    chosen (λ x. AreOrdinary x.started) t.initialized t _ h
      (started-AreOrdinary opened_v4 opened_v6 a t h)
