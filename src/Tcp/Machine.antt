-- ===== src/Tcp/Machine.antt =====
-- tcp.cpp: a back end moves as the machine of roles does.
use libgscale.Prelude.{
  ℕ, ◌≡◌, refl, sym, subst, ◌⊎◌, inl, inr, Bool, true, false, Bool-cases, Option, none, some, [],
  ◌∷◌, ◌==◌, arith,
}
use libgscale.Core.{Core}
use libgscale.Session.{Session}
use libgscale.Tcp.{
  Tcp, new_tcp, accepts, initialize, on_local_node_available, uuid_read_finished,
  handle_socket_init, start_accept, on_local_close, Attempt, begin, receiving,
}
use libgscale.Tcp.Peers.{HasOneRole, is_set, with_role, attempt}
use libgscale.Tcp.Handlers.{received-begin, heartbeat-begin}
use libgscale.Tcp.Attempts.{left_by, chosen, worker_failed-keeps}
use libgscale.Tcp.Worker.{worker, start_worker, open_sockets}
use libgscale.Tcp.Reachable.{Reachable-HasOneRole}
use libgscale.Tcp.Steps.{
  Step, initialized, available, uuid_read, socket_init, received, heartbeat, bound, local_closed,
  handled, sync_nodes, Steps, here, next, Reachable, built, step, worked, not_opened,
}
use libgscale.Tcp.Roles.{
  Role, idle, connected, accepting, loses, adds, ◌⟶*◌, stay, go, ⟶*-trans, role_at, role_of,
  bind_or_connect-⟶*, bind_inside-⟶*,
}

-- The session to the accepting process is given up.
lose-⟶* : (v4 v6 : Bool) (s : Option Session) → role_at v4 v6 s ⟶* role_at v4 v6 none
lose-⟶* true v6 s = stay
lose-⟶* false v6 none = stay
lose-⟶* false v6 (some s) = go loses stay

socket_init-role :
    (core : Core) (acceptor : Option Bool) (s : Session) (error : ℕ) (t : Tcp)
    → role_of (handle_socket_init core acceptor s error t) ≡ role_of t
unfolding handle_socket_init start_accept
socket_init-role core none s error t = elim (Bool-cases (error == 0)) [
  | inl e ↦ rw e refl
  | inr e ↦ rw e refl
]
socket_init-role core (some v6) s error t = elim (Bool-cases (error == 0)) [
  | inl e ↦ rw e refl
  | inr e ↦ rw e refl
]

Step-⟶* : {t u : Tcp} → Step t u → role_of t ⟶* role_of u
unfolding initialize on_local_node_available uuid_read_finished on_local_close
Step-⟶* (initialized groupc gdao) = stay
Step-⟶* (available archive c) = stay
Step-⟶* {t} (uuid_read lt archive error bytes fuel c s) =
    elim (Bool-cases (accepts lt error bytes s t)) [ inl e ↦ rw e stay | inr e ↦ rw e stay ]
Step-⟶* {t} (socket_init core acceptor s error) =
    subst (λ r. role_of t ⟶* r) (sym (socket_init-role core acceptor s error t)) stay
Step-⟶* {t} (received parse core buffer sender error bytes v6 u e) =
    subst (λ (x : Tcp). role_of t ⟶* role_of x)
      (sym (received-begin parse core buffer sender error bytes v6 t u e)) stay
Step-⟶* {t} (heartbeat core port_v4 port_v6 u e) =
    subst (λ (x : Tcp). role_of t ⟶* role_of x) (sym (heartbeat-begin core port_v4 port_v6 t u e))
      stay
Step-⟶* {t} (bound core attempt fuel n u e) = bind_inside-⟶* core attempt fuel n t u e
Step-⟶* {t} (local_closed core attempt fuel u e) =
    ⟶*-trans (lose-⟶* t.acceptor_v4 t.acceptor_v6 t.local_v4)
      (bind_inside-⟶* core attempt fuel 0 (record t { local_v4 = none }) u e)
Step-⟶* (handled which e) = stay
Step-⟶* (sync_nodes which archive fuel c) = stay

Steps-⟶* : {t u : Tcp} → Steps t u → role_of t ⟶* role_of u
Steps-⟶* here = stay
Steps-⟶* (next s k) = ⟶*-trans (Steps-⟶* s) (Step-⟶* k)

-- A round of Worker, up to its `poll`, which is the identity here, or the exception of a socket.
started-⟶* :
    (core : Core) (opened_v4 opened_v6 : Bool) (a : Attempt) (t : Tcp)
    → role_of t
      ⟶* role_of (left_by (start_worker core a (λ v. v) (open_sockets opened_v4 opened_v6 t)))
started-⟶* core false opened_v6 a t = stay
started-⟶* core true false a t = stay
started-⟶* core true true a t =
    bind_or_connect-⟶* core a (begin (receiving false ∷ receiving true ∷ []) t)

worker-⟶* :
    (core : Core) (opened_v4 opened_v6 : Bool) (a : Attempt) (t : Tcp)
    → role_of t ⟶* role_of (left_by (worker core opened_v4 opened_v6 a (λ v. v) t))
unfolding worker
worker-⟶* core opened_v4 opened_v6 a t =
    chosen (λ x. role_of t ⟶* role_of x) t.initialized t _ stay
      (started-⟶* core opened_v4 opened_v6 a t)

Reachable-⟶* : {t : Tcp} → Reachable t → idle ⟶* role_of t
unfolding new_tcp
Reachable-⟶* built = stay
Reachable-⟶* (step r s) = ⟶*-trans (Reachable-⟶* r) (Step-⟶* s)
Reachable-⟶* (worked {t} {u} core opened_v4 opened_v6 a poll r e s) = ⟶*-trans (Reachable-⟶* r) (
    ⟶*-trans
      (subst (λ w. role_of t ⟶* role_of (left_by w)) e (worker-⟶* core opened_v4 opened_v6 a t))
      (Steps-⟶* s))
Reachable-⟶* (not_opened {t} {u} core opened_v4 opened_v6 a poll r e) = ⟶*-trans (Reachable-⟶* r) (
    worker_failed-keeps (λ x. role_of t ⟶* role_of x) core opened_v4 opened_v6 a poll t u e stay
      stay)

-- What the members of a back end are in a role.
abbrev pub Shows : Role → Tcp → Type 0
Shows idle t = (t.acceptor_v4 ≡ false) × (t.acceptor_v6 ≡ false) × (is_set t.local_v4 ≡ false)
Shows connected t = (t.acceptor_v4 ≡ false) × (t.acceptor_v6 ≡ false) × (is_set t.local_v4 ≡ true)
Shows (accepting v6) t = (t.acceptor_v4 ≡ true) × (t.acceptor_v6 ≡ v6) × (is_set t.local_v4 ≡ false)

shows :
    (v4 v6 : Bool) (s : Option Session) (t : Tcp)
    → HasOneRole (with_role v4 v6 s t)
    → Shows (role_at v4 v6 s) (with_role v4 v6 s t)
shows true v6 s t h = (refl, refl, h.0)
shows false v6 (some s) t h = (refl, ground arith, refl)
shows false v6 none t h = (refl, ground arith, refl)

-- What a role leaves open: a process that accepts goes on to accept.
abbrev pub Allows : Role → Role → Type 0
Allows idle r = Unit {0}
Allows connected r = Unit {0}
Allows (accepting v6) r = (r ≡ accepting v6) ⊎ (r ≡ accepting true)

still_accepting : {r : Role} (v6 : Bool) → accepting v6 ⟶* r → Allows (accepting v6) r
still_accepting v6 stay = inl refl
still_accepting true (go e p) = elim e [ ]
still_accepting false (go adds stay) = inr refl
still_accepting false (go adds (go e p)) = elim e [ ]

⟶*-Allows : {r s : Role} → r ⟶* s → Allows r s
⟶*-Allows {r = idle} p = tt
⟶*-Allows {r = connected} p = tt
⟶*-Allows {r = accepting v6} p = still_accepting v6 p

-- However bind and connect turn out: a reachable back end has the role that its acceptors and its
-- session to the accepting process say, has come to it from none by the steps of the machine (it
-- connects or listens, a connected process can lose its role, an accepting one can add version 6),
-- and goes on by such steps; so a process that accepts does so for ever.
pub Reachable-roles :
    {t u : Tcp}
    → Reachable t
    → Steps t u
    → Shows (role_of t) t
      × (idle ⟶* role_of t)
      × (role_of t ⟶* role_of u)
      × Allows (role_of t) (role_of u)
Reachable-roles {t} r s = (
  shows t.acceptor_v4 t.acceptor_v6 t.local_v4 t (Reachable-HasOneRole r).0,
  Reachable-⟶* r,
  Steps-⟶* s,
  ⟶*-Allows (Steps-⟶* s),
)
