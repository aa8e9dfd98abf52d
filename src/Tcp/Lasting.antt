-- ===== src/Tcp/Lasting.antt =====
-- tcp.cpp: what becomes of `initialized`, and with it of the rounds of Worker.
use libgscale.Prelude.{
  ℕ, ◌≡◌, refl, ◌∙◌, ap, inl, inr, Bool, true, false, ◌&&◌, ◌||◌, if◌then◌else◌, Bool-cases, none,
  some, arith, ◌==◌,
}
use libgscale.Core.{Core}
use libgscale.Tcp.{
  Tcp, initialize, on_local_node_available, uuid_read_finished, accepts, handle_socket_init,
  on_local_close, Attempt, bind_inside, bind_round, first_role, second_role, start_accept,
}
use libgscale.Tcp.Attempts.{bind_inside-keeps}
use libgscale.Tcp.Handlers.{received-begin, heartbeat-begin}
use libgscale.Tcp.Worker.{start_worker, open_sockets, Worked, worker, polled, failed}
use libgscale.Tcp.Steps.{
  Step, initialized, available, uuid_read, socket_init, received, heartbeat, bound, local_closed,
  handled, sync_nodes, Steps, here, next, Reachable, worked,
}

bind_round-initialized :
    (core : Core) (a : Attempt) (t : Tcp) → (bind_round core a t).0.initialized ≡ t.initialized
unfolding first_role second_role start_accept handle_socket_init
bind_round-initialized core a t = ground arith

bind_inside-initialized :
    (core : Core) (attempt : ℕ → Attempt) (fuel n : ℕ) (t u : Tcp)
    → bind_inside core attempt fuel n t ≡ some u
    → u.initialized ≡ t.initialized
bind_inside-initialized core attempt fuel n t u e =
    bind_inside-keeps (λ x. x.initialized ≡ t.initialized) core
      (λ a x h. bind_round-initialized core a x ∙ h) attempt fuel n t u e refl

Step-initialized : {t u : Tcp} → Step t u → u.initialized ≡ t.initialized
unfolding initialize on_local_node_available uuid_read_finished handle_socket_init start_accept
    on_local_close
Step-initialized (initialized groupc gdao) = refl
Step-initialized (available archive c) = refl
Step-initialized {t} (uuid_read lt archive error bytes fuel c s) =
    elim (Bool-cases (accepts lt error bytes s t)) [ inl e ↦ rw e refl | inr e ↦ rw e refl ]
Step-initialized (socket_init core none s error) = elim (Bool-cases (error == 0)) [
  | inl e ↦ rw e refl
  | inr e ↦ rw e refl
]
Step-initialized (socket_init core (some v6) s error) = elim (Bool-cases (error == 0)) [
  | inl e ↦ rw e refl
  | inr e ↦ rw e refl
]
Step-initialized {t} (received parse core buffer sender error bytes v6 u e) =
    ap (λ (x : Tcp). x.initialized) (received-begin parse core buffer sender error bytes v6 t u e)
Step-initialized {t} (heartbeat core port_v4 port_v6 u e) =
    ap (λ (x : Tcp). x.initialized) (heartbeat-begin core port_v4 port_v6 t u e)
Step-initialized {t} (bound core attempt fuel n u e) =
    bind_inside-initialized core attempt fuel n t u e
Step-initialized {t} (local_closed core attempt fuel u e) =
    bind_inside-initialized core attempt fuel 0 (record t { local_v4 = none }) u e
Step-initialized (handled which e) = refl
Step-initialized (sync_nodes which archive fuel c) = refl

pub Steps-initialized : {t u : Tcp} → Steps t u → u.initialized ≡ t.initialized
Steps-initialized here = refl
Steps-initialized (next s k) = Step-initialized k ∙ Steps-initialized s

module _ (core : Core) (a : Attempt) (poll : Tcp → Tcp) (t : Tcp) where
  -- What Worker does with a flag for `initialized`.
  abbrev with_flag : Bool → Bool → Bool → (Tcp → Tcp) → Worked
  with_flag b opened_v4 opened_v6 f =
      if b then polled (f t) else start_worker core a f (open_sockets opened_v4 opened_v6 t)

  with_flag-polled :
      (b opened_v4 opened_v6 : Bool)
      → b || opened_v4 && opened_v6 ≡ true
      → t.initialized ≡ b
      → (u : Tcp) × (with_flag b opened_v4 opened_v6 poll ≡ polled (poll u))
        × (with_flag b opened_v4 opened_v6 (λ v. v) ≡ polled u)
        × (u.initialized ≡ true)
  with_flag-polled true v4 v6 h e = (t, refl, refl, e)
  with_flag-polled false true true h e = (_, refl, refl, refl)
  with_flag-polled false true false h e = absurd cc
  with_flag-polled false false v6 h e = absurd cc

  with_flag-failed :
      (b opened_v4 opened_v6 : Bool)
      → b || opened_v4 && opened_v6 ≡ false
      → (u : Tcp) × (with_flag b opened_v4 opened_v6 poll ≡ failed u)
  with_flag-failed true v4 v6 h = absurd cc
  with_flag-failed false true true h = absurd cc
  with_flag-failed false true false h = (_, refl)
  with_flag-failed false false v6 h = (_, refl)

  -- A call of Worker that finds the sockets made, or can make them, comes behind its `poll`, which
  -- makes steps, and leaves the back end initialized.
  pub worker-polled :
      (opened_v4 opened_v6 : Bool)
      → t.initialized || opened_v4 && opened_v6 ≡ true
      → Reachable t
      → ((u : Tcp) → Steps u (poll u))
      → (u : Tcp) × (worker core opened_v4 opened_v6 a poll t ≡ polled u)
        × (u.initialized ≡ true)
        × Reachable u
  unfolding worker
  worker-polled opened_v4 opened_v6 h r runs =
      let (u, ended, before, set) = with_flag-polled t.initialized opened_v4 opened_v6 h refl in
      (
        poll u,
        ended,
        Steps-initialized (runs u) ∙ set,
        worked core opened_v4 opened_v6 a poll r before (runs u),
      )

  -- Otherwise it ends by the exception of a socket.
  pub worker-failed :
      (opened_v4 opened_v6 : Bool)
      → t.initialized || opened_v4 && opened_v6 ≡ false
      → (u : Tcp) × (worker core opened_v4 opened_v6 a poll t ≡ failed u)
  unfolding worker
  worker-failed opened_v4 opened_v6 h = with_flag-failed t.initialized opened_v4 opened_v6 h
