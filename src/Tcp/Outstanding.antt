-- ===== src/Tcp/Outstanding.antt =====
-- tcp.cpp: how many accepts wait on the service, over any history of a back end.
use libgscale.Prelude.{
  ℕ, ◌+◌, ◌≡◌, refl, subst, inl, inr, Bool, true, false, Bool-cases, none, [], ◌∷◌, arith,
}
use libgscale.Tcp.{
  Tcp, new_tcp, receiving, uuid_read_finished, accepts, initialize, on_local_node_available,
  on_local_close,
}
use libgscale.Tcp.Peers.{attempt}
use libgscale.Tcp.Steps.{
  Step, initialized, available, uuid_read, socket_init, received, heartbeat, bound, local_closed,
  handled, sync_nodes, Steps, here, next, Reachable, built, step, worked, not_opened,
}
use libgscale.Tcp.Attempts.{left_by, worker_failed-keeps}
use libgscale.Tcp.Balance.{
  tally, bit, adds, IsBalanced, plain-IsBalanced, kept-IsBalanced, socket_init-IsBalanced,
  received-IsBalanced, heartbeat-IsBalanced, inside-IsBalanced, worker-IsBalanced,
}

-- The accepts of a version that a step, or several, completes.
abbrev pub taken : {t u : Tcp} → Bool → Step t u → ℕ
taken v6 (socket_init core acceptor s error) = adds v6 acceptor
taken v6 s = 0

abbrev pub all_taken : {t u : Tcp} → Bool → Steps t u → ℕ
all_taken v6 here = 0
all_taken v6 (next s k) = all_taken v6 s + taken v6 k

abbrev pub completed : {t : Tcp} → Bool → Reachable t → ℕ
completed v6 built = 0
completed v6 (step r s) = completed v6 r + taken v6 s
completed v6 (worked core opened_v4 opened_v6 a poll r e s) = completed v6 r + all_taken v6 s
completed v6 (not_opened core opened_v4 opened_v6 a poll r e) = completed v6 r

Step-IsBalanced :
    {t u : Tcp} (s : Step t u) (m n : ℕ)
    → IsBalanced m n t
    → IsBalanced (m + taken false s) (n + taken true s) u
unfolding initialize on_local_node_available uuid_read_finished on_local_close
Step-IsBalanced {t} {u} (initialized groupc gdao) m n h = kept-IsBalanced t u m n refl refl refl h
Step-IsBalanced {t} {u} (available archive c) m n h = kept-IsBalanced t u m n refl refl refl h
Step-IsBalanced {t} (uuid_read lt archive error bytes fuel c s) m n h =
    elim (Bool-cases (accepts lt error bytes s t)) [
      | inl e ↦ rw e (kept-IsBalanced t _ m n refl refl refl h)
      | inr e ↦ rw e (kept-IsBalanced t _ m n refl refl refl h)
    ]
Step-IsBalanced {t} (socket_init core acceptor s error) m n h =
    socket_init-IsBalanced core acceptor s error t m n h
Step-IsBalanced {t} (received parse core buffer sender error bytes v6 u e) m n h =
    kept-IsBalanced u u m n refl refl refl
      (received-IsBalanced parse core buffer sender error bytes v6 t u m n e h)
Step-IsBalanced {t} (heartbeat core port_v4 port_v6 u e) m n h =
    kept-IsBalanced u u m n refl refl refl (heartbeat-IsBalanced core port_v4 port_v6 t u m n e h)
Step-IsBalanced {t} (bound core attempt fuel k u e) m n h =
    kept-IsBalanced u u m n refl refl refl (inside-IsBalanced core attempt fuel k t u m n e h)
Step-IsBalanced {t} (local_closed core attempt fuel u e) m n h =
    kept-IsBalanced u u m n refl refl refl (
      inside-IsBalanced core attempt fuel 0 (record t { local_v4 = none }) u m n e
        (record { of_v4 = h.of_v4; of_v6 = h.of_v6 }))
Step-IsBalanced {t} {u} (handled which e) m n h = kept-IsBalanced t u m n refl refl refl h
Step-IsBalanced {t} {u} (sync_nodes which archive fuel c) m n h =
    kept-IsBalanced t u m n refl refl refl h

Steps-IsBalanced :
    {t u : Tcp} (s : Steps t u) (m n : ℕ)
    → IsBalanced m n t
    → IsBalanced (m + all_taken false s) (n + all_taken true s) u
Steps-IsBalanced {t} here m n h = kept-IsBalanced t t m n refl refl refl h
Steps-IsBalanced {t} {u} (next s k) m n h =
    let v =
      Step-IsBalanced k (m + all_taken false s) (n + all_taken true s) (Steps-IsBalanced s m n h) in
    record { of_v4 = omega (arith, v.of_v4); of_v6 = omega (arith, v.of_v6) }

Reachable-IsBalanced :
    {t : Tcp} (r : Reachable t) → IsBalanced (completed false r) (completed true r) t
unfolding new_tcp
Reachable-IsBalanced built = record { of_v4 = refl; of_v6 = refl }
Reachable-IsBalanced (step r s) =
    Step-IsBalanced s (completed false r) (completed true r) (Reachable-IsBalanced r)
Reachable-IsBalanced (worked {t} {u} core opened_v4 opened_v6 a poll r e s) =
    Steps-IsBalanced s (completed false r) (completed true r) (
      subst (λ w. IsBalanced (completed false r) (completed true r) (left_by w)) e
        (worker-IsBalanced core opened_v4 opened_v6 a t (completed false r) (completed true r)
          (Reachable-IsBalanced r)))
Reachable-IsBalanced (not_opened {t} {u} core opened_v4 opened_v6 a poll r e) =
    let h = Reachable-IsBalanced r in
    worker_failed-keeps (IsBalanced (completed false r) (completed true r)) core opened_v4 opened_v6
      a poll t u e h (plain-IsBalanced (receiving false ∷ []) t _ _ refl refl h)

-- Over any history of a back end, of version 4 as many accepts were started as were completed, and
-- exactly one more once there is the acceptor; so it is of version 6. An acceptor always has one
-- accept that waits on the service, however its accepts end.
pub accepts_outstanding :
    {t : Tcp} (r : Reachable t)
    → (tally false t.started ≡ completed false r + bit t.acceptor_v4)
      × (tally true t.started ≡ completed true r + bit t.acceptor_v6)
accepts_outstanding r = let h = Reachable-IsBalanced r in (h.of_v4, h.of_v6)
