-- ===== src/NetworkChat/Rounds.antt =====
-- example/tcp/main.cpp over groupcore.cpp and backend/tcp.cpp: the rounds of the program.
use libgscale.Prelude.{
  ℕ, zero, suc, ◌+◌, ◌≤◌, ◌<◌, ◌≡◌, sym, subst, refl, ◌∙◌, ap, ◌⊎◌, inl, inr, true, false, ◌&&◌,
  ◌||◌, Bool-cases, Option, [], ◌∷◌, arith, keep_if, any_of,
}
use libgscale.Words.{Bytes}
use libgscale.LocalNode.{Callback}
use libgscale.GroupCore
use libgscale.GroupCore.{GroupCore, worker, new_group_core, enabled_backends, post_each, ready}
use libgscale.GroupCore.Rows.{new_backend_row, enable}
use libgscale.MultiIndex.{IsUnique, insert, erase}
use libgscale.Group
use libgscale.Group.{new_group, attach_new}
use libgscale.Tcp
use libgscale.Tcp.{Tcp, new_tcp}
use libgscale.Tcp.Worker
use libgscale.Tcp.Worker.{Poll}
use libgscale.Tcp.Peers.{HasOneRole}
use libgscale.Tcp.Hosts.{same_host}
use libgscale.Tcp.Reachable.{Reachable-HasOneRole}
use libgscale.Tcp.Lasting.{worker-polled, worker-failed, Steps-initialized}
use libgscale.Tcp.Steps.{Steps, Reachable, built, step, initialized, here, worked}
use libgscale.Service.{
  tcp, Conditions, Process, Ran, finished, failed, undefined, running, call, settle, and_then,
  cleaned, IsService, run_worker, perform, invoke, call_worker,
}
use libgscale.Chat.{codes}
use libgscale.NetworkChat.{rounds, main}

-- The group of the program: no node, and the back end.
abbrev pub group : Bytes → GroupCore
group type_name = record {
  localnodes = [];
  backends = record { backend = 0; type = type_name; enabled = true; sendqueue = [] } ∷ [];
  sendqueue = [];
  connectcount = 0;
  gname = codes "networkchat-example";
  queue = [];
  stopped = false;
  group = 0;
}

-- The process behind a number of rounds.
abbrev pub behind : Bytes → ℕ → Tcp → Process
behind type_name n t = record {
  core = group type_name;
  objects = (0, tcp t) ∷ [];
  pending = [];
  calls = n;
}

-- What a `poll` that does not return makes of a program.
abbrev pub Breaks : Poll → Ran → Type 0
Breaks (Poll.served t) r = ⊥
Breaks Poll.thrown r = (v : Process) × (r ≡ failed v)
Breaks Poll.undefined r = r ≡ undefined
Breaks Poll.endless r = r ≡ running

Breaks-and_then : (f : Process → Ran) (p : Poll) (r : Ran) → Breaks p r → Breaks p (and_then f r)
Breaks-and_then f (Poll.served t) r h = h
Breaks-and_then f Poll.thrown r (v, e) = (v, ap (and_then f) e)
Breaks-and_then f Poll.undefined r h = ap (and_then f) h
Breaks-and_then f Poll.endless r h = ap (and_then f) h

-- The `poll` of a round before the `n`th, on a back end in a reachable state, breaks an end.
abbrev pub Broken : (ℕ → Conditions) → ℕ → Ran → Type 0
Broken conditions n r =
    (k : ℕ) × (u : Tcp) × (k < n) × Reachable u × Breaks ((conditions k).poll u) r

module _ (client : Callback → GroupCore → Option GroupCore) (conditions : ℕ → Conditions)
    (type_name : Bytes) (run : ℕ → Process → Ran) (service : IsService client conditions run)
    (runs : (k : ℕ) (u v : Tcp) → (conditions k).poll u ≡ Poll.served v → Steps u v) where
  -- The process in a round, when its one handler was taken.
  abbrev taken : ℕ → Tcp → Process
  taken n t = record (settle (record (behind type_name n t) { core = ready (group type_name) })) {
    pending = [];
  }

  round_first :
      (fuel n : ℕ) (t : Tcp)
      → run_worker run (suc fuel) (behind type_name n t)
        ≡ and_then
            (cleaned (behind type_name n t))
            (and_then (run fuel) (perform client conditions fuel (taken n t) (call (worker 0))))
  unfolding run_worker ready post_each enabled_backends keep_if
  round_first fuel n t =
      let w : Process = behind type_name n t in
      ap (and_then (cleaned w))
        (service.first fuel (settle (record w { core = ready w.core })) (call (worker 0)) [] refl)

  broken_by :
      (fuel n : ℕ) (t u : Tcp) (p : Poll)
      → (conditions n).poll u ≡ p
      → Breaks p (perform client conditions fuel (taken n t) (call (worker 0)))
      → Breaks ((conditions n).poll u) (run_worker run (suc fuel) (behind type_name n t))
  broken_by fuel n t u p f h =
      rw (f, round_first fuel n t)
        (Breaks-and_then (cleaned (behind type_name n t)) p _ (Breaks-and_then (run fuel) p _ h))

  -- Behind a `poll` that ends so.
  round_by :
      (fuel n : ℕ) (t u : Tcp) (p : Poll)
      → Worker.worker
          (conditions n).host
          (conditions n).opened_v4
          (conditions n).opened_v6
          (conditions n).attempt
          (λ v. v)
          t
        ≡ Worker.polled u
      → u.initialized ≡ true
      → Reachable t
      → (conditions n).poll u ≡ p
      → ((v : Tcp) × (run_worker run (suc (suc fuel)) (behind type_name n t)
            ≡ finished (behind type_name (n + 1) v))
          × (v.initialized ≡ true)
          × Reachable v)
        ⊎ Breaks ((conditions n).poll u) (run_worker run (suc (suc fuel)) (behind type_name n t))
  unfolding run_worker ready post_each enabled_backends keep_if perform invoke call_worker
      GroupCore.run_worker erase
  round_by fuel n t u (Poll.served x) e set r f =
      let k = conditions n in
      let w : Process = behind type_name n t in
      let v : Process = settle (record w { core = ready w.core }) in
      let told : perform client conditions (suc fuel) (record v { pending = [] }) (call (worker 0))
          ≡ finished (behind type_name (n + 1) x) =
        rw (e, f) refl in
      let back : run (suc (suc fuel)) v ≡ finished (behind type_name (n + 1) x) =
        service.first (suc fuel) v (call (worker 0)) [] refl
        ∙ ap (and_then (run (suc fuel))) told
        ∙ service.idle fuel (behind type_name (n + 1) x) refl in
      inl (
        x,
        ap (and_then (cleaned w)) back,
        Steps-initialized (runs n u x f) ∙ set,
        worked k.host k.opened_v4 k.opened_v6 k.attempt (λ y. x) r e (runs n u x f),
      )
  round_by fuel n t u Poll.thrown e set r f =
      inr (broken_by (suc fuel) n t u Poll.thrown f (taken n t, rw (e, f) refl))
  round_by fuel n t u Poll.undefined e set r f =
      inr (broken_by (suc fuel) n t u Poll.undefined f (rw (e, f) refl))
  round_by fuel n t u Poll.endless e set r f =
      inr (broken_by (suc fuel) n t u Poll.endless f (rw (e, f) refl))

  round-failed :
      (fuel n : ℕ) (t : Tcp)
      → t.initialized || (conditions n).opened_v4 && (conditions n).opened_v6 ≡ false
      → (v : Process) × (run_worker run (suc fuel) (behind type_name n t) ≡ failed v)
  unfolding run_worker ready post_each enabled_backends keep_if perform invoke call_worker
  round-failed fuel n t h =
      let k = conditions n in
      let w : Process = behind type_name n t in
      let v : Process = settle (record w { core = ready w.core }) in
      let (u, e) = worker-failed k.host k.attempt (λ v. v) t k.opened_v4 k.opened_v6 h in
      let told : perform client conditions fuel (record v { pending = [] }) (call (worker 0))
          ≡ failed (record v { pending = [] }) =
        rw e refl in
      (
        record v { pending = [] },
        ap (and_then (cleaned w))
            (service.first fuel v (call (worker 0)) [] refl ∙ ap (and_then (run fuel)) told),
      )

  abbrev fresh : Tcp
  fresh = Tcp.initialize 0 0 new_tcp

  main-rounds :
      (fuel n : ℕ)
      → main type_name run fuel n ≡ rounds type_name run fuel n (behind type_name 0 fresh)
  unfolding main new_group new_group_core attach_new Group.attach_backend GroupCore.attach_backend
      insert any_of new_backend_row enable
  main-rounds fuel n = refl

  round_cases :
      (fuel n : ℕ) (t : Tcp)
      → t.initialized || (conditions n).opened_v4 && (conditions n).opened_v6 ≡ true
      → Reachable t
      → ((u : Tcp) × (run_worker run (suc (suc fuel)) (behind type_name n t)
            ≡ finished (behind type_name (n + 1) u))
          × (u.initialized ≡ true)
          × Reachable u)
        ⊎ ((u : Tcp) × Reachable u
            × Breaks
                ((conditions n).poll u)
                (run_worker run (suc (suc fuel)) (behind type_name n t)))
  round_cases fuel n t h r =
      let k = conditions n in
      let (u, e, set, reached) =
        worker-polled k.host k.attempt (λ v. v) t k.opened_v4 k.opened_v6 h r (λ v. here) in
      elim (round_by fuel n t u (k.poll u) e set r refl) [
        | inl a ↦ inl a
        | inr b ↦ inr (u, reached, b)
      ]

  -- What a number of rounds from the `n`th on comes to.
  abbrev Done : ℕ → ℕ → Ran → Type 0
  Done m n r =
      ((u : Tcp) × (r ≡ finished (behind type_name (n + m) u)) × Reachable u)
      ⊎ Broken conditions (n + m) r

  rounds-Done :
      (fuel m n : ℕ) (t : Tcp)
      → t.initialized || (conditions n).opened_v4 && (conditions n).opened_v6 ≡ true
      → Reachable t
      → Done m n (rounds type_name run (suc (suc fuel)) m (behind type_name n t))
  unfolding rounds
  rounds-Done fuel zero n t ready_to r = let z : n + 0 ≡ n = omega arith in inl (t, rw z refl, r)
  rounds-Done fuel (suc m) n t ready_to r =
      let z : n + suc m ≡ n + 1 + m = omega arith in
      let f = rounds type_name run (suc (suc fuel)) m in
      elim (round_cases fuel n t ready_to r) [
        | inr (u, r', b) ↦
            inr (n, u, omega arith, r', Breaks-and_then f ((conditions n).poll u) _ b)
        | inl (u, e, set, r') ↦ elim (rounds-Done fuel m (n + 1) u (rw set refl) r') [
          | inl (x, g, last) ↦ inl (x, rw z (ap (and_then f) e ∙ g), last)
          | inr (k, x, less, r'', b) ↦ inr (
            k,
            x,
            omega (arith, less),
            r'',
            subst (Breaks ((conditions k).poll x)) (sym (ap (and_then f) e)) b,
          )
        ]
      ]

  -- Over any service, where what `poll` does if it returns is to make steps of the back end, and with
  -- fuel of at least 2 for each round. If the multicast sockets can be made in the first round, then
  -- either the program gets through any number of rounds, or the `poll` of an earlier one, on a back
  -- end in a reachable state, throws, is undefined or does not return, and so it is with the program.
  -- After the rounds each has called Worker once, no handler waits, the group has no node and the
  -- back end is attached; the process has at most one role, and at most one session for each host.
  -- If the sockets cannot be made, the exception of one ends the program in its first round.
  pub main_goes_on :
      (fuel n : ℕ)
      → 2 ≤ fuel
      → (((conditions 0).opened_v4 && (conditions 0).opened_v6 ≡ true)
          × (((t : Tcp) × (main type_name run fuel n ≡ finished (behind type_name n t))
                × HasOneRole t
                × IsUnique same_host t.sessions)
              ⊎ Broken conditions n (main type_name run fuel n)))
        ⊎ (((conditions 0).opened_v4 && (conditions 0).opened_v6 ≡ false)
            × ((v : Process) × (main type_name run fuel (suc n) ≡ failed v)))
  unfolding rounds new_tcp Tcp.initialize
  main_goes_on zero n h = absurd (omega arith)
  main_goes_on (suc zero) n h = absurd (omega arith)
  main_goes_on (suc (suc fuel)) n h =
      let k = conditions 0 in
      let r : Reachable fresh = step built (initialized 0 0) in
      let z : 0 + n ≡ n = omega arith in
      elim (Bool-cases (k.opened_v4 && k.opened_v6)) [
        | inl e ↦ elim (rounds-Done fuel n 0 fresh e r) [
          | inl (t, f, last) ↦
              let (role, hosts) = Reachable-HasOneRole last in
              inl (e, inl (t, main-rounds (suc (suc fuel)) n ∙ rw z at f, role, hosts))
          | inr b ↦ inl (
            e,
            inr (
                subst (Broken conditions n) (sym (main-rounds (suc (suc fuel)) n)) (
                  subst
                    (λ i.
                      Broken conditions i
                        (rounds type_name run (suc (suc fuel)) n (behind type_name 0 fresh)))
                    z b)),
          )
        ]
        | inr e ↦
            let (v, f) = round-failed (suc fuel) 0 fresh e in
            inr (
              e,
              (
                v,
                main-rounds (suc (suc fuel)) (suc n)
                    ∙ ap (and_then (rounds type_name run (suc (suc fuel)) n)) f,
              ),
            )
      ]
