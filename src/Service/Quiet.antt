-- ===== src/Service/Quiet.antt =====
-- groupcore.cpp over backend/tcp.cpp and backend/shm.cpp: a round of runWorker comes back.
use mathlib.Core.List.{append-nil}
use libgscale.Prelude.{
  ℕ, zero, suc, ◌+◌, ◌<◌, ◌≡◌, refl, sym, subst, ◌∙◌, ap, ◌⊎◌, inl, inr, Option, none, List, [],
  ◌∷◌, ◌++◌, map, arith, length, All,
}
use libgscale.LocalNode.{Callback}
use libgscale.Tcp.{Tcp}
use libgscale.Tcp.Worker.{Poll}
use libgscale.GroupCore
use libgscale.GroupCore.{
  GroupCore, Task, worker, node_available, node_unavailable, writes_to_group, enabled_backends,
  ready, post_each,
}
use libgscale.GroupCore.Rows.{BackendRow}
use libgscale.Service.{
  Object, Answer, with_answer, undefined, running, Conditions, target, Handler, call, callback,
  Process, set_object, settle, Ran, finished, failed, and_then, perform, IsService, cleaned,
  run_worker,
}
use libgscale.Service.Answers.{
  IsStuck, IsQuiet, AreQuiet, IsThere, IsCall, object_of-IsQuiet, set_object-AreQuiet,
  invoke-Replies, All-IsCall,
}

-- An end that a `poll` without a return brings about.
abbrev pub IsStopped : Poll → Ran → Type 0
IsStopped (Poll.served t) r = ⊥
IsStopped Poll.thrown r = ⊥
IsStopped Poll.undefined r = r ≡ undefined
IsStopped Poll.endless r = r ≡ running

IsStuck-IsStopped :
    (w : Process) (b : ℕ) (p : Poll) (a : Answer) → IsStuck p a → IsStopped p (with_answer w b a)
IsStuck-IsStopped w b (Poll.served t) a h = h
IsStuck-IsStopped w b Poll.thrown a h = h
IsStuck-IsStopped w b Poll.undefined a h = ap (with_answer w b) h
IsStuck-IsStopped w b Poll.endless a h = ap (with_answer w b) h

IsStopped-and_then :
    (f : Process → Ran) (p : Poll) (r : Ran) → IsStopped p r → IsStopped p (and_then f r)
IsStopped-and_then f (Poll.served t) r h = h
IsStopped-and_then f Poll.thrown r h = h
IsStopped-and_then f Poll.undefined r h = ap (and_then f) h
IsStopped-and_then f Poll.endless r h = ap (and_then f) h

All-call :
    (objects : List (ℕ × Object)) (ts : List Task) (rows : List BackendRow)
    → All (λ t. IsThere objects (target t)) ts
    → All (λ r. IsThere objects r.backend) rows
    → All (IsCall objects) (map call (ts ++ map (λ (r : BackendRow). worker r.backend) rows))
All-call objects [] [] h k = tt
All-call objects [] (r ∷ rows) h k = (k.0, All-call objects [] rows h k.1)
All-call objects (t ∷ ts) rows h k = (h.0, All-call objects ts rows h.1 k)

length-call :
    (ts : List Task) (rows : List BackendRow)
    → length (map call (ts ++ map (λ (r : BackendRow). worker r.backend) rows))
      ≡ length ts + length rows
length-call [] [] = omega arith
length-call [] (r ∷ rows) = omega (arith, length-call [] rows)
length-call (t ∷ ts) rows = omega (arith, length-call ts rows)

-- The `poll` of some handler, on some back end, is undefined or endless, and so is the end.
abbrev pub Stopped : (ℕ → Conditions) → Ran → Type 0
Stopped conditions r = (k : ℕ) × (t : Tcp) × IsStopped ((conditions k).poll t) r

Stopped-and_then :
    (conditions : ℕ → Conditions) (f : Process → Ran) (r : Ran)
    → Stopped conditions r
    → Stopped conditions (and_then f r)
Stopped-and_then conditions f r (k, t, h) = (k, t, IsStopped-and_then f ((conditions k).poll t) r h)

-- The service came back with nothing waiting, the group as it was and a number of handlers run, or
-- by an exception, or a `poll` stopped it.
abbrev CameBack : (ℕ → Conditions) → Process → ℕ → Ran → Type 0
CameBack conditions w n r =
    ((v : Process) × (r ≡ finished v) × (v.pending ≡ []) × (v.core ≡ w.core) × (v.calls ≡ n))
    ⊎ (((v : Process) × (r ≡ failed v)) ⊎ Stopped conditions r)

module _ (client : Callback → GroupCore → Option GroupCore) (conditions : ℕ → Conditions)
    (run : ℕ → Process → Ran) (service : IsService client conditions run) where
  perform-Replies :
      (fuel : ℕ) (w : Process) (t : Task) (hs : List Handler)
      → AreQuiet w.objects
      → IsThere w.objects (target t)
      → w.pending ≡ hs
      → ((o : Object) × IsQuiet o
          × (perform client conditions fuel w (call t)
              ≡ finished (record w {
                objects = set_object (target t) o w.objects;
                pending = hs;
                calls = w.calls + 1;
              })))
        ⊎ ((perform client conditions fuel w (call t) ≡ failed w)
            ⊎ Stopped conditions (perform client conditions fuel w (call t)))
  unfolding perform
  perform-Replies fuel w t hs quiet (o, found) e =
      elim (invoke-Replies fuel (conditions w.calls) w.core t o
        (object_of-IsQuiet (target t) w.objects o quiet found)) [
          | inl (p, answer, q) ↦ inl (p, q, rw (found, answer, e, append-nil hs) refl)
          | inr (inl answer) ↦ inr (inl (rw (found, answer) refl))
          | inr (inr (x, stuck)) ↦ inr (
              inr (
                w.calls,
                x,
                rw found (IsStuck-IsStopped w (target t) ((conditions w.calls).poll x) _ stuck),
              ))
        ]

  run-CameBack :
      (fuel : ℕ) (hs : List Handler) (w : Process)
      → w.pending ≡ hs
      → AreQuiet w.objects
      → All (IsCall w.objects) hs
      → length hs < fuel
      → CameBack conditions w (w.calls + length hs) (run fuel w)
  run-CameBack zero hs w e quiet there h = absurd (omega arith)
  run-CameBack (suc fuel) [] w e quiet there h =
      inl (w, service.idle fuel w e, e, refl, omega arith)
  run-CameBack (suc fuel) (callback cb ∷ hs) w e quiet there h = absurd there.0
  run-CameBack (suc fuel) (call t ∷ hs) w e quiet there h =
      let u : Process = record w { pending = hs } in
      let step = service.first fuel w (call t) hs e in
      elim (perform-Replies fuel u t hs quiet there.0 refl) [
        | inr (inl f) ↦ inr (inl (u, step ∙ ap (and_then (run fuel)) f))
        | inr (inr f) ↦ inr (
            inr
              (subst (Stopped conditions) (sym step) (Stopped-and_then conditions (run fuel) _ f)))
        | inl (o, q, f) ↦
            let v : Process = record w {
              objects = set_object (target t) o w.objects;
              pending = hs;
              calls = w.calls + 1;
            } in
            let ih =
              run-CameBack fuel hs v refl (set_object-AreQuiet (target t) o w.objects quiet q)
                (All-IsCall (target t) o w.objects hs there.1) (omega arith) in
            elim ih [
              | inr (inl (x, g)) ↦ inr (inl (x, step ∙ ap (and_then (run fuel)) f ∙ g))
              | inr (inr g) ↦
                  inr (inr (subst (Stopped conditions) (sym (step ∙ ap (and_then (run fuel)) f)) g))
              | inl (x, g, idle, same, count) ↦
                  inl (x, step ∙ ap (and_then (run fuel)) f ∙ g, idle, same, omega arith)
            ]
      ]

  -- Where a process has objects of TCP and SharedMemory alone, and those of its enabled back ends and
  -- of the calls that wait are there: with fuel for one handler more than calls wait and back ends are
  -- enabled, a round of runWorker comes back; or it throws; or the `poll` of some TCP object,
  -- whose own handlers are not those of the group, is undefined or does not return, and so it is with
  -- the round. If it comes back then each of these handlers was run once, nothing waits any more, and
  -- the group is what a round leaves in which `run` only takes the handlers.
  pub run_worker_comes_back :
      (fuel : ℕ) (w : Process)
      → w.pending ≡ []
      → AreQuiet w.objects
      → All (λ t. IsThere w.objects (target t)) w.core.queue
      → All (λ r. IsThere w.objects r.backend) (enabled_backends w.core)
      → length w.core.queue + length (enabled_backends w.core) < fuel
      → ((v : Process) × (run_worker run fuel w ≡ finished v)
          × (v.pending ≡ [])
          × (v.core ≡ GroupCore.run_worker (λ t c. record c { queue = [] }) none w.core)
          × (v.calls ≡ w.calls + (length w.core.queue + length (enabled_backends w.core))))
        ⊎ (((v : Process) × (run_worker run fuel w ≡ failed v))
            ⊎ Stopped conditions (run_worker run fuel w))
  unfolding run_worker ready post_each GroupCore.run_worker
  run_worker_comes_back fuel w empty quiet waiting there enough =
      let rows = enabled_backends w.core in
      let hs = map call (w.core.queue ++ map (λ (r : BackendRow). worker r.backend) rows) in
      let u : Process = settle (record w { core = ready w.core }) in
      let all : u.pending ≡ hs = rw empty refl in
      let count = length-call w.core.queue rows in
      elim (run-CameBack fuel hs u all quiet (All-call w.objects w.core.queue rows waiting there)
        (omega (arith, count))) [
          | inr (inl (x, g)) ↦ inr (inl (x, ap (and_then (cleaned w)) g))
          | inr (inr g) ↦ inr (inr (Stopped-and_then conditions (cleaned w) _ g))
          | inl (x, g, idle, same, calls) ↦ inl (
            record x { core = GroupCore.run_worker (λ t c. x.core) none w.core },
            ap (and_then (cleaned w)) g,
            idle,
            ap (λ (c : GroupCore). GroupCore.run_worker (λ t d. c) none w.core) same,
            omega (arith, calls, count),
          )
        ]
