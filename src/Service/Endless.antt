-- ===== src/Service/Endless.antt =====
-- groupcore.cpp over backend/loopback.cpp: a round of runWorker that never comes back.
use libgscale.Prelude.{
  ℕ, zero, suc, ◌≡◌, ◌≢◌, refl, ◌∙◌, ap, Option, some, List, [], ◌∷◌, ◌++◌, map,
}
use libgscale.LocalNode.{LocalNode, Callback}
use libgscale.GroupCore.{
  GroupCore, Task, worker, node_available, enabled_backends, ready, post_each,
}
use libgscale.GroupCore.Rows.{BackendRow}
use libgscale.Loopback
use libgscale.Loopback.{Loopback}
use libgscale.Loopback.Endless.{on_local_node_available_runs}
use libgscale.Service.{
  loopback, Conditions, Handler, call, Process, object_of, settle, cleaned, Ran, running, and_then,
  perform, invoke, IsService, run_worker, on_local_node_available,
}

module _ (client : Callback → GroupCore → Option GroupCore) (conditions : ℕ → Conditions)
    (run : ℕ → Process → Ran) (service : IsService client conditions run) where
  -- Where the first handler tells an initialised loopback back end of a node, and the group has a
  -- node, the service does not come back.
  run_endless :
      (fuel groupc gdao b : ℕ) (l : Loopback) (node : LocalNode) (hs : List Handler) (w : Process)
      → w.pending ≡ call (node_available b node) ∷ hs
      → object_of b w.objects ≡ some (loopback (Loopback.initialize groupc gdao l))
      → w.core.localnodes ≢ []
      → run fuel w ≡ running
  unfolding perform invoke on_local_node_available
  run_endless zero groupc gdao b l node hs w first found nodes = service.no_fuel w
  run_endless (suc fuel) groupc gdao b l node hs w first found nodes =
      let told = (on_local_node_available_runs fuel groupc gdao l w.core node [] nodes).0 in
      service.first fuel w (call (node_available b node)) hs first ∙ rw (found, told) refl

  -- So does runWorker, where that call is the first that the group has posted.
  pub run_worker_endless :
      (fuel groupc gdao b : ℕ) (l : Loopback) (node : LocalNode) (ts : List Task) (w : Process)
      → w.pending ≡ []
      → w.core.queue ≡ node_available b node ∷ ts
      → object_of b w.objects ≡ some (loopback (Loopback.initialize groupc gdao l))
      → w.core.localnodes ≢ []
      → run_worker run fuel w ≡ running
  unfolding run_worker ready post_each
  run_worker_endless fuel groupc gdao b l node ts w empty queued found nodes =
      let v : Process = settle (record w { core = ready w.core }) in
      let more = map (λ (r : BackendRow). worker r.backend) (enabled_backends w.core) in
      let first : v.pending ≡ call (node_available b node) ∷ map call (ts ++ more) =
        rw (empty, queued) refl in
      ap (and_then (cleaned w))
        (run_endless fuel groupc gdao b l node (map call (ts ++ more)) v first found nodes)
