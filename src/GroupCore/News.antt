-- ===== src/GroupCore/News.antt =====
-- groupcore.cpp: what back ends are told by the calls that a group posts, over its history.
use libgscale.Prelude.{
  ℕ, ◌≡◌, Bool, Option, some, List, [], ◌∷◌, ◌++◌, length, keep_if, if◌then◌else◌, ◌==◌, All,
}
use libgscale.Words.{Bytes}
use libgscale.Core.{Uuid, Core}
use libgscale.LocalNode.{LocalNode}
use libgscale.Packet.{Packet}
use libgscale.GroupCore.{
  GroupCore, Task, worker, node_available, node_unavailable, writes_to_group, ok, attach_backend,
  detach_backend, enabled_backends, connect, disconnect, write, ready, run_worker,
}
use libgscale.GroupCore.Nodes.{increase_ref, decrease_ref}
use libgscale.GroupCore.Rows.{BackendRow}

-- What a posted call tells a back end.
pub data News : Type 0 where
  works : News
  arrives leaves : LocalNode → News
  gets : Packet → News

abbrev pub to_one : ℕ → ℕ → News → List News
to_one b x n = if x == b then n ∷ [] else []

abbrev pub news_of : ℕ → Task → List News
news_of b (worker x) = to_one b x works
news_of b (node_available x node) = to_one b x (arrives node)
news_of b (node_unavailable x node) = to_one b x (leaves node)
news_of b (writes_to_group x packet) = to_one b x (gets packet)

-- What some posted calls tell the back end with the object `b`, in order.
abbrev pub told : ℕ → List Task → List News
told b [] = []
told b (t ∷ ts) = news_of b t ++ told b ts

-- One enabled row of the group has the object.
abbrev pub Serves : GroupCore → ℕ → Type 0
Serves c b = length (keep_if (λ (r : BackendRow). r.backend == b) (enabled_backends c)) ≡ 1

-- A call of the API or of GroupNodesDAO that returns, or the service taking the first handler off
-- its queue; with the handlers that were taken, and what happened.
pub data Happens (c : GroupCore) : GroupCore → List Task → List News → Type 0 where
  attached :
      (initialize : ℕ → Bool) (errno : ℕ) (type : Bytes) (backend : ℕ) (d : GroupCore)
      → attach_backend initialize errno type backend c ≡ ok d
      → Happens c d [] []
  detached : (type : Bytes) → Happens c (detach_backend type c) [] []
  connected :
      (named : Uuid → Bytes → Uuid) (random : Uuid) (core : Core) (service now : ℕ) (alias : Bytes)
      (cbs : ℕ)
      → Happens c
          (connect named random core service now alias cbs c).0
          []
          (arrives (connect named random core service now alias cbs c).1 ∷ [])
  disconnected :
      (now : ℕ) (node : LocalNode) → Happens c (disconnect now node c) [] (leaves node ∷ [])
  written : (packet : Packet) (d : GroupCore) → write packet c ≡ some d → Happens c d [] []
  increased : (id : ℕ) → Happens c (increase_ref id c) [] []
  decreased : (id : ℕ) → Happens c (decrease_ref id c) [] []
  served :
      (t : Task) (queue : List Task) (stopped : Bool)
      → c.queue ≡ t ∷ queue
      → Happens c (record c { queue = queue; stopped = stopped }) (t ∷ []) []

-- Such steps one after another, from states in which some back ends are served.
pub data Steps (bs : List ℕ) (c : GroupCore) : GroupCore → List Task → List News → Type 0 where
  here : Steps bs c c [] []
  next :
      {d e : GroupCore} {taken more : List Task} {news latest : List News}
      → Steps bs c d taken news
      → All (Serves d) bs
      → Happens d e more latest
      → Steps bs c e (taken ++ more) (news ++ latest)

-- A history of steps and of calls of runWorker, in which `run` makes steps.
pub data History (bs : List ℕ) (c : GroupCore) : GroupCore → List Task → List News → Type 0 where
  start : History bs c c [] []
  step :
      {d e : GroupCore} {taken more : List Task} {news latest : List News}
      → History bs c d taken news
      → All (Serves d) bs
      → Happens d e more latest
      → History bs c e (taken ++ more) (news ++ latest)
  work :
      {d : GroupCore} {taken more : List Task} {news latest : List News}
      (run : Option ℕ → GroupCore → GroupCore) (timeout : Option ℕ)
      → History bs c d taken news
      → All (Serves d) bs
      → Steps bs (ready d) (run timeout (ready d)) more latest
      → History bs c (run_worker run timeout d) (taken ++ more) ((news ++ works ∷ []) ++ latest)
