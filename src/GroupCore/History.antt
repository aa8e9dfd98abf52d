-- ===== src/GroupCore/History.antt =====
-- groupcore.cpp: the states that a group reaches by calls of its API, of GroupNodesDAO and by
-- runWorker. What io_service::run does is a sequence of calls and of handlers taken off the queue.
use libgscale.Prelude.{ℕ, ◌≡◌, Bool, Option, some, List}
use libgscale.Words.{Bytes}
use libgscale.Core.{Uuid, Core}
use libgscale.LocalNode.{LocalNode}
use libgscale.Packet.{Packet}
use libgscale.GroupCore.{
  GroupCore, Task, ok, attach_backend, detach_backend, connect, disconnect, write, ready,
  run_worker,
}
use libgscale.GroupCore.Nodes.{increase_ref, decrease_ref}

-- A call of the API that returns, or the service taking handlers off its queue.
pub data Call (c : GroupCore) : GroupCore → Type 0 where
  attached :
      (initialize : ℕ → Bool) (errno : ℕ) (type : Bytes) (backend : ℕ) (d : GroupCore)
      → attach_backend initialize errno type backend c ≡ ok d
      → Call c d
  detached : (type : Bytes) → Call c (detach_backend type c)
  connected :
      (named : Uuid → Bytes → Uuid) (random : Uuid) (core : Core) (service now : ℕ) (alias : Bytes)
      (cbs : ℕ)
      → Call c (connect named random core service now alias cbs c).0
  disconnected : (now : ℕ) (node : LocalNode) → Call c (disconnect now node c)
  written : (packet : Packet) (d : GroupCore) → write packet c ≡ some d → Call c d
  served :
      (queue : List Task) (stopped : Bool) → Call c (record c { queue = queue; stopped = stopped })

-- The same, or a change of a reference count.
pub data Step (c : GroupCore) : GroupCore → Type 0 where
  call : {d : GroupCore} → Call c d → Step c d
  increased : (id : ℕ) → Step c (increase_ref id c)
  decreased : (id : ℕ) → Step c (decrease_ref id c)

pub data Steps (R : GroupCore → GroupCore → Type 0) (c : GroupCore) : GroupCore → Type 0 where
  here : Steps R c c
  next : {d e : GroupCore} → Steps R c d → R d e → Steps R c e

-- A history: steps, and calls of runWorker in which `run` makes steps.
pub data History (R : GroupCore → GroupCore → Type 0) (c : GroupCore) : GroupCore → Type 0 where
  start : History R c c
  step : {d e : GroupCore} → History R c d → R d e → History R c e
  work :
      {d : GroupCore} (run : Option ℕ → GroupCore → GroupCore) (timeout : Option ℕ)
      → History R c d
      → Steps R (ready d) (run timeout (ready d))
      → History R c (run_worker run timeout d)
