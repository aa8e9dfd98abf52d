-- ===== src/Service.antt =====
-- backend/ibackend.hpp and the calls that groupcore.cpp and localnode.cpp bind and post: the virtual
-- calls of a back end's object, and the handlers of a group's io_service. The service is a
-- parameter with laws; what a client's callback does to the group is one too.
pub mod Endless
pub mod Answers
pub mod Quiet
use libgscale.Prelude.{
  ℕ, zero, suc, ◌+◌, ◌≡◌, Bool, true, false, Option, none, some, List, [], ◌∷◌, ◌++◌, map, ◌==◌,
  if◌then◌else◌,
}
use libgscale.Words.{Bytes}
use libgscale.Core.{Core}
use libgscale.LocalNode.{LocalNode, Callback}
use libgscale.Packet.{Packet}
use libgscale.GroupCore
use libgscale.GroupCore.{
  GroupCore, Error, Task, worker, node_available, node_unavailable, writes_to_group, ready,
}
use libgscale.Loopback
use libgscale.Loopback.{Loopback, Outcome, ended, thrown, null_read, still_running}
use libgscale.Tcp
use libgscale.Tcp.{Tcp, Attempt}
use libgscale.Tcp.Worker
use libgscale.Tcp.Worker.{Worked, Poll}
use libgscale.SharedMemory
use libgscale.SharedMemory.{SharedMemory}

-- IBackend: an object of one of its classes.
pub data Object : Type 0 where
  loopback : Loopback → Object
  tcp : Tcp → Object
  shared_memory : SharedMemory → Object

-- How a virtual call ends: with the object and the callbacks that were posted, by an exception, in
-- undefined behaviour, or not within the fuel.
pub data Answer : Type 0 where
  returned : Object → List Callback → Answer
  threw undefined running : Answer

-- What a call finds: the archive, the host, what becomes of TCP's sockets, and how its
-- io_service::poll ends.
pub record Conditions : Type 0 where
  pub archive : Packet → Bytes
  pub host : Core
  pub opened_v4 : Bool
  pub opened_v6 : Bool
  pub attempt : Attempt
  pub poll : Tcp → Poll

abbrev of_outcome : Loopback → Outcome → Answer
of_outcome b (ended posted) = returned (loopback b) posted
of_outcome b (thrown e) = threw
of_outcome b null_read = undefined
of_outcome b still_running = running

abbrev of_poll : Poll → Answer
of_poll (Poll.served t) = returned (tcp t) []
of_poll Poll.thrown = threw
of_poll Poll.undefined = undefined
of_poll Poll.endless = running

-- What Worker comes to, from the state in which it polls.
abbrev of_worked : (Tcp → Poll) → Worked → Answer
of_worked poll (Worked.polled t) = of_poll (poll t)
of_worked poll (Worked.failed t) = threw

-- IBackend::OnLocalNodeAvailable
unfoldable pub on_local_node_available : ℕ → Conditions → GroupCore → LocalNode → Object → Answer
on_local_node_available fuel k c node (loopback b) =
    of_outcome b (Loopback.on_local_node_available fuel b c node [])
on_local_node_available fuel k c node (tcp t) =
    returned (tcp (Tcp.on_local_node_available k.archive c t)) []
on_local_node_available fuel k c node (shared_memory m) =
    returned (shared_memory (SharedMemory.on_local_node_available m node)) []

-- IBackend::OnLocalNodeUnavailable; that of TCP is commented out.
unfoldable pub on_local_node_unavailable : ℕ → GroupCore → LocalNode → Object → Answer
on_local_node_unavailable fuel c node (loopback b) =
    of_outcome b (Loopback.on_local_node_unavailable fuel b c node [])
on_local_node_unavailable fuel c node (tcp t) = returned (tcp t) []
on_local_node_unavailable fuel c node (shared_memory m) =
    returned (shared_memory (SharedMemory.on_local_node_unavailable m node)) []

-- IBackend::OnLocalNodeWritesToGroup; that of TCP is commented out.
unfoldable pub on_local_node_writes_to_group : GroupCore → Packet → Object → Answer
on_local_node_writes_to_group c packet (loopback b) =
    of_outcome b (Loopback.on_local_node_writes_to_group b c packet [])
on_local_node_writes_to_group c packet (tcp t) = returned (tcp t) []
on_local_node_writes_to_group c packet (shared_memory m) =
    returned (shared_memory (SharedMemory.on_local_node_writes_to_group m packet).0) []

-- IBackend::Worker; that of Loopback is empty, and that of SharedMemory only prints.
unfoldable pub call_worker : Conditions → Object → Answer
call_worker k (loopback b) = returned (loopback b) []
call_worker k (tcp t) =
    of_worked k.poll (Worker.worker k.host k.opened_v4 k.opened_v6 k.attempt (λ v. v) t)
call_worker k (shared_memory m) = returned (shared_memory m) []

-- A call as boost::bind made it, on the object.
unfoldable pub invoke : ℕ → Conditions → GroupCore → Task → Object → Answer
invoke fuel k c (worker b) o = call_worker k o
invoke fuel k c (node_available b node) o = on_local_node_available fuel k c node o
invoke fuel k c (node_unavailable b node) o = on_local_node_unavailable fuel c node o
invoke fuel k c (writes_to_group b packet) o = on_local_node_writes_to_group c packet o

abbrev pub target : Task → ℕ
target (worker b) = b
target (node_available b node) = b
target (node_unavailable b node) = b
target (writes_to_group b packet) = b

-- A handler of the group's service.
pub data Handler : Type 0 where
  call : Task → Handler
  callback : Callback → Handler

-- A process with a group: the group, the objects of back ends by their numbers, the handlers of its
-- service in order, and how many handlers were run.
pub record Process : Type 0 where
  pub core : GroupCore
  pub objects : List (ℕ × Object)
  pub pending : List Handler
  pub calls : ℕ

abbrev pub object_of : ℕ → List (ℕ × Object) → Option Object
object_of b [] = none
object_of b ((a, o) ∷ objects) = if a == b then some o else object_of b objects

abbrev pub set_object : ℕ → Object → List (ℕ × Object) → List (ℕ × Object)
set_object b o [] = []
set_object b o ((a, p) ∷ objects) =
    if a == b then (a, o) ∷ objects else (a, p) ∷ set_object b o objects

-- What the group posted goes behind the handlers that wait.
abbrev pub settle : Process → Process
settle w = record w {
  pending = w.pending ++ map call w.core.queue;
  core = record w.core { queue = [] };
}

-- How a handler, or the service, ends.
pub data Ran : Type 0 where
  finished failed : Process → Ran
  undefined running : Ran

abbrev pub and_then : (Process → Ran) → Ran → Ran
and_then f (finished w) = f w
and_then f (failed w) = failed w
and_then f undefined = undefined
and_then f running = running

abbrev pub with_answer : Process → ℕ → Answer → Ran
with_answer w b (returned o posted) = finished (record w {
  objects = set_object b o w.objects;
  pending = w.pending ++ map callback posted;
  calls = w.calls + 1;
})
with_answer w b threw = failed w
with_answer w b undefined = undefined
with_answer w b running = running

abbrev pub with_object : Process → ℕ → (Object → Answer) → Option Object → Ran
with_object w b f none = undefined
with_object w b f (some o) = with_answer w b (f o)

abbrev pub with_core : Process → Option GroupCore → Ran
with_core w none = undefined
with_core w (some c) = finished (settle (record w { core = c; calls = w.calls + 1 }))

-- `client` is what a callback of the client does to the group, `none` where that is undefined, and
-- `conditions` what the handler with a number finds.
module _ (client : Callback → GroupCore → Option GroupCore) (conditions : ℕ → Conditions) where
  -- Running a handler. A call on an object that is not there is undefined.
  unfoldable pub perform : ℕ → Process → Handler → Ran
  unfolding invoke
  perform fuel w (call t) =
      with_object w (target t) (invoke fuel (conditions w.calls) w.core t)
        (object_of (target t) w.objects)
  perform fuel w (callback cb) = with_core w (client cb w.core)

  -- What the code relies on of io_service::run on one thread, without a timer: it runs the handlers
  -- in their order, those that they post too, until there is none, or until one throws. Fuel bounds
  -- the number of handlers and the rounds of a loop in one.
  pub record IsService (run : ℕ → Process → Ran) : Type 0 where
    pub no_fuel : (w : Process) → run 0 w ≡ running
    pub idle : (fuel : ℕ) (w : Process) → w.pending ≡ [] → run (suc fuel) w ≡ finished w
    pub first :
        (fuel : ℕ) (w : Process) (h : Handler) (hs : List Handler)
        → w.pending ≡ h ∷ hs
        → run (suc fuel) w ≡ and_then (run fuel) (perform fuel (record w { pending = hs }) h)

-- The last parts of GroupCore::runWorker, where `run` came back.
abbrev pub cleaned : Process → Process → Ran
cleaned w v = finished (record v { core = GroupCore.run_worker (λ t c. v.core) none w.core })

-- GroupCore::runWorker without a time limit, over a service.
unfoldable pub run_worker : (ℕ → Process → Ran) → ℕ → Process → Ran
run_worker run fuel w = and_then (cleaned w) (run fuel (settle (record w { core = ready w.core })))
