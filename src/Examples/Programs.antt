-- ===== src/Examples/Programs.antt =====
-- Runs of groupcore.cpp with its back ends, and of example/loopback/main.cpp.
use libgscale.Prelude.{
  false, ℕ, zero, suc, ◌+◌, ◌≡◌, ◌⊎◌, refl, ap, true, none, some, Option, List, [], ◌∷◌, arith,
  length, All, keep_if, subst, inl, inr, Option-cases,
}
use libgscale.Core.{new_core}
use libgscale.LocalNode.{LocalNode, Callback}
use libgscale.GroupCore.{
  GroupCore, node_available, connect, run_worker, post_each, enabled_backends,
}
use libgscale.GroupCore.News.{
  arrives, works, told, History, start, step, work, here, connected, served,
}
use libgscale.GroupCore.Order.{History-told_alike}
use libgscale.Service
use libgscale.Service.{
  Object, tcp, Conditions, Handler, Process, Ran, finished, failed, running, and_then, perform,
  IsService,
}
use libgscale.Service.Quiet.{Stopped, run_worker_comes_back}
use libgscale.Tcp.{Tcp, multicast_heartbeat}
use libgscale.Tcp.Worker.{Poll}
use libgscale.Tcp.Steps
use libgscale.Tcp.Steps.{Steps}
use libgscale.Tcp.Peers.{HasOneRole}
use libgscale.Tcp.Hosts.{same_host}
use libgscale.MultiIndex.{IsUnique}
use libgscale.NetworkChat
use libgscale.NetworkChat.Rounds.{behind, Broken, main_goes_on}
use libgscale.Chat.Program.{Machine, main, main_never_ends}
use libgscale.Examples.{sixteen, named}
use libgscale.Examples.Groups.{empty, alice_node}
use libgscale.Examples.Sessions.{archive}
use libgscale.Examples.Sessions

abbrev client : Callback → GroupCore → Option GroupCore
client cb c = some c

-- The service of the back end runs the handler of the heartbeat.
abbrev of_heartbeat : Option Tcp → Poll
of_heartbeat none = Poll.undefined
of_heartbeat (some u) = Poll.served u

abbrev poll : Tcp → Poll
poll t = of_heartbeat (multicast_heartbeat new_core 8000 8000 t)

poll-Steps : (t u : Tcp) → poll t ≡ Poll.served u → Steps t u
poll-Steps t u e = elim (Option-cases (multicast_heartbeat new_core 8000 8000 t)) [
  | inl h ↦ let stuck : Poll.undefined ≡ Poll.served u = rw h at e in absurd cc
  | inr (v, h) ↦
      let done : Poll.served v ≡ Poll.served u = rw h at e in
      let same : v ≡ u = cc in
      subst (Steps t) same (Steps.next Steps.here (Steps.heartbeat new_core 8000 8000 v h))
]

abbrev conditions : ℕ → Conditions
conditions n = record {
  archive = archive;
  host = new_core;
  opened_v4 = true;
  opened_v6 = true;
  attempt = record { bound_v4 = true; bound_v6 = true; made = none };
  poll = poll;
}

-- A service that runs its handlers in order.
abbrev on_pending : (Process → Ran) → ℕ → Process → List Handler → Ran
on_pending again fuel w [] = finished w
on_pending again fuel w (h ∷ hs) =
    and_then again (perform client conditions fuel (record w { pending = hs }) h)

abbrev in_order : ℕ → Process → Ran
in_order zero w = running
in_order (suc fuel) w = on_pending (in_order fuel) fuel w w.pending

in_order-IsService : IsService client conditions in_order
in_order-IsService = record {
  no_fuel = λ w. refl;
  idle = λ fuel w e. ap (on_pending (in_order fuel) fuel w) e;
  first = λ fuel w h hs e. ap (on_pending (in_order fuel) fuel w) e;
}

abbrev machine : Machine
machine = record {
  named = named;
  random = sixteen;
  core = new_core;
  service = 9;
  clock = λ k. k;
  type_name = 76 ∷ [];
}

main_never_ends_example : main machine 5 in_order 1000 ≡ running
main_never_ends_example =
    main_never_ends client conditions in_order machine 5 in_order-IsService 1000

-- A group with a TCP back end, in which a node has been connected.
abbrev networked : GroupCore
networked = record empty {
  backends = record { backend = 3; type = 84 ∷ []; enabled = true; sendqueue = [] } ∷ [];
  queue = node_available 3 alice_node ∷ [];
}

abbrev process : Process
process = record { core = networked; objects = (3, tcp Sessions.tcp) ∷ []; pending = []; calls = 0 }

run_worker_comes_back_example :
    ((v : Process) × (Service.run_worker in_order 4 process ≡ finished v)
      × (v.pending ≡ [])
      × (v.core ≡ run_worker (λ t c. record c { queue = [] }) none networked)
      × (v.calls ≡ 0 + (1 + length (enabled_backends networked))))
    ⊎ (((v : Process) × (Service.run_worker in_order 4 process ≡ failed v))
        ⊎ Stopped conditions (Service.run_worker in_order 4 process))
unfolding enabled_backends keep_if
run_worker_comes_back_example =
    run_worker_comes_back client conditions in_order in_order-IsService 4 process refl (tt, tt)
      ((tcp Sessions.tcp, refl), tt) ((tcp Sessions.tcp, refl), tt) (omega arith)

-- A node joins a group with one back end, which is told, and a round of runWorker follows.
abbrev listening : GroupCore
listening = record empty { backends = networked.backends }

abbrev joined : GroupCore
joined = (connect named sixteen new_core 9 100 (97 ∷ []) 5 listening).0

abbrev newcomer : LocalNode
newcomer = (connect named sixteen new_core 9 100 (97 ∷ []) 5 listening).1

abbrev notified : GroupCore
notified = record joined { queue = []; stopped = false }

abbrev idle : Option ℕ → GroupCore → GroupCore
idle timeout c = c

history :
    History
      (3 ∷ [])
      listening
      (run_worker idle none notified)
      (node_available 3 newcomer ∷ [])
      (arrives newcomer ∷ works ∷ [])
unfolding connect post_each enabled_backends keep_if
history =
    work idle none
      (step (step start (refl, tt) (connected named sixteen new_core 9 100 (97 ∷ []) 5)) (refl, tt)
        (served (node_available 3 newcomer) [] false refl))
      (refl, tt) here

History-told_alike_example :
    All
      (λ b.
        told b (node_available 3 newcomer ∷ (run_worker idle none notified).queue)
        ≡ arrives newcomer ∷ works ∷ [])
      (3 ∷ [])
History-told_alike_example = History-told_alike (3 ∷ []) refl history

main_goes_on_example :
    ((true ≡ true)
      × (((t : Tcp) × (NetworkChat.main (84 ∷ []) in_order 2 3 ≡ finished (behind (84 ∷ []) 3 t))
            × HasOneRole t
            × IsUnique same_host t.sessions)
          ⊎ Broken conditions 3 (NetworkChat.main (84 ∷ []) in_order 2 3)))
    ⊎ ((true ≡ false) × ((v : Process) × (NetworkChat.main (84 ∷ []) in_order 2 4 ≡ failed v)))
main_goes_on_example =
    main_goes_on client conditions (84 ∷ []) in_order in_order-IsService (λ k. poll-Steps) 2 3
      (omega arith)
