-- ===== src/Chat/Program.antt =====
-- example/loopback/main.cpp: the program. The names of types, the generators of uuids and the clock are
-- parameters, and so are the callbacks and the service.
use libgscale.Prelude.{
  ℕ, ◌≡◌, refl, ap, true, false, Option, none, some, List, [], ◌∷◌, keep_if, any_of,
}
use libgscale.Words.{Bytes}
use libgscale.Core.{Uuid, Core}
use libgscale.LocalNode.{LocalNode, Callback}
use libgscale.GroupCore
use libgscale.GroupCore.{GroupCore, node_available, new_group_core, enabled_backends, post_each}
use libgscale.GroupCore.Rows.{new_backend_row, enable}
use libgscale.MultiIndex.{insert}
use libgscale.Group
use libgscale.Group.{Group, Attached, attached, refused, new_group, attach_new}
use libgscale.Loopback
use libgscale.Loopback.{new_loopback}
use libgscale.Loopback.Endless.{insert-ne-nil}
use libgscale.Service.{
  Object, loopback, Conditions, Process, Ran, running, undefined, and_then, IsService, run_worker,
}
use libgscale.Service.Endless.{run_worker_endless}
use libgscale.Chat.{codes}

-- What the program finds: the generators, the host, the service's number, the clock and the name of
-- the type Loopback.
pub record Machine : Type 0 where
  pub named : Uuid → Bytes → Uuid
  pub random : Uuid
  pub core : Core
  pub service : ℕ
  pub clock : ℕ → ℕ
  pub type_name : Bytes

-- A group with one back end, the object of number 0, whose `initialize` returns; `none` ends a program
-- by an exception or in undefined behaviour.
abbrev pub with_object : Object → Attached × List ℕ → Option Process
with_object o (attached g, live) =
    some (record { core = g.gcore; objects = (0, o) ∷ []; pending = []; calls = 0 })
with_object o (refused e, live) = none
with_object o (Attached.undefined, live) = none

abbrev pub begun : Bytes → Object → Option Group → Option Process
begun type_name o none = none
begun type_name o (some g) = with_object o (attach_new (λ b. true) 0 type_name (some 0) [] g)

module _ (m : Machine) (cbs : ℕ) (run : ℕ → Process → Ran) where
  abbrev join : ℕ → Bytes → Process → Process × LocalNode
  join k alias w =
      let done =
        Group.connect m.named m.random m.core m.service (m.clock k) alias cbs
          (record { gcore = w.core }) in
      (record w { core = done.0.gcore }, done.1)

  abbrev join_unnamed : ℕ → Process → Process × LocalNode
  join_unnamed k w =
      let done =
        Group.connect_unnamed m.named m.random m.core m.service (m.clock k) cbs
          (record { gcore = w.core }) in
      (record w { core = done.0.gcore }, done.1)

  abbrev leave : ℕ → LocalNode → Process → Process
  leave k node w = record w {
    core = (Group.disconnect (m.clock k) node (record { gcore = w.core })).gcore;
  }

  -- The three nodes join; the program works, they leave, and it works again.
  abbrev conversation : ℕ → Process → Ran
  conversation fuel w =
      let (w1, carol) = join 1 (codes "Carol") w in
      let (w2, carlos) = join 2 (codes "Carlos") w1 in
      let (w3, nameless) = join_unnamed 3 w2 in
      and_then (λ v. run_worker run fuel (leave 6 carol (leave 5 nameless (leave 4 carlos v))))
        (run_worker run fuel w3)

  abbrev from : ℕ → Option Process → Ran
  from fuel none = undefined
  from fuel (some w) = conversation fuel w

  -- main
  unfoldable pub main : ℕ → Ran
  unfolding new_group attach_new
  main fuel = from fuel (
      begun m.type_name (loopback (Loopback.initialize 0 0 new_loopback))
        (new_group 0 (codes "chat-example")))

-- The program never comes back from its first runWorker: the first handler of its service tells the
-- loopback back end of the first node. So it is for whatever the generators of uuids and the clock
-- give, and for any callbacks and service: no amount of fuel is enough, and no node ever leaves.
pub main_never_ends :
    (client : Callback → GroupCore → Option GroupCore) (conditions : ℕ → Conditions)
    (run : ℕ → Process → Ran) (m : Machine) (cbs : ℕ)
    → IsService client conditions run
    → (fuel : ℕ) → main m cbs run fuel ≡ running
unfolding main new_group_core GroupCore.attach_backend Group.attach_backend insert any_of
    Group.connect Group.connect_unnamed GroupCore.connect post_each enabled_backends keep_if
    new_backend_row enable
main_never_ends client conditions run m cbs service fuel =
    let w : Process = record {
      core = record {
        localnodes = [];
        backends = enable (new_backend_row 0 m.type_name) ∷ [];
        sendqueue = [];
        connectcount = 0;
        gname = codes "chat-example";
        queue = [];
        stopped = false;
        group = 0;
      };
      objects = (0, loopback (Loopback.initialize 0 0 new_loopback)) ∷ [];
      pending = [];
      calls = 0;
    } in
    let (w1, carol) = join m cbs run 1 (codes "Carol") w in
    let (w2, carlos) = join m cbs run 2 (codes "Carlos") w1 in
    let (w3, nameless) = join_unnamed m cbs run 3 w2 in
    ap
      (and_then (λ v.
        run_worker run fuel
          (leave m cbs run 6 carol (leave m cbs run 5 nameless (leave m cbs run 4 carlos v)))))
      (run_worker_endless client conditions run service fuel 0 0 0 new_loopback carol
        (node_available 0 carlos ∷ node_available 0 nameless ∷ []) w3 refl refl refl
        (insert-ne-nil _ w2.core.localnodes))
