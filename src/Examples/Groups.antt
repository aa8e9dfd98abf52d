-- ===== src/Examples/Groups.antt =====
-- Runs of groupcore.cpp, groupcore.hpp and loopback.cpp.
use mathlib.Core.List.{Perm}
use libgscale.Prelude.{
  ℕ, ◌≡◌, refl, true, false, none, some, Option, [], ◌∷◌, ◌++◌, arith, if◌then◌else◌, bytes_eq,
  keep_if, leb, ltb, any_of, find_first,
}
use libgscale.Words.{Bytes}
use libgscale.Core.{new_core}
use libgscale.LocalNode.{new_local_node, LocalNode}
use libgscale.Node.{inode_of_alias}
use libgscale.MultiIndex.{insert, update_first}
use libgscale.GroupCore.{
  set_disconnect, GroupCore, node_available, node_unavailable, uuid_not_found, already_attached, ok,
  err, new_group_core, attach_backend, detach_backend, connect, disconnect, write, ready,
  run_worker, enabled_backends, post_each,
}
use libgscale.GroupCore.Nodes.{increase_ref, decrease_ref, range_by_created, find_by_uuid}
use libgscale.GroupCore.Rows.{disable, LocalNodeRow, new_row, new_backend_row, enable}
use libgscale.GroupCore.Directory
use libgscale.GroupCore.Directory.{view, replay}
use libgscale.GroupCore.Refinement.{new_group_core-replay}
use libgscale.GroupCore.History.{History, Step, start, step, work, here, call, connected, increased}
use libgscale.GroupCore.Invariant.{IsConsistent, new_group_core-IsConsistent}
use libgscale.GroupCore.Lost.{run_worker_forgets}
use libgscale.GroupCore.Namesakes.{disconnect_namesake}
use libgscale.GroupCore.Connect.{told, marked, connect_new, find_by_uuid-disconnect}
use libgscale.GroupCore.Backends.{attach_backend-detach_backend, write_attached}
use libgscale.GroupCore.Range.{IsOrdered, between, range_by_created_cases}
use libgscale.GroupCore.Counts.{with_count, find_by_uuid-decrease_ref}
use libgscale.Examples.{sixteen, named, alice, bob, letter}

abbrev pub empty : GroupCore
empty = record {
  localnodes = [];
  backends = [];
  sendqueue = [];
  connectcount = 0;
  gname = 103 ∷ [];
  queue = [];
  stopped = false;
  group = 1;
}

abbrev pub alice_node : LocalNode
alice_node = record { inode = alice; cbs = 5; io_service = 9 }

abbrev bob_node : LocalNode
bob_node = record { inode = bob; cbs = 6; io_service = 9 }

abbrev alice_row : LocalNodeRow
alice_row = record {
  id = 1;
  node = alice_node;
  time_connect = 100;
  time_disconnect = none;
  backendrefcount = 0;
}

abbrev pub bob_row : LocalNodeRow
bob_row = record {
  id = 2;
  node = bob_node;
  time_connect = 90;
  time_disconnect = none;
  backendrefcount = 1;
}

abbrev loop_type : Bytes
loop_type = 76 ∷ []

abbrev served : GroupCore
served = record empty {
  backends = record { backend = 3; type = loop_type; enabled = true; sendqueue = [] } ∷ [];
}

abbrev pub full : GroupCore
full = record served { localnodes = alice_row ∷ bob_row ∷ []; connectcount = 2 }

abbrev joined : GroupCore
joined = (connect named sixteen new_core 9 100 (97 ∷ []) 5 empty).0

abbrev idle : Option ℕ → GroupCore → GroupCore
idle timeout c = c

full-IsConsistent : IsConsistent full
unfolding bytes_eq
full-IsConsistent = ground arith

new_group_core-IsConsistent_example : IsConsistent joined
unfolding new_group_core
new_group_core-IsConsistent_example =
    new_group_core-IsConsistent 1 (103 ∷ []) empty joined refl
      (step start (call (connected named sixteen new_core 9 100 (97 ∷ []) 5)))

-- A node joins and is held, and a round of runWorker follows.
abbrev held : GroupCore
held = run_worker idle none (increase_ref 1 joined)

history : History Step empty held
history =
    work idle none
      (step (step start (call (connected named sixteen new_core 9 100 (97 ∷ []) 5))) (increased 1))
      here

new_group_core-replay_example : view held ≡ replay history Directory.empty
unfolding new_group_core
new_group_core-replay_example = new_group_core-replay 1 (103 ∷ []) empty held refl history

run_worker_forgets_example :
    ((run_worker idle none joined).localnodes ≡ [])
    × (find_by_uuid sixteen (run_worker idle none joined) ≡ err (uuid_not_found sixteen))
unfolding new_group_core
run_worker_forgets_example =
    run_worker_forgets 1 (103 ∷ []) empty joined idle none sixteen refl
      (step start (connected named sixteen new_core 9 100 (97 ∷ []) 5)) here

ready-full-IsConsistent : IsConsistent (ready full)
unfolding ready post_each bytes_eq
ready-full-IsConsistent = record {
  nodes = full-IsConsistent.nodes;
  ids = full-IsConsistent.ids;
  types = full-IsConsistent.types;
}

abbrev carol : GroupCore × LocalNode
carol = connect named sixteen new_core 9 110 (99 ∷ []) 8 full

abbrev dora : GroupCore × LocalNode
dora = connect named sixteen new_core 9 115 (99 ∷ []) 7 carol.0

connect_new_example :
    (find_by_uuid carol.1.nodeuuid carol.0 ≡ ok (new_row 3 carol.1 110))
    × (carol.0.connectcount ≡ 3)
    × (carol.0.queue ≡ [] ++ told (λ b. node_available b carol.1) full)
    × (carol.0.backends ≡ full.backends)
    × (carol.0.sendqueue ≡ full.sendqueue)
unfolding find_by_uuid find_first bytes_eq connect new_local_node inode_of_alias
connect_new_example =
    connect_new named sixteen new_core 9 110 (99 ∷ []) 8 full full-IsConsistent refl

abbrev again : GroupCore × LocalNode
again = connect named sixteen new_core 9 110 [] 8 full

-- Two clients with one alias, and a third connection with it.
disconnect_namesake_example :
    (dora.1.nodeuuid ≡ carol.1.nodeuuid)
    × (dora.0.localnodes ≡ carol.0.localnodes)
    × (find_by_uuid carol.1.nodeuuid (disconnect 120 dora.1 dora.0)
        ≡ ok (set_disconnect 120 (new_row 3 carol.1 110)))
    × (find_by_uuid carol.1.nodeuuid
          (connect named sixteen new_core 9 130 (99 ∷ []) 8 (disconnect 120 dora.1 dora.0)).0
        ≡ ok (set_disconnect 120 (new_row 3 carol.1 110)))
unfolding find_by_uuid find_first bytes_eq connect new_local_node inode_of_alias
disconnect_namesake_example =
    disconnect_namesake named new_core 9 (99 ∷ []) sixteen sixteen sixteen 110 115 130 120 8 7 8
      full (omega arith) full-IsConsistent refl

find_by_uuid-disconnect_example :
    (find_by_uuid sixteen (disconnect 120 alice_node full) ≡ (
      if bytes_eq sixteen sixteen
      then marked 120 (find_by_uuid sixteen full)
      else find_by_uuid sixteen full))
    × ((disconnect 120 alice_node full).queue
        ≡ [] ++ told (λ b. node_unavailable b alice_node) full)
find_by_uuid-disconnect_example = find_by_uuid-disconnect 120 alice_node full sixteen

attach_backend-detach_backend_example :
    (attach_backend (λ b. true) 0 loop_type 4 served ≡ err already_attached)
    × (attach_backend (λ b. true) 0 loop_type 4 (detach_backend loop_type served)
        ≡ err already_attached)
    × ((e : GroupCore) × (attach_backend
            (λ b. true)
            0
            loop_type
            4
            (run_worker idle none (detach_backend loop_type served))
          ≡ ok e))
unfolding attach_backend any_of insert enable new_backend_row detach_backend ready update_first
    post_each
attach_backend-detach_backend_example =
    attach_backend-detach_backend (λ b. true) 0 loop_type 3 empty served refl (λ b. true) 0 4 idle
      none refl refl

write_attached_example :
    ((e : GroupCore) × (write letter empty ≡ some e))
    × (write letter served ≡ none)
    × ((e : GroupCore) × (write letter (detach_backend loop_type served) ≡ some e))
    × ((e : GroupCore) × (write letter (run_worker idle none (detach_backend loop_type served))
          ≡ some e))
unfolding attach_backend any_of insert enable new_backend_row enabled_backends keep_if
    detach_backend update_first disable bytes_eq ready post_each
write_attached_example =
    write_attached (λ b. true) 0 loop_type 3 empty served letter idle none refl refl refl

range_by_created_cases_example :
    (range_by_created (some 100) (some 95) full ≡ range_by_created (some 95) (some 100) full)
    × IsOrdered 0 (range_by_created (some 95) (some 100) full)
    × Perm (range_by_created (some 95) (some 100) full) (keep_if (between 95 100) full.localnodes)
    × IsOrdered 0 (range_by_created (some 95) none full)
    × IsOrdered 0 (range_by_created none (some 95) full)
    × IsOrdered 0 (range_by_created none none full)
    × Perm
        (range_by_created (some 95) none full)
        (keep_if (λ r. ltb 95 r.time_connect) full.localnodes)
    × Perm
        (range_by_created none (some 95) full)
        (keep_if (λ r. leb r.time_connect 95) full.localnodes)
    × Perm (range_by_created none none full) (keep_if (λ r. true) full.localnodes)
range_by_created_cases_example = range_by_created_cases 95 100 full (omega arith)

find_by_uuid-decrease_ref_example :
    (find_by_uuid sixteen (increase_ref 1 full) ≡ ok (with_count 1 alice_row))
    × (find_by_uuid sixteen (decrease_ref 1 full) ≡ ok (with_count 65535 alice_row))
unfolding find_by_uuid find_first bytes_eq
find_by_uuid-decrease_ref_example =
    find_by_uuid-decrease_ref sixteen full alice_row full-IsConsistent refl
