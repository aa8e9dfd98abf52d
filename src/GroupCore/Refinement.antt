-- ===== src/GroupCore/Refinement.antt =====
-- groupcore.cpp: the three containers of a group implement the directory of GroupCore/Directory.
use libgscale.Prelude.{
  ℕ, ◌+◌, ◌-◌, ◌%◌, ◌≡◌, ◌∙◌, ◌≤◌, All, refl, ap, true, Option, find_first, arith, any_of, ◌==◌,
  bytes_eq, List, [], ◌∷◌,
}
use libgscale.Words.{Bytes}
use libgscale.MultiIndex.Find.{
  row_of, row_of-insert, row_of-update_first, row_of-erase, row_of-update_where, is_some,
  any_of-is_some,
}
use libgscale.LocalNode.{new_local_node}
use libgscale.GroupCore.{
  GroupCore, ok, new_group_core, detach_backend, connect, disconnect, ready, run_worker, post_each,
  set_disconnect, is_unreferenced, is_disabled,
}
use libgscale.GroupCore.Nodes.{increase_ref, decrease_ref}
use libgscale.GroupCore.Rows.{
  LocalNodeRow, new_row, row_uuid, node_clash, backend_clash, enable, disable, new_backend_row,
  u16_mod,
}
use libgscale.GroupCore.History.{
  Call, attached, detached, connected, disconnected, written, served, Step, call, increased,
  decreased, Steps, here, next, History, start, step, work,
}
use libgscale.GroupCore.Invariant.{
  IsConsistent, Steps-IsConsistent, ready-IsConsistent, History-IsConsistent, attach_backend-eq-ok,
  write-eq-some, new_group_core-IsConsistent,
}
use libgscale.GroupCore.Counts.{with_count}
use libgscale.GroupCore.Directory.{
  Directory, view, empty, replay_call, replay_step, replay_steps, swept, replay,
}

-- A directory is its three parts.
directory_eq :
    (s u : Directory)
    → ((k : Bytes) → s.nodes k ≡ u.nodes k)
    → ((k : Bytes) → s.types k ≡ u.types k)
    → s.connections ≡ u.connections
    → s ≡ u
directory_eq s u a b c = λ i. record { nodes = λ k. a k i; types = λ k. b k i; connections = c i }

-- A node with the next id is refused exactly where its uuid has a row.
any_of-node_clash :
    (n : ℕ) (r : LocalNodeRow) (t : List LocalNodeRow)
    → r.id ≡ n + 1
    → All (λ s. s.id ≤ n) t
    → any_of (λ s. node_clash s r) t ≡ is_some row_uuid (row_of row_uuid t (row_uuid r))
unfolding any_of find_first
any_of-node_clash n r [] e a = refl
any_of-node_clash n r (s ∷ t) e a = ground (arith, any_of-node_clash n r t e a.1)

same_id :
    (id : ℕ) (r s : LocalNodeRow)
    → (r.id == id) ≡ true
    → (s.id == id) ≡ true
    → node_clash r s ≡ true
same_id id r s h k = ground arith

Call-view : {c d : GroupCore} (k : Call c d) → IsConsistent c → view d ≡ replay_call k (view c)
unfolding view replay_call detach_backend connect disconnect post_each disable enable
    new_backend_row new_row
Call-view {c} (attached initialize errno type backend d e) v =
    ap view (attach_backend-eq-ok initialize errno type backend c d e)
    ∙ directory_eq _ _ (λ k. refl)
        (λ k.
          row_of-insert (λ r. r.type) backend_clash (enable (new_backend_row backend type))
            c.backends k (any_of-is_some (λ r. r.type) c.backends type))
        refl
Call-view {c} (detached type) v =
    directory_eq _ _ (λ k. refl)
      (λ k. row_of-update_first (λ r. r.type) type disable c.backends k (λ r. refl)) refl
Call-view {c} (connected named random core service now alias cbs) v =
    let node = new_local_node named random core service alias cbs in
    let row = new_row (c.connectcount + 1) node now in
    directory_eq _ _
      (λ k.
        row_of-insert row_uuid node_clash row c.localnodes k
          (any_of-node_clash c.connectcount row c.localnodes refl v.ids))
      (λ k. refl) refl
Call-view {c} (disconnected now node) v =
    directory_eq _ _
      (λ k.
        row_of-update_first row_uuid node.nodeuuid (set_disconnect now) c.localnodes k (λ r. refl))
      (λ k. refl) refl
Call-view {c} (written packet d e) v = ap view (write-eq-some packet c d e)
Call-view {c} (served queue stopped) v = refl

Step-view : {c d : GroupCore} (k : Step c d) → IsConsistent c → view d ≡ replay_step k (view c)
unfolding view replay_step increase_ref decrease_ref
Step-view (call k) v = Call-view k v
Step-view {c} (increased id) v =
    directory_eq _ _
      (λ k.
        row_of-update_where row_uuid node_clash (λ r. r.id == id)
          (λ r. with_count ((r.backendrefcount + 1) % u16_mod) r) c.localnodes k (λ r. refl)
          (same_id id) v.nodes)
      (λ k. refl) refl
Step-view {c} (decreased id) v =
    directory_eq _ _
      (λ k.
        row_of-update_where row_uuid node_clash (λ r. r.id == id)
          (λ r. with_count ((r.backendrefcount + u16_mod - 1) % u16_mod) r) c.localnodes k
          (λ r. refl) (same_id id) v.nodes)
      (λ k. refl) refl

Steps-view :
    {c d : GroupCore} (h : Steps Step c d) → IsConsistent c → view d ≡ replay_steps h (view c)
unfolding replay_steps
Steps-view here v = refl
Steps-view (next h k) v = Step-view k (Steps-IsConsistent h v) ∙ ap (replay_step k) (Steps-view h v)

same_uuid : (r s : LocalNodeRow) → bytes_eq (row_uuid r) (row_uuid s) ≡ true → node_clash r s ≡ true
same_uuid r s h = ground arith

ready-view : (c : GroupCore) → view (ready c) ≡ view c
unfolding view ready post_each
ready-view c = refl

run_worker-view :
    (run : Option ℕ → GroupCore → GroupCore) (timeout : Option ℕ) (c : GroupCore)
    → IsConsistent (run timeout (ready c))
    → view (run_worker run timeout c) ≡ swept (view (run timeout (ready c)))
unfolding view swept run_worker
run_worker-view run timeout c v =
    let d = run timeout (ready c) in
    directory_eq _ _
      (λ k. row_of-erase row_uuid node_clash is_unreferenced d.localnodes k same_uuid v.nodes)
      (λ k. row_of-erase (λ r. r.type) backend_clash is_disabled d.backends k (λ r s h. h) v.types)
      refl

History-view :
    {c d : GroupCore} (h : History Step c d) → IsConsistent c → view d ≡ replay h (view c)
unfolding replay
History-view start v = refl
History-view (step h k) v =
    Step-view k (History-IsConsistent h v) ∙ ap (replay_step k) (History-view h v)
History-view (work {d} run timeout h k) v =
    let before = ready-IsConsistent d (History-IsConsistent h v) in
    run_worker-view run timeout d (Steps-IsConsistent k before)
    ∙ ap swept (Steps-view k before ∙ ap (replay_steps k) (ready-view d ∙ History-view h v))

made-view :
    (group : ℕ) (gname : Bytes) (c : GroupCore) → new_group_core group gname ≡ ok c → view c ≡ empty
unfolding view new_group_core empty find_first
made-view group gname c e =
    let nodes : c.localnodes ≡ [] = ground arith in
    let types : c.backends ≡ [] = ground arith in
    let count : c.connectcount ≡ 0 = ground arith in
    directory_eq _ _ (λ k. rw nodes refl) (λ k. rw types refl) count

-- After the construction of a group and any history of calls, of changes of reference counts and of
-- rounds of runWorker, what the group's tables give for each uuid and each back end type, and the
-- number of connections, are what the same history makes of the empty directory: an abstract map
-- from uuids to nodes and one from types to back ends. There a call changes its own key, a change
-- of a count the nodes with the id, and a round of runWorker drops nodes without a reference and
-- detached back ends.
pub new_group_core-replay :
    (group : ℕ) (gname : Bytes) (c d : GroupCore)
    → new_group_core group gname ≡ ok c
    → (h : History Step c d) → view d ≡ replay h empty
new_group_core-replay group gname c d e h =
    History-view h (new_group_core-IsConsistent group gname c c e start)
    ∙ ap (replay h) (made-view group gname c e)
