-- ===== src/GroupCore/Lost.antt =====
-- groupcore.cpp, runWorker: which local nodes a round leaves.
use libgscale.Prelude.{
  ℕ, ◌≡◌, refl, sym, subst, Bool, true, false, Option, some, none, List, [], ◌∷◌, arith, All,
  Bool-cases, find_first, keep_if, if◌then◌else◌, bytes_eq_iff, inl, inr, ◌==◌,
}
use libgscale.Words.{Bytes}
use libgscale.Core.{Uuid}
use libgscale.MultiIndex.{All-insert, All-update_first, All-erase, erase, IsUnique}
use libgscale.GroupCore.{
  GroupCore, ok, err, uuid_not_found, new_group_core, detach_backend, connect, disconnect,
  post_each, ready, run_worker, has_uuid, is_unreferenced,
}
use libgscale.GroupCore.Nodes.{find_by_uuid}
use libgscale.GroupCore.Rows.{LocalNodeRow, new_row, row_uuid, node_clash}
use libgscale.GroupCore.History.{
  Call, attached, detached, connected, disconnected, written, served, Steps, here, next, History,
  start, step, work,
}
use libgscale.GroupCore.Invariant.{IsConsistent, attach_backend-eq-ok, write-eq-some}

-- No back end holds a reference to a node.
abbrev IsUnreferenced : GroupCore → Type 0
IsUnreferenced c = All (λ r. r.backendrefcount ≡ 0) c.localnodes

Call-IsUnreferenced : {c d : GroupCore} → Call c d → IsUnreferenced c → IsUnreferenced d
unfolding detach_backend connect disconnect post_each new_row
Call-IsUnreferenced {c} (attached initialize errno type backend d e) v =
    subst IsUnreferenced (sym (attach_backend-eq-ok initialize errno type backend c d e)) v
Call-IsUnreferenced {c} (detached type) v = v
Call-IsUnreferenced {c} (connected named random core service now alias cbs) v =
    All-insert _ _ _ c.localnodes v refl
Call-IsUnreferenced {c} (disconnected now node) v = All-update_first _ _ _ c.localnodes (λ r h. h) v
Call-IsUnreferenced {c} (written packet d e) v =
    subst IsUnreferenced (sym (write-eq-some packet c d e)) v
Call-IsUnreferenced {c} (served queue stopped) v = v

Steps-IsUnreferenced : {c d : GroupCore} → Steps Call c d → IsUnreferenced c → IsUnreferenced d
Steps-IsUnreferenced here v = v
Steps-IsUnreferenced (next s k) v = Call-IsUnreferenced k (Steps-IsUnreferenced s v)

ready-IsUnreferenced : (c : GroupCore) → IsUnreferenced c → IsUnreferenced (ready c)
unfolding ready post_each
ready-IsUnreferenced c v = v

run_worker-IsUnreferenced :
    (run : Option ℕ → GroupCore → GroupCore) (timeout : Option ℕ) (c : GroupCore)
    → IsUnreferenced (run timeout (ready c))
    → IsUnreferenced (run_worker run timeout c)
unfolding run_worker
run_worker-IsUnreferenced run timeout c v =
    All-erase _ is_unreferenced (run timeout (ready c)).localnodes v

History-IsUnreferenced : {c d : GroupCore} → History Call c d → IsUnreferenced c → IsUnreferenced d
History-IsUnreferenced start v = v
History-IsUnreferenced (step h k) v = Call-IsUnreferenced k (History-IsUnreferenced h v)
History-IsUnreferenced (work {d} run timeout h s) v =
    run_worker-IsUnreferenced run timeout d
      (Steps-IsUnreferenced s (ready-IsUnreferenced d (History-IsUnreferenced h v)))

erase_unreferenced :
    (t : List LocalNodeRow) → All (λ r. r.backendrefcount ≡ 0) t → erase is_unreferenced t ≡ []
unfolding erase keep_if
erase_unreferenced [] v = refl
erase_unreferenced (r ∷ t) v = ground (arith, erase_unreferenced t v.1)

-- As long as nothing changes a reference count, a round of runWorker after any history of a group
-- leaves no local node, connected or not, and looking for any uuid throws.
pub run_worker_forgets :
    (group : ℕ) (gname : Bytes) (c d : GroupCore) (run : Option ℕ → GroupCore → GroupCore)
    (timeout : Option ℕ) (uuid : Uuid)
    → new_group_core group gname ≡ ok c
    → History Call c d
    → Steps Call (ready d) (run timeout (ready d))
    → ((run_worker run timeout d).localnodes ≡ [])
      × (find_by_uuid uuid (run_worker run timeout d) ≡ err (uuid_not_found uuid))
unfolding run_worker find_by_uuid find_first new_group_core
run_worker_forgets group gname c d run timeout uuid e h s =
    let nothing_left : erase is_unreferenced (run timeout (ready d)).localnodes ≡ [] =
      erase_unreferenced (run timeout (ready d)).localnodes (
        Steps-IsUnreferenced s
          (ready-IsUnreferenced d (History-IsUnreferenced h (ground arith)))) in
    rw nothing_left (refl, refl)

find_first-erase :
    (p q : LocalNodeRow → Bool) (t : List LocalNodeRow) (r : LocalNodeRow)
    → find_first p t ≡ some r
    → q r ≡ false
    → find_first p (erase q t) ≡ some r
unfolding find_first erase keep_if
find_first-erase p q [] r e h = cc
find_first-erase p q (s ∷ t) r e h = ground (arith, find_first-erase p q t r)

-- Two rows with one uuid clash.
clash_of_uuid :
    (uuid : Uuid) (r s : LocalNodeRow)
    → has_uuid uuid r ≡ true
    → has_uuid uuid s ≡ true
    → node_clash r s ≡ true
clash_of_uuid uuid r s h k = ground (
  arith,
  bytes_eq_iff (row_uuid r) uuid,
  bytes_eq_iff (row_uuid s) uuid,
  bytes_eq_iff (row_uuid r) (row_uuid s),
)

find_first-erase_rest :
    (uuid : Uuid) (q : LocalNodeRow → Bool) (r : LocalNodeRow) (t : List LocalNodeRow)
    → has_uuid uuid r ≡ true
    → All (λ s. node_clash r s ≡ false) t
    → find_first (has_uuid uuid) (erase q t) ≡ none
unfolding find_first erase keep_if
find_first-erase_rest uuid q r [] h a = refl
find_first-erase_rest uuid q r (s ∷ t) h a =
    ground (arith, find_first-erase_rest uuid q r t h a.1, clash_of_uuid uuid r s)

-- What was found is gone after it was erased, since no other row has its uuid.
find_first-erase-none :
    (uuid : Uuid) (q : LocalNodeRow → Bool) (t : List LocalNodeRow) (r : LocalNodeRow)
    → find_first (has_uuid uuid) t ≡ some r
    → q r ≡ true
    → IsUnique node_clash t
    → find_first (has_uuid uuid) (erase q t) ≡ none
unfolding find_first erase keep_if
find_first-erase-none uuid q [] r e h u = cc
find_first-erase-none uuid q (s ∷ t) r e h u = elim (Bool-cases (has_uuid uuid s)) [
  | inl k ↦ ground (arith, find_first-erase_rest uuid q s t k u.0)
  | inr k ↦ ground (arith, find_first-erase-none uuid q t r)
]

-- If the state that `run` leaves is consistent and has a node with a uuid, then after the round
-- the same row is found if its count is not 0, and looking for it throws if the count is 0.
find_by_uuid-run_worker :
    (run : Option ℕ → GroupCore → GroupCore) (timeout : Option ℕ) (c : GroupCore) (uuid : Uuid)
    (r : LocalNodeRow)
    → IsConsistent (run timeout (ready c))
    → find_by_uuid uuid (run timeout (ready c)) ≡ ok r
    → find_by_uuid uuid (run_worker run timeout c)
      ≡ (if r.backendrefcount == 0 then err (uuid_not_found uuid) else ok r)
unfolding run_worker find_by_uuid
find_by_uuid-run_worker run timeout c uuid r v e =
    let t = (run timeout (ready c)).localnodes in
    ground (
      arith,
      find_first-erase (has_uuid uuid) is_unreferenced t r,
      find_first-erase-none uuid is_unreferenced t r,
      v.nodes,
    )
