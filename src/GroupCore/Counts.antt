-- ===== src/GroupCore/Counts.antt =====
-- groupcore.hpp: the reference counts that back ends hold on local nodes, as uint16_t.
use libgscale.Prelude.{
  subst, ℕ, ◌+◌, ◌-◌, ◌%◌, ◌<◌, ◌≡◌, refl, ap, ◌∙◌, Bool, false, some, List, [], ◌∷◌, arith, ◌==◌,
  All, Bool-cases, inl, inr, find_first,
}
use libgscale.Core.{Uuid}
use libgscale.MultiIndex.{update_first, IsUnique}
use libgscale.GroupCore.{GroupCore, ok, has_uuid, uuid_not_found}
use libgscale.GroupCore.Nodes.{increase_ref, decrease_ref, find_by_uuid, found_or}
use libgscale.GroupCore.Rows.{LocalNodeRow, u16_mod, row_uuid, node_clash}
use libgscale.GroupCore.Invariant.{IsConsistent}

-- Two changes of the first row that meets a test, of which the second undoes the first.
update_first-undo :
    (p : LocalNodeRow → Bool) (f g : LocalNodeRow → LocalNodeRow) (P : LocalNodeRow → Type 0)
    (t : List LocalNodeRow)
    → ((r : LocalNodeRow) → P r → (f (g r) ≡ r) × (p (g r) ≡ p r))
    → All P t
    → update_first p f (update_first p g t) ≡ t
unfolding update_first
update_first-undo p f g P [] undo a = refl
update_first-undo p f g P (r ∷ t) undo a = elim (Bool-cases (p r)) [
  | inl e ↦ rw (e, update_first, (undo r a.0).1, e) (ap (λ s. s ∷ t) (undo r a.0).0)
  | inr e ↦ rw (e, update_first, e) (ap (λ s. r ∷ s) (update_first-undo p f g P t undo a.1))
]

abbrev pub with_count : ℕ → LocalNodeRow → LocalNodeRow
with_count n r = record r { backendrefcount = n }

-- If every count fits its uint16_t, an increase and a decrease for one id undo one another in
-- either order, also where the count wraps between 65535 and 0.
increase_ref-decrease_ref :
    (id : ℕ) (c : GroupCore)
    → All (λ r. r.backendrefcount < u16_mod) c.localnodes
    → (decrease_ref id (increase_ref id c) ≡ c) × (increase_ref id (decrease_ref id c) ≡ c)
unfolding increase_ref decrease_ref
increase_ref-decrease_ref id c h = (
  ap (λ t. record c { localnodes = t })
      (update_first-undo _ _ _ (λ r. r.backendrefcount < u16_mod) c.localnodes
        (λ r k. (ap (λ n. with_count n r) (omega arith), refl)) h),
  ap (λ t. record c { localnodes = t })
      (update_first-undo _ _ _ (λ r. r.backendrefcount < u16_mod) c.localnodes
        (λ r k. (ap (λ n. with_count n r) (omega arith), refl)) h),
)

found-All :
    (p : LocalNodeRow → Bool) (P : LocalNodeRow → Type 0) (t : List LocalNodeRow) (r : LocalNodeRow)
    → find_first p t ≡ some r
    → All P t
    → P r
unfolding find_first
found-All p P [] r e a = cc
found-All p P (s ∷ t) r e a = elim (Bool-cases (p s)) [
  | inl k ↦ let same : s ≡ r = ground arith in subst P same a.0
  | inr k ↦ found-All p P t r (ground arith) a.1
]

update_first_found :
    (uuid : Uuid) (f : LocalNodeRow → LocalNodeRow) (t : List LocalNodeRow) (r : LocalNodeRow)
    → IsUnique node_clash t
    → find_first (has_uuid uuid) t ≡ some r
    → ((s : LocalNodeRow) → row_uuid (f s) ≡ row_uuid s)
    → find_first (has_uuid uuid) (update_first (λ s. s.id == r.id) f t) ≡ some (f r)
unfolding update_first find_first
update_first_found uuid f [] r u e same = cc
update_first_found uuid f (s ∷ t) r u e same = elim (Bool-cases (has_uuid uuid s)) [
  | inl k ↦ ground (arith, same s)
  | inr k ↦
      let rest = rw k at e in
      ground (
        arith,
        found-All (has_uuid uuid) (λ x. node_clash s x ≡ false) t r rest u.0,
        update_first_found uuid f t r u.1 rest same,
      )
]

-- In a consistent group, changing the count of the node that a uuid finds changes its row by one
-- modulo 65536, up or down, and nothing else of it.
pub find_by_uuid-decrease_ref :
    (uuid : Uuid) (c : GroupCore) (r : LocalNodeRow)
    → IsConsistent c
    → find_by_uuid uuid c ≡ ok r
    → (find_by_uuid uuid (increase_ref r.id c)
        ≡ ok (with_count ((r.backendrefcount + 1) % u16_mod) r))
      × (find_by_uuid uuid (decrease_ref r.id c)
          ≡ ok (with_count ((r.backendrefcount + 65535) % u16_mod) r))
unfolding find_by_uuid increase_ref decrease_ref
find_by_uuid-decrease_ref uuid c r v e =
    let there : find_first (has_uuid uuid) c.localnodes ≡ some r = ground arith in
    (
      ap (found_or (uuid_not_found uuid)) (
          update_first_found uuid (λ s. with_count ((s.backendrefcount + 1) % u16_mod) s)
            c.localnodes r v.nodes there (λ s. refl)),
      ap (found_or (uuid_not_found uuid)) (
            update_first_found uuid
              (λ s. with_count ((s.backendrefcount + u16_mod - 1) % u16_mod) s) c.localnodes r
              v.nodes there (λ s. refl))
          ∙ ap (λ n. ok (with_count n r)) (omega arith),
    )
