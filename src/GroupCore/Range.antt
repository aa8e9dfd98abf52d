-- ===== src/GroupCore/Range.antt =====
-- groupcore.cpp, rangeByCreated and the reference counts.
use mathlib.Core.List.Perm
use libgscale.Prelude.{
  ℕ, ◌≤◌, ◌≡◌, refl, Bool, true, false, ◌&&◌, some, none, List, [], ◌∷◌, arith, keep_if, leb, ltb,
  Bool-cases, ◌⊎◌, inl, inr,
}
use libgscale.MultiIndex.{ordered, place}
use libgscale.GroupCore.{GroupCore}
use libgscale.GroupCore.Nodes.{by_time, range_by_created}
use libgscale.GroupCore.Rows.{LocalNodeRow}
use mathlib.Core.List.{Perm}

abbrev connect_time : LocalNodeRow → ℕ
connect_time r = r.time_connect

-- Connect times do not fall along the list, and the first is at least `n`.
abbrev pub IsOrdered : ℕ → List LocalNodeRow → Type 0
IsOrdered n [] = Unit {0}
IsOrdered n (r ∷ t) = (n ≤ r.time_connect) × IsOrdered r.time_connect t

IsOrdered-place :
    (n : ℕ) (r : LocalNodeRow) (t : List LocalNodeRow)
    → n ≤ r.time_connect
    → IsOrdered n t
    → IsOrdered n (place connect_time r t)
unfolding place
IsOrdered-place n r [] h o = (h, tt)
IsOrdered-place n r (s ∷ t) h o = ground (arith, IsOrdered-place s.time_connect r t)

IsOrdered-ordered : (t : List LocalNodeRow) → IsOrdered 0 (ordered connect_time t)
unfolding ordered
IsOrdered-ordered [] = tt
IsOrdered-ordered (r ∷ t) =
    IsOrdered-place 0 r (ordered connect_time t) (omega arith) (IsOrdered-ordered t)

IsOrdered-weaken : (m n : ℕ) (t : List LocalNodeRow) → m ≤ n → IsOrdered n t → IsOrdered m t
IsOrdered-weaken m n [] h o = tt
IsOrdered-weaken m n (r ∷ t) h o = (omega arith, o.1)

IsOrdered-keep_if :
    (p : LocalNodeRow → Bool) (n : ℕ) (t : List LocalNodeRow)
    → IsOrdered n t
    → IsOrdered n (keep_if p t)
unfolding keep_if
IsOrdered-keep_if p n [] o = tt
IsOrdered-keep_if p n (r ∷ t) o = elim (Bool-cases (p r)) [
  | inl e ↦ rw e (o.0, IsOrdered-keep_if p r.time_connect t o.1)
  | inr e ↦
      rw e (IsOrdered-weaken n r.time_connect _ o.0 (IsOrdered-keep_if p r.time_connect t o.1))
]

-- Ordering an index does not change which rows a range has.
Perm-keep_if-place :
    (p : LocalNodeRow → Bool) (r : LocalNodeRow) (t : List LocalNodeRow)
    → Perm (keep_if p (place connect_time r t)) (keep_if p (r ∷ t))
unfolding place keep_if
Perm-keep_if-place p r [] = Perm.refl _
Perm-keep_if-place p r (s ∷ t) = elim (Bool-cases (leb r.time_connect s.time_connect)) [
  | inl e ↦ rw e (Perm.refl _)
  | inr e ↦ rw e (later (Bool-cases (p r)) (Bool-cases (p s)) (Perm-keep_if-place p r t))
]
  where
    later :
        (p r ≡ true) ⊎ (p r ≡ false)
        → (p s ≡ true) ⊎ (p s ≡ false)
        → Perm (keep_if p (place connect_time r t)) (keep_if p (r ∷ t))
        → Perm (keep_if p (s ∷ place connect_time r t)) (keep_if p (r ∷ s ∷ t))
    later (inl h) (inl k) ih =
        rw (h, k) (Perm.trans (Perm.cons s (rw h at ih)) (Perm.swap r s (keep_if p t)))
    later (inl h) (inr k) ih = rw (h, k) (rw h at ih)
    later (inr h) (inl k) ih = rw (h, k) (Perm.cons s (rw h at ih))
    later (inr h) (inr k) ih = rw (h, k) (rw h at ih)

Perm-keep_if-ordered :
    (p : LocalNodeRow → Bool) (t : List LocalNodeRow)
    → Perm (keep_if p (ordered connect_time t)) (keep_if p t)
unfolding ordered keep_if
Perm-keep_if-ordered p [] = Perm.refl []
Perm-keep_if-ordered p (r ∷ t) =
    Perm.trans (Perm-keep_if-place p r (ordered connect_time t)) (elim (Bool-cases (p r)) [
      | inl h ↦ rw (h, keep_if) (Perm.cons r (Perm-keep_if-ordered p t))
      | inr h ↦ rw (h, keep_if) (Perm-keep_if-ordered p t)
    ])

-- What the four calls with one or two bounds are to return.
abbrev pub between : ℕ → ℕ → LocalNodeRow → Bool
between low high r = leb low r.time_connect && leb r.time_connect high

range_in_order :
    (low high : ℕ) (c : GroupCore)
    → low ≤ high
    → range_by_created (some low) (some high) c ≡ keep_if (between low high) (by_time c)
unfolding range_by_created
range_in_order low high c h = let e : ltb high low ≡ false = ground arith in rw e

range_swapped :
    (low high : ℕ) (c : GroupCore)
    → low ≤ high
    → range_by_created (some high) (some low) c ≡ keep_if (between low high) (by_time c)
unfolding range_by_created
range_swapped low high c h = elim (Bool-cases (ltb low high)) [
  | inl e ↦ rw e
  | inr e ↦ let same : low ≡ high = ground arith in rw (e, same)
]

range_by_created_both :
    (low high : ℕ) (c : GroupCore)
    → low ≤ high
    → (range_by_created (some high) (some low) c ≡ range_by_created (some low) (some high) c)
      × IsOrdered 0 (range_by_created (some low) (some high) c)
      × Perm (range_by_created (some low) (some high) c) (keep_if (between low high) c.localnodes)
range_by_created_both low high c h =
    rw (range_swapped low high c h, range_in_order low high c h)
      (
        refl,
        IsOrdered-keep_if _ 0 _ (IsOrdered-ordered c.localnodes),
        Perm-keep_if-ordered _ c.localnodes,
      )

range_by_created_open :
    (time : ℕ) (c : GroupCore)
    → IsOrdered 0 (range_by_created (some time) none c)
      × IsOrdered 0 (range_by_created none (some time) c)
      × IsOrdered 0 (range_by_created none none c)
      × Perm
          (range_by_created (some time) none c)
          (keep_if (λ r. ltb time r.time_connect) c.localnodes)
      × Perm
          (range_by_created none (some time) c)
          (keep_if (λ r. leb r.time_connect time) c.localnodes)
      × Perm (range_by_created none none c) (keep_if (λ r. true) c.localnodes)
unfolding range_by_created
range_by_created_open time c =
    let sorted = IsOrdered-ordered c.localnodes in
    (
      IsOrdered-keep_if _ 0 _ sorted,
      IsOrdered-keep_if _ 0 _ sorted,
      IsOrdered-keep_if _ 0 _ sorted,
      Perm-keep_if-ordered _ c.localnodes,
      Perm-keep_if-ordered _ c.localnodes,
      Perm-keep_if-ordered _ c.localnodes,
    )

-- The range between two times is the same whichever is given first. Its rows come in the order of
-- their connect times and are those of the table from the earlier time to the later, both
-- included. With a first time alone the range excludes the rows of exactly that time and has all
-- later ones; with a last time alone it has all rows up to and including it; with none it has all.
-- Each comes in the order of the connect times.
pub range_by_created_cases :
    (low high : ℕ) (c : GroupCore)
    → low ≤ high
    → (range_by_created (some high) (some low) c ≡ range_by_created (some low) (some high) c)
      × IsOrdered 0 (range_by_created (some low) (some high) c)
      × Perm (range_by_created (some low) (some high) c) (keep_if (between low high) c.localnodes)
      × IsOrdered 0 (range_by_created (some low) none c)
      × IsOrdered 0 (range_by_created none (some low) c)
      × IsOrdered 0 (range_by_created none none c)
      × Perm
          (range_by_created (some low) none c)
          (keep_if (λ r. ltb low r.time_connect) c.localnodes)
      × Perm
          (range_by_created none (some low) c)
          (keep_if (λ r. leb r.time_connect low) c.localnodes)
      × Perm (range_by_created none none c) (keep_if (λ r. true) c.localnodes)
range_by_created_cases low high c h =
    let both = range_by_created_both low high c h in
    let half = range_by_created_open low c in
    (both.0, both.1, both.2, half.0, half.1, half.2, half.3, half.4, half.5)
