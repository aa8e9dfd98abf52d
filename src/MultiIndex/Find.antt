-- ===== src/MultiIndex/Find.antt =====
-- boost::multi_index_container, the lookup through a unique index: what it finds after each change
-- of the table, as an update of the function that takes a key to its row.
use libgscale.Prelude.{
  ◌≡◌, refl, inl, inr, Bool, true, false, Bool-cases, Option, Option-cases, none, some, List, [],
  ◌∷◌, ◌++◌, arith, any_of, find_first, if◌then◌else◌, bytes_eq, bytes_eq_iff, All, keep_if,
}
use libgscale.Words.{Bytes}
use libgscale.MultiIndex.{insert, update_first, erase, IsUnique}

abbrev pub Lookup {ℓ} : Type ℓ → Type ℓ
Lookup Row = Bytes → Option Row

module _ {ℓ} {Row : Type ℓ} where
  abbrev put_unless : Option Row → Row → Bool → Option Row → Option Row
  put_unless none r hit old = if hit then some r else old
  put_unless (some there) r hit old = old

  -- A new row under a key, unless the key has one.
  abbrev pub put : Bytes → Row → Lookup Row → Lookup Row
  put k r m k' = put_unless (m k) r (bytes_eq k k') (m k')

  abbrev pub mapped : (Row → Row) → Option Row → Option Row
  mapped f none = none
  mapped f (some r) = some (f r)

  -- A change of the row of a key.
  abbrev pub change : Bytes → (Row → Row) → Lookup Row → Lookup Row
  change k f m k' = if bytes_eq k k' then mapped f (m k') else m k'

  -- A change of the rows that meet a test.
  abbrev pub change_where : (Row → Bool) → (Row → Row) → Lookup Row → Lookup Row
  change_where p f m k = mapped (λ r. if p r then f r else r) (m k)

  abbrev unless : (Row → Bool) → Option Row → Option Row
  unless p none = none
  unless p (some r) = if p r then none else some r

  -- No row that meets a test.
  abbrev pub drop_where : (Row → Bool) → Lookup Row → Lookup Row
  drop_where p m k = unless p (m k)

module _ {ℓ} {Row : Type ℓ} (key : Row → Bytes) where
  -- The row of a key.
  abbrev pub row_of : List Row → Bytes → Option Row
  row_of t k = find_first (λ r. bytes_eq (key r) k) t

  abbrev pub is_some : Option Row → Bool
  is_some none = false
  is_some (some r) = true

  -- Whether a key has a row.
  pub any_of-is_some :
      (t : List Row) (k : Bytes) → any_of (λ r. bytes_eq (key r) k) t ≡ is_some (row_of t k)
  unfolding any_of find_first
  any_of-is_some [] k = refl
  any_of-is_some (r ∷ t) k = ground (arith, any_of-is_some t k)

  row_of-snoc :
      (r : Row) (t : List Row) (k : Bytes)
      → row_of t (key r) ≡ none
      → row_of (t ++ r ∷ []) k ≡ (if bytes_eq (key r) k then some r else row_of t k)
  unfolding find_first
  row_of-snoc r [] k e = refl
  row_of-snoc r (s ∷ t) k e = ground (
    arith,
    row_of-snoc r t k,
    bytes_eq_iff (key s) (key r),
    bytes_eq_iff (key s) k,
    bytes_eq_iff (key r) k,
  )

  -- An insertion that is refused exactly where the key has a row.
  pub row_of-insert :
      (clash : Row → Row → Bool) (r : Row) (t : List Row) (k : Bytes)
      → any_of (λ s. clash s r) t ≡ is_some (row_of t (key r))
      → row_of (insert clash r t) k ≡ put (key r) r (row_of t) k
  unfolding insert
  row_of-insert clash r t k e = elim (Option-cases (row_of t (key r))) [
    | inl n ↦ ground (arith, row_of-snoc r t k)
    | inr (old, h) ↦ ground arith
  ]

  pub row_of-update_first :
      (k : Bytes) (f : Row → Row) (t : List Row) (k' : Bytes)
      → ((r : Row) → key (f r) ≡ key r)
      → row_of (update_first (λ r. bytes_eq (key r) k) f t) k' ≡ change k f (row_of t) k'
  unfolding find_first update_first
  row_of-update_first k f [] k' keeps = ground arith
  row_of-update_first k f (r ∷ t) k' keeps = ground (
    arith,
    keeps r,
    row_of-update_first k f t k' keeps,
    bytes_eq_iff k k',
    bytes_eq_iff (key r) k',
    bytes_eq_iff (key r) k,
  )

  -- Where no two rows have one key, the row of a key that is erased leaves the key without a row.
  absent :
      (clash : Row → Row → Bool) (r : Row) (t : List Row) (k : Bytes)
      → ((r s : Row) → bytes_eq (key r) (key s) ≡ true → clash r s ≡ true)
      → All (λ s. clash r s ≡ false) t
      → bytes_eq (key r) k ≡ true
      → row_of t k ≡ none
  unfolding find_first
  absent clash r [] k keyed a h = refl
  absent clash r (s ∷ t) k keyed a h = ground (
    arith,
    absent clash r t k keyed a.1,
    keyed r s,
    bytes_eq_iff (key s) k,
    bytes_eq_iff (key r) k,
    bytes_eq_iff (key r) (key s),
  )

  pub row_of-erase :
      (clash : Row → Row → Bool) (p : Row → Bool) (t : List Row) (k : Bytes)
      → ((r s : Row) → bytes_eq (key r) (key s) ≡ true → clash r s ≡ true)
      → IsUnique clash t
      → row_of (erase p t) k ≡ drop_where p (row_of t) k
  unfolding erase keep_if find_first
  row_of-erase clash p [] k keyed u = refl
  row_of-erase clash p (r ∷ t) k keyed u =
      ground (arith, row_of-erase clash p t k keyed u.1, absent clash r t k keyed u.0)

  untouched :
      (clash : Row → Row → Bool) (p : Row → Bool) (f : Row → Row) (r : Row) (t : List Row)
      (k : Bytes)
      → p r ≡ true
      → ((s : Row) → p r ≡ true → p s ≡ true → clash r s ≡ true)
      → All (λ s. clash r s ≡ false) t
      → change_where p f (row_of t) k ≡ row_of t k
  unfolding find_first
  untouched clash p f r [] k h tested a = refl
  untouched clash p f r (s ∷ t) k h tested a =
      ground (arith, untouched clash p f r t k h tested a.1, tested s h)

  -- A test that two rows meet only where they clash, and that a change keeps.
  pub row_of-update_where :
      (clash : Row → Row → Bool) (p : Row → Bool) (f : Row → Row) (t : List Row) (k : Bytes)
      → ((r : Row) → key (f r) ≡ key r)
      → ((r s : Row) → p r ≡ true → p s ≡ true → clash r s ≡ true)
      → IsUnique clash t
      → row_of (update_first p f t) k ≡ change_where p f (row_of t) k
  unfolding find_first update_first
  row_of-update_where clash p f [] k keeps tested u = refl
  row_of-update_where clash p f (r ∷ t) k keeps tested u = elim (Bool-cases (p r)) [
    | inl e ↦ ground (arith, keeps r, untouched clash p f r t k e (tested r) u.0)
    | inr e ↦ ground (arith, keeps r, row_of-update_where clash p f t k keeps tested u.1)
  ]
