-- ===== src/MultiIndex.antt =====
-- What the program uses of boost::multi_index_container, over the list of its rows in the order in
-- which they came in: an insertion is refused where a unique index already has the key, `find`
-- returns the row with a key, and `erase` drops a range. Which keys are unique is said where the
-- program declares its containers (util/groupcore.hpp).
pub mod Find
use libgscale.Prelude.{
  ℕ, ◌≡◌, ◌∙◌, inl, inr, Bool, false, not, List, [], ◌∷◌, ◌++◌, arith, leb, if◌then◌else◌,
  Bool-cases, keep_if, any_of, All, map,
}

module _ {ℓ} {Row : Type ℓ} where
  -- `insert`: refused if a row of the table has a unique key of the new one.
  unfoldable pub insert : (Row → Row → Bool) → Row → List Row → List Row
  insert clash r t = if any_of (λ s. clash s r) t then t else t ++ r ∷ []

  -- `replace(it, f(*it))` for the first row that meets a test, where `f` changes no unique key.
  unfoldable pub update_first : (Row → Bool) → (Row → Row) → List Row → List Row
  update_first p f [] = []
  update_first p f (r ∷ t) = let rest = update_first p f t in if p r then f r ∷ t else r ∷ rest

  -- `erase` of the range of rows that meet a test.
  unfoldable pub erase : (Row → Bool) → List Row → List Row
  erase p t = keep_if (λ r. not (p r)) t

  -- The order of an ordered index: by key, and rows with equal keys as they came in.
  unfoldable pub place : (Row → ℕ) → Row → List Row → List Row
  place key r [] = r ∷ []
  place key r (s ∷ t) =
      let rest = place key r t in if leb (key r) (key s) then r ∷ s ∷ t else s ∷ rest

  unfoldable pub ordered : (Row → ℕ) → List Row → List Row
  unfolding place
  ordered key [] = []
  ordered key (r ∷ t) = place key r (ordered key t)

  -- No two rows share a unique key.
  abbrev pub IsUnique : (Row → Row → Bool) → List Row → Type 0
  IsUnique clash [] = Unit
  IsUnique clash (r ∷ t) = All (λ s. clash r s ≡ false) t × IsUnique clash t

  pub All-any_of :
      (clash : Row → Row → Bool) (r : Row) (t : List Row)
      → any_of (λ s. clash s r) t ≡ false
      → All (λ s. clash s r ≡ false) t
  unfolding any_of
  All-any_of clash r [] h = tt
  All-any_of clash r (s ∷ t) h = (ground arith, All-any_of clash r t (ground arith))

  All-snoc : (P : Row → Type 0) (r : Row) (t : List Row) → All P t → P r → All P (t ++ r ∷ [])
  All-snoc P r [] a h = (h, tt)
  All-snoc P r (s ∷ t) a h = (a.0, All-snoc P r t a.1 h)

  pub IsUnique-snoc :
      (clash : Row → Row → Bool) (r : Row) (t : List Row)
      → IsUnique clash t
      → All (λ s. clash s r ≡ false) t
      → IsUnique clash (t ++ r ∷ [])
  IsUnique-snoc clash r [] u a = (tt, tt)
  IsUnique-snoc clash r (s ∷ t) u a =
      (All-snoc (λ x. clash s x ≡ false) r t u.0 a.0, IsUnique-snoc clash r t u.1 a.1)

  pub insert-IsUnique :
      (clash : Row → Row → Bool) (r : Row) (t : List Row)
      → IsUnique clash t
      → IsUnique clash (insert clash r t)
  unfolding insert
  insert-IsUnique clash r t u = elim (Bool-cases (any_of (λ s. clash s r) t)) [
    | inl e ↦ rw e u
    | inr e ↦ rw e (IsUnique-snoc clash r t u (All-any_of clash r t e))
  ]

  pub All-insert :
      (P : Row → Type 0) (clash : Row → Row → Bool) (r : Row) (t : List Row)
      → All P t
      → P r
      → All P (insert clash r t)
  unfolding insert
  All-insert P clash r t a h = elim (Bool-cases (any_of (λ s. clash s r) t)) [
    | inl e ↦ rw e a
    | inr e ↦ rw e (All-snoc P r t a h)
  ]

  pub All-erase : (P : Row → Type 0) (p : Row → Bool) (t : List Row) → All P t → All P (erase p t)
  unfolding erase keep_if
  All-erase P p [] a = tt
  All-erase P p (r ∷ t) a = elim (Bool-cases (p r)) [
    | inl e ↦ rw e (All-erase P p t a.1)
    | inr e ↦ rw e (a.0, All-erase P p t a.1)
  ]

  pub erase-IsUnique :
      (clash : Row → Row → Bool) (p : Row → Bool) (t : List Row)
      → IsUnique clash t
      → IsUnique clash (erase p t)
  unfolding erase keep_if
  erase-IsUnique clash p [] u = tt
  erase-IsUnique clash p (r ∷ t) u = elim (Bool-cases (p r)) [
    | inl e ↦ rw e (erase-IsUnique clash p t u.1)
    | inr e ↦ rw e (All-erase (λ s. clash r s ≡ false) p t u.0, erase-IsUnique clash p t u.1)
  ]

  -- Every row that is left fails the test.
  pub erase-All : (p : Row → Bool) (t : List Row) → All (λ r. p r ≡ false) (erase p t)
  unfolding erase keep_if
  erase-All p [] = tt
  erase-All p (r ∷ t) = elim (Bool-cases (p r)) [
    | inl e ↦ rw e (erase-All p t)
    | inr e ↦ rw (e, erase) (e, erase-All p t)
  ]

  pub All-update_first :
      (P : Row → Type 0) (p : Row → Bool) (f : Row → Row) (t : List Row)
      → ((r : Row) → P r → P (f r))
      → All P t
      → All P (update_first p f t)
  unfolding update_first
  All-update_first P p f [] keeps a = tt
  All-update_first P p f (r ∷ t) keeps a = elim (Bool-cases (p r)) [
    | inl e ↦ rw e (keeps r a.0, a.1)
    | inr e ↦ rw e (a.0, All-update_first P p f t keeps a.1)
  ]

  pub All-map : (P Q : Row → Type 0) (t : List Row) → ((r : Row) → P r → Q r) → All P t → All Q t
  All-map P Q [] h a = tt
  All-map P Q (r ∷ t) h a = (h r a.0, All-map P Q t h a.1)

  pub update_first-IsUnique :
      (clash : Row → Row → Bool) (p : Row → Bool) (f : Row → Row) (t : List Row)
      → ((r s : Row) → (clash (f r) s ≡ clash r s) × (clash s (f r) ≡ clash s r))
      → IsUnique clash t
      → IsUnique clash (update_first p f t)
  unfolding update_first
  update_first-IsUnique clash p f [] keys u = tt
  update_first-IsUnique clash p f (r ∷ t) keys u = elim (Bool-cases (p r)) [
    | inl e ↦ rw e (
      All-map (λ s. clash r s ≡ false) (λ s. clash (f r) s ≡ false) t (λ s h. (keys r s).0 ∙ h) u.0,
      u.1,
    )
    | inr e ↦ rw e (
      All-update_first (λ s. clash r s ≡ false) p f t (λ s h. (keys s r).1 ∙ h) u.0,
      update_first-IsUnique clash p f t keys u.1,
    )
  ]

  All-map_list :
      (P : Row → Type 0) (f : Row → Row) (t : List Row)
      → ((s : Row) → P s → P (f s))
      → All P t
      → All P (map f t)
  All-map_list P f [] keeps a = tt
  All-map_list P f (s ∷ t) keeps a = (keeps s a.0, All-map_list P f t keeps a.1)

  pub map-IsUnique :
      (clash : Row → Row → Bool) (f : Row → Row) (t : List Row)
      → ((r s : Row) → (clash (f r) s ≡ clash r s) × (clash s (f r) ≡ clash s r))
      → IsUnique clash t
      → IsUnique clash (map f t)
  map-IsUnique clash f [] keys u = tt
  map-IsUnique clash f (r ∷ t) keys u = (
    All-map_list (λ s. clash (f r) s ≡ false) f t (λ s h. (keys s (f r)).1 ∙ h)
        (All-map (λ s. clash r s ≡ false) (λ s. clash (f r) s ≡ false) t (λ s h. (keys r s).0 ∙ h)
          u.0),
    map-IsUnique clash f t keys u.1,
  )
