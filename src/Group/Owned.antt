-- ===== src/Group/Owned.antt =====
-- group.hpp, attachBackend<T>: who holds the back end objects.
use libgscale.Prelude.{
  ℕ, ◌≡◌, ◌⊎◌, refl, ap, subst, Bool, true, false, not, inl, inr, Option, some, List, [], ◌∷◌,
  arith, any_of, keep_if, ◌==◌, All,
}
use libgscale.Words.{Bytes}
use libgscale.MultiIndex.{All-insert, All-update_first, All-erase, insert}
use libgscale.GroupCore
use libgscale.GroupCore.{
  new_group_core, GroupCore, Result, Error, ok, err, ready, post_each, has_type, is_disabled,
}
use libgscale.GroupCore.Rows.{BackendRow, enable, disable, new_backend_row, backend_clash}
use libgscale.GroupCore.Invariant.{attach_backend-eq-ok}
use libgscale.Group.{
  Group, new_group, attach_backend, detach_backend, run_worker, attached, refused, attach_new,
}

-- Among the objects that were made and not deleted.
abbrev pub is_live : List ℕ → ℕ → Bool
is_live live b = any_of (λ x. x == b) live

-- Every back end of the table is live.
abbrev pub IsOwned : List ℕ → List BackendRow → Type 0
IsOwned live rows = All (λ r. is_live live r.backend ≡ true) rows

-- What a client does with the back ends of a group that it made: attach new ones, with an object
-- that `new` has not given to anyone, detach, and run the worker, whose handlers leave the table of
-- back ends alone. The list holds the live objects.
pub data Life : Group → List ℕ → Type 0 where
  made : (group : ℕ) (gname : Bytes) (g : Group) → new_group group gname ≡ some g → Life g []
  accepted :
      (initialize : ℕ → Bool) (errno : ℕ) (type : Bytes) (b : ℕ) (g h : Group) (live after : List ℕ)
      → Life g live
      → is_live live b ≡ false
      → attach_new initialize errno type (some b) live g ≡ (attached h, after)
      → Life h after
  rejected :
      (initialize : ℕ → Bool) (errno : ℕ) (type : Bytes) (b : ℕ) (g : Group) (e : Error)
      (live after : List ℕ)
      → Life g live
      → is_live live b ≡ false
      → attach_new initialize errno type (some b) live g ≡ (refused e, after)
      → Life g after
  detached :
      (type : Bytes) (g : Group) (live : List ℕ) → Life g live → Life (detach_backend type g) live
  ran :
      (run : Option ℕ → GroupCore → GroupCore) (timeout : Option ℕ) (g : Group) (live : List ℕ)
      → Life g live
      → (run timeout (ready g.gcore)).backends ≡ g.gcore.backends
      → Life (run_worker run timeout g) live

keep_if-is_live :
    (live : List ℕ) (b : ℕ) → is_live live b ≡ false → keep_if (λ x. not (x == b)) live ≡ live
unfolding keep_if any_of
keep_if-is_live [] b h = refl
keep_if-is_live (x ∷ live) b h = ground (arith, keep_if-is_live live b)

self : (b : ℕ) → (b == b) ≡ true
self b = ground arith

Result-cases {ℓ} :
    {A : Type ℓ} (r : Result A) → ((a : A) × (r ≡ ok a)) ⊎ ((e : Error) × (r ≡ err e))
Result-cases (ok a) = inl (a, refl)
Result-cases (err e) = inr (e, refl)

-- Either the object is in the table and live, or it was deleted and all is as before.
attach_new_lem :
    (initialize : ℕ → Bool) (errno : ℕ) (type : Bytes) (b : ℕ) (g : Group) (live : List ℕ)
    → is_live live b ≡ false
    → ((h : Group) × (attach_new initialize errno type (some b) live g ≡ (attached h, b ∷ live))
        × (h.gcore.backends
            ≡ insert backend_clash (enable (new_backend_row b type)) g.gcore.backends))
      ⊎ ((e : Error) × (attach_new initialize errno type (some b) live g ≡ (refused e, live)))
unfolding attach_new attach_backend keep_if
attach_new_lem initialize errno type b g live fresh =
    elim (Result-cases (GroupCore.attach_backend initialize errno type b g.gcore)) [
      | inl (c, e) ↦ inl (
        record g { gcore = c },
        rw e refl,
        ap (λ (d : GroupCore). d.backends)
            (attach_backend-eq-ok initialize errno type b g.gcore c e),
      )
      | inr (x, e) ↦
          let same = self b in
          inr (x, rw (e, same) (ap (λ l. (refused x, l)) (keep_if-is_live live b fresh)))
    ]

IsOwned-cons :
    (live : List ℕ) (b : ℕ) (rows : List BackendRow) → IsOwned live rows → IsOwned (b ∷ live) rows
unfolding any_of
IsOwned-cons live b [] a = tt
IsOwned-cons live b (r ∷ rows) a = (ground (arith, a.0), IsOwned-cons live b rows a.1)

accepted-IsOwned :
    (initialize : ℕ → Bool) (errno : ℕ) (type : Bytes) (b : ℕ) (g h : Group) (live after : List ℕ)
    → is_live live b ≡ false
    → attach_new initialize errno type (some b) live g ≡ (attached h, after)
    → IsOwned live g.gcore.backends
    → IsOwned after h.gcore.backends
unfolding any_of enable new_backend_row
accepted-IsOwned initialize errno type b g h live after fresh e a =
    elim (attach_new_lem initialize errno type b g live fresh) [
      | inl (h', k, rows) ↦
          let same : (h' ≡ h) × (b ∷ live ≡ after) = ground (arith, k, e) in
          subst (λ d. IsOwned after d.gcore.backends) same.0
            (subst (λ l. IsOwned l h'.gcore.backends) same.1
              (rw rows (
                All-insert (λ r. is_live (b ∷ live) r.backend ≡ true) backend_clash
                  (enable (new_backend_row b type)) g.gcore.backends
                  (IsOwned-cons live b g.gcore.backends a) (rw (self b) refl))))
      | inr (x, k) ↦ absurd (ground (arith, k, e))
    ]

rejected_live :
    (initialize : ℕ → Bool) (errno : ℕ) (type : Bytes) (b : ℕ) (g : Group) (x : Error)
    (live after : List ℕ)
    → is_live live b ≡ false
    → attach_new initialize errno type (some b) live g ≡ (refused x, after)
    → live ≡ after
rejected_live initialize errno type b g x live after fresh e =
    elim (attach_new_lem initialize errno type b g live fresh) [
      | inl (h', k, rows) ↦ absurd (ground (arith, k, e))
      | inr (y, k) ↦ ground (arith, k, e)
    ]

made_backends :
    (group : ℕ) (gname : Bytes) (g : Group) → new_group group gname ≡ some g → g.gcore.backends ≡ []
unfolding new_group new_group_core
made_backends group gname g e = ground arith

-- However a client attaches back ends, each a new object, detaches them and runs the worker, whose
-- handlers leave the table of back ends alone, each back end in the group's table is an object that
-- was not deleted.
pub Life-IsOwned : {g : Group} {live : List ℕ} → Life g live → IsOwned live g.gcore.backends
unfolding detach_backend run_worker GroupCore.detach_backend GroupCore.run_worker disable
Life-IsOwned (made group gname g e) = rw (made_backends group gname g e) tt
Life-IsOwned (accepted initialize errno type b g h live after life fresh e) =
    accepted-IsOwned initialize errno type b g h live after fresh e (Life-IsOwned life)
Life-IsOwned (rejected initialize errno type b g x live after life fresh e) =
    subst (λ l. IsOwned l g.gcore.backends)
      (rejected_live initialize errno type b g x live after fresh e) (Life-IsOwned life)
Life-IsOwned (detached type g live life) =
    All-update_first _ (has_type type) disable g.gcore.backends (λ r h. h) (Life-IsOwned life)
Life-IsOwned (ran run timeout g live life same) =
    All-erase _ is_disabled _ (rw same (Life-IsOwned life))
