-- ===== src/ShmChat/Undefined.antt =====
-- example/shm/main.cpp over group.hpp and backend/shm.cpp: the program does not come to its end.
use libgscale.Prelude.{
  ℕ, ◌≡◌, inl, inr, refl, Bool, true, false, Bool-cases, Option, none, some, any_of, if◌then◌else◌,
  [], ap, ◌∙◌,
}
use libgscale.Words.{Bytes}
use libgscale.GroupCore
use libgscale.GroupCore.{has_type, new_group_core}
use libgscale.Group
use libgscale.Group.{Group, attach_new, new_group}
use libgscale.SharedMemory.{
  initialize, ready, Initialized, no_lock, threw, new_shared_memory, destruct,
}
use libgscale.SharedMemory.Interprocess.{Segments, IsLawful}
use libgscale.SharedMemory.Refused.{initialize_small}
use libgscale.ShmChat.{undefined, returns, concluded, attaching, main}

module _ (S : Segments) (lawful : IsLawful S) where
  -- What attachBackend<T> comes to where `initialize` throws, whether or not it is called.
  concluded_undefined :
      (errno : ℕ) (type_name : Bytes) (b : ℕ) (s : S.State) (g : Group) (r : Initialized S)
      → returns S r ≡ false
      → concluded S s r (attach_new (λ b. returns S r) errno type_name (some b) [] g) ≡ undefined
  unfolding attach_new Group.attach_backend GroupCore.attach_backend destruct new_shared_memory
  concluded_undefined errno type_name b s g (ready m t) h = absurd cc
  concluded_undefined errno type_name b s g (no_lock t) h =
      elim (Bool-cases (any_of (has_type type_name) g.gcore.backends)) [
        | inl e ↦ rw e refl
        | inr e ↦ rw e refl
      ]
  concluded_undefined errno type_name b s g (threw t) h =
      elim (Bool-cases (any_of (has_type type_name) g.gcore.backends)) [
        | inl e ↦ rw e refl
        | inr e ↦ rw e refl
      ]

  never_returns :
      (locked : Bool) (s : S.State) → returns S (if locked then threw s else no_lock s) ≡ false
  never_returns true s = refl
  never_returns false s = refl

  attaching_undefined :
      (locked : Bool) (errno : ℕ) (type_name : Bytes) (made : Option ℕ) (s : S.State) (g : Group)
      → attaching S locked errno type_name made s (some g) ≡ undefined
  unfolding attach_new
  attaching_undefined locked errno type_name none s g = refl
  attaching_undefined locked errno type_name (some b) s g =
      concluded_undefined errno type_name b s g _ (
        ap (returns S) (initialize_small S lawful locked 0 0 g.gcore new_shared_memory s)
        ∙ never_returns locked s)

  -- Where the segments are lawful, whether or not the lock is had and there is memory, and for any
  -- state of the shared memory: `initialize` throws for any group, and attaching the back end
  -- SharedMemory to any group is undefined, and so is the program, which never comes to its `exit`.
  -- Without memory the exception has no file; otherwise the object is deleted without a segment.
  pub main_undefined :
      (locked : Bool) (errno : ℕ) (type_name : Bytes) (made : Option ℕ) (s : S.State)
      → (main S locked errno type_name made s ≡ undefined)
        × ((g : Group)
            → (attaching S locked errno type_name made s (some g) ≡ undefined)
              × (initialize S locked 0 0 g.gcore new_shared_memory s
                  ≡ (if locked then threw s else no_lock s)))
  unfolding main new_group new_group_core
  main_undefined locked errno type_name made s = (
    attaching_undefined locked errno type_name made s _,
    λ g. (
      attaching_undefined locked errno type_name made s g,
      initialize_small S lawful locked 0 0 g.gcore new_shared_memory s,
    ),
  )
