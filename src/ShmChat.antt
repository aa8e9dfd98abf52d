-- ===== src/ShmChat.antt =====
-- example/shm/main.cpp: the program, up to its `exit(0)`; what stands behind that is never reached, and so
-- its callbacks, which only print, are not called. The shared segments, the mutex and the name of the
-- type SharedMemory are parameters; sleep is left out.
pub mod Undefined
use libgscale.Prelude.{ℕ, Bool, true, false, Option, none, some, List, [], ◌∷◌}
use libgscale.Words.{Bytes}
use libgscale.GroupCore.{GroupCore}
use libgscale.Group.{Group, Attached, attached, refused, new_group, attach_new}
use libgscale.SharedMemory
use libgscale.SharedMemory.{
  SharedMemory, new_shared_memory, Initialized, ready, no_lock, threw, destruct,
}
use libgscale.SharedMemory.Interprocess.{Segments}
use libgscale.Chat.{codes}

module _ (S : Segments) where
  -- How the program ends: by `exit`, with the group, the back end and the shared state, none of which
  -- is destroyed; by an exception; or by undefined behaviour.
  pub data Exit : Type 0 where
    exited : Group → SharedMemory → S.State → Exit
    terminated : S.State → Exit
    undefined : Exit

  -- Whether IBackend::initialize returns.
  abbrev pub returns : Initialized S → Bool
  returns (ready m s) = true
  returns (no_lock s) = false
  returns (threw s) = false

  abbrev pub left : Option S.State → Exit
  left none = undefined
  left (some s) = terminated s

  -- The object is deleted where attachBackend fails. Where `initialize` threw it has no segment, as
  -- when it was made.
  abbrev pub deleted : Initialized S → Exit
  deleted (ready m s) = left (destruct S m s)
  deleted (no_lock s) = left (destruct S new_shared_memory s)
  deleted (threw s) = left (destruct S new_shared_memory s)

  -- A back end that was not initialised is never attached.
  abbrev pub concluded : S.State → Initialized S → Attached × List ℕ → Exit
  concluded s (ready m t) (attached g, live) = exited g m t
  concluded s (no_lock t) (attached g, live) = undefined
  concluded s (threw t) (attached g, live) = undefined
  concluded s r (refused e, live) = deleted r
  concluded s r (Attached.undefined, live) = undefined

  abbrev pub attaching : Bool → ℕ → Bytes → Option ℕ → S.State → Option Group → Exit
  attaching locked errno type_name made s none = terminated s
  attaching locked errno type_name made s (some g) =
      let r = SharedMemory.initialize S locked 0 0 g.gcore new_shared_memory s in
      concluded s r (attach_new (λ b. returns r) errno type_name made [] g)

  -- main; `locked` says whether the mutex was had in time, and `made` is the object that `new` gives.
  unfoldable pub main : Bool → ℕ → Bytes → Option ℕ → S.State → Exit
  unfolding new_group
  main locked errno type_name made s =
      attaching locked errno type_name made s (new_group 0 (codes "chat-example"))
