-- ===== src/SharedMemory/Refused.antt =====
-- shm.cpp: initialize, whose segment has five bytes.
use libgscale.Prelude.{ℕ, ◌≡◌, refl, Bool, true, false, none, if◌then◌else◌}
use libgscale.Words.{Bytes}
use libgscale.GroupCore.{GroupCore}
use libgscale.SharedMemory.Interprocess.{Segments, IsLawful}
use libgscale.SharedMemory.{SharedMemory, no_lock, threw, memsize, attach_segment, initialize}

module _ (S : Segments) (lawful : IsLawful S) where
  attach_segment_small : (key : Bytes) (s : S.State) → attach_segment S key s ≡ none
  unfolding attach_segment
  attach_segment_small key s =
      rw
        (
          attach_segment,
          lawful.create_only_small s key memsize lawful.header_large,
          lawful.open_or_create_small s key memsize lawful.header_large,
        )
        refl

  -- For any group and any state of the shared memory `initialize` does not return: it throws for want
  -- of the lock, or as there is no room for a header in the segment.
  pub initialize_small :
      (locked : Bool) (groupc gdao : ℕ) (c : GroupCore) (m : SharedMemory) (s : S.State)
      → initialize S locked groupc gdao c m s ≡ (if locked then threw s else no_lock s)
  unfolding initialize
  initialize_small false groupc gdao c m s = refl
  initialize_small true groupc gdao c m s = rw (attach_segment_small _ s) refl
