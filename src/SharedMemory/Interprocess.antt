-- ===== src/SharedMemory/Interprocess.antt =====
-- What backend/shm.cpp uses of Boost.Interprocess: named segments of shared memory, which processes
-- make, open and remove by name, and objects with names inside them. A call that throws gives
-- `none` and leaves the state.
use libgscale.Prelude.{ℕ, ◌≡◌, ◌<◌, Option, none}
use libgscale.Words.{Bytes}

pub record Segments : Type 1 where
  pub State : Type 0
  -- The size of what the library puts at the beginning of a segment.
  pub header : ℕ
  -- managed_shared_memory with create_only and with open_or_create, for a name and a size.
  pub create_only : State → Bytes → ℕ → Option (ℕ × State)
  pub open_or_create : State → Bytes → ℕ → Option (ℕ × State)
  -- shared_memory_object::remove, with what it throws caught.
  pub remove : State → Bytes → State
  -- construct and find_or_construct of an object with a name in a segment.
  pub construct : State → ℕ → Bytes → Option State
  pub find_or_construct : State → ℕ → Bytes → Option State
  -- destroy of the object with a name in a segment.
  pub destroy : State → ℕ → Bytes → Option State

-- A size without room for the header is refused with `size_error`, also where a segment with the name
-- is there to be opened; the header has a word for the state and an alignment, so more than 5 bytes.
pub record IsLawful (S : Segments) : Type 0 where
  pub header_large : 5 < S.header
  pub create_only_small :
      (s : S.State) (n : Bytes) (size : ℕ) → size < S.header → S.create_only s n size ≡ none
  pub open_or_create_small :
      (s : S.State) (n : Bytes) (size : ℕ) → size < S.header → S.open_or_create s n size ≡ none
