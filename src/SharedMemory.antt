-- ===== src/SharedMemory.antt =====
-- backend/shm.cpp and shm.hpp: the back end over shared memory, as far as it is not commented out.
-- The output to std::cout is left out, and so is the code behind the two early returns.
pub mod Interprocess
pub mod Refused
pub mod Table
use libgscale.Prelude.{
  ℕ, zero, Bool, true, false, Option, none, some, List, [], ◌∷◌, ◌++◌, if◌then◌else◌,
}
use libgscale.Words.{Bytes}
use libgscale.GroupCore.{GroupCore, get_name}
use libgscale.LocalNode.{LocalNode}
use libgscale.Packet.{Packet}
use Interprocess.{Segments}

-- The pointers of the object: `shm` by its segment, `shm_circular_buffer` by the name of the object
-- in the segment.
pub record SharedMemory : Type 0 where
  pub shm : Option ℕ
  pub shm_circular_buffer : Option Bytes
  pub groupc : Option ℕ
  pub gdao : Option ℕ
  pub ipckey : Bytes

-- SharedMemory::SharedMemory
unfoldable pub new_shared_memory : SharedMemory
new_shared_memory = record {
  shm = none;
  shm_circular_buffer = none;
  groupc = none;
  gdao = none;
  ipckey = [];
}

-- ":circular_buffer"
abbrev pub buffer_name : Bytes → Bytes
buffer_name key =
    key
    ++ b':' ∷ b'c' ∷ b'i' ∷ b'r' ∷ b'c' ∷ b'u' ∷ b'l' ∷ b'a' ∷ b'r' ∷ b'_' ∷ b'b' ∷ b'u' ∷ b'f'
      ∷ b'f' ∷ b'e' ∷ b'r' ∷ []

-- The size of a new segment.
abbrev pub memsize : ℕ
memsize = 5

module _ (S : Segments) where
  -- How `initialize` ends: by returning, with the object and the shared state; by the string
  -- "failed", without the lock; or by an exception of Boost.Interprocess.
  pub data Initialized : Type 0 where
    ready : SharedMemory → S.State → Initialized
    no_lock : S.State → Initialized
    threw : S.State → Initialized

  -- Both branches of the attempt to get the segment: it is made, or opened, and its name removed.
  unfoldable pub attach_segment : Bytes → S.State → Option (ℕ × S.State)
  attach_segment key s = elim (S.create_only s key memsize) [
    | some (seg, t) ↦ some (seg, S.remove t key)
    | none ↦ elim (S.open_or_create s key memsize) [
      | some (seg, t) ↦ some (seg, S.remove t key)
      | none ↦ none
    ]
  ]

  -- The construction of the buffer in the segment. Where that throws twice, the exception is caught
  -- and the pointer stays as it was.
  unfoldable pub attach_buffer : SharedMemory → ℕ → S.State → Initialized
  attach_buffer m seg s = elim (S.construct s seg (buffer_name m.ipckey)) [
    | some t ↦ ready (record m { shm_circular_buffer = some (buffer_name m.ipckey) }) t
    | none ↦ elim (S.find_or_construct s seg (buffer_name m.ipckey)) [
      | some t ↦ ready (record m { shm_circular_buffer = some (buffer_name m.ipckey) }) t
      | none ↦ ready m s
    ]
  ]

  -- SharedMemory::initialize; `locked` says whether the mutex was had within two seconds.
  unfoldable pub initialize : Bool → ℕ → ℕ → GroupCore → SharedMemory → S.State → Initialized
  initialize locked groupc gdao c m s =
      let named : SharedMemory = record m {
        groupc = some groupc;
        gdao = some gdao;
        ipckey = get_name c;
      } in
      if locked
      then elim (attach_segment named.ipckey s) [
        | none ↦ threw s
        | some (seg, t) ↦ attach_buffer (record named { shm = some seg }) seg t
      ]
      else no_lock s

  abbrev pub named_removed : Bytes → S.State → Option S.State → S.State
  named_removed key s none = s
  named_removed key s (some t) = S.remove t key

  -- SharedMemory::~SharedMemory; `none` is a call through the pointer `shm` that was never set, and
  -- what `destroy` throws is caught.
  unfoldable pub destruct : SharedMemory → S.State → Option S.State
  destruct m s = elim m.shm [
    | none ↦ none
    | some seg ↦ some (named_removed m.ipckey s (S.destroy s seg (buffer_name m.ipckey)))
  ]

  -- The shared state that is left.
  abbrev pub state_of : Initialized → S.State
  state_of (ready m s) = s
  state_of (no_lock s) = s
  state_of (threw s) = s

-- SharedMemory::OnLocalNodeAvailable and OnLocalNodeUnavailable, whose bodies are commented out,
-- and OnLocalNodeWritesToGroup.
unfoldable pub on_local_node_available : SharedMemory → LocalNode → SharedMemory
on_local_node_available m node = m

unfoldable pub on_local_node_unavailable : SharedMemory → LocalNode → SharedMemory
on_local_node_unavailable m node = m

unfoldable pub on_local_node_writes_to_group : SharedMemory → Packet → SharedMemory × ℕ
on_local_node_writes_to_group m packet = (m, 0)
