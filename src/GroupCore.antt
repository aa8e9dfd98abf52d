-- ===== src/GroupCore.antt =====
-- groupcore.cpp and groupcore.hpp: the nodes, the back ends and the packets of a group.
-- The clock, the uuid generators and the service's `run` are arguments. A call that is posted or
-- dispatched outside of `run` goes to the end of the service's queue.
pub mod Rows
pub mod Nodes
pub mod History
pub mod Invariant
pub mod Lost
pub mod Counts
pub mod Backends
pub mod Range
pub mod Connect
pub mod Namesakes
pub mod Directory
pub mod Refinement
pub mod News
pub mod Order
use libgscale.Prelude.{
  ℕ, ◌+◌, ◌-◌, ◌%◌, Bool, true, false, not, ◌&&◌, Option, none, some, List, [], ◌∷◌, ◌++◌, map,
  length, leb, ltb, ◌==◌, if◌then◌else◌, bytes_eq, keep_if, any_of, find_first,
}
use libgscale.Words.{Bytes}
use libgscale.Core.{Uuid, Core}
use libgscale.LocalNode.{LocalNode, new_local_node}
use libgscale.Packet.{Packet}
use libgscale.MultiIndex.{insert, update_first, erase, ordered}
use Rows.{
  LocalNodeRow, new_row, row_uuid, node_clash, BackendRow, new_backend_row, enable, disable,
  backend_clash, PacketRow, u16_mod,
}

-- A posted call of a back end's method, by the back end's object.
pub data Task : Type 0 where
  worker : ℕ → Task
  node_available node_unavailable : ℕ → LocalNode → Task
  writes_to_group : ℕ → Packet → Task

pub record GroupCore : Type 0 where
  pub localnodes : List LocalNodeRow
  pub backends : List BackendRow
  pub sendqueue : List PacketRow
  pub connectcount : ℕ
  pub gname : Bytes
  pub queue : List Task
  pub stopped : Bool
  pub group : ℕ

-- The exceptions that the group throws, with what they carry.
pub data Error : Type 0 where
  invalid_gname : Bytes → Error
  not_inserted : ℕ → Error
  already_attached : Error
  uuid_not_found : Uuid → Error

-- GScale::Exception::code of each: EINVAL, errno, EALREADY and ENOENT.
unfoldable pub error_code : Error → ℕ
error_code (invalid_gname name) = 22
error_code (not_inserted errno) = errno
error_code already_attached = 114
error_code (uuid_not_found uuid) = 2

pub data Result {ℓ} (A : Type ℓ) : Type ℓ where
  ok : A → Result A
  err : Error → Result A

-- GroupCore::GroupCore
unfoldable pub new_group_core : ℕ → Bytes → Result GroupCore
new_group_core group gname =
    if leb (length gname) 0
    then err (invalid_gname gname)
    else ok (record {
      localnodes = [];
      backends = [];
      sendqueue = [];
      connectcount = 0;
      gname = gname;
      queue = [];
      stopped = false;
      group = group;
    })

abbrev pub has_type : Bytes → BackendRow → Bool
has_type type r = bytes_eq r.type type

-- GroupCore::attachBackend; `initialize` says whether IBackend::initialize returns, and `errno` is
-- its value when the handler runs.
unfoldable pub attach_backend : (ℕ → Bool) → ℕ → Bytes → ℕ → GroupCore → Result GroupCore
unfolding new_backend_row enable
attach_backend initialize errno type backend c =
    if any_of (has_type type) c.backends
    then err already_attached
    else if initialize backend
    then ok (record c {
      backends = insert backend_clash (enable (new_backend_row backend type)) c.backends;
    })
    else err (not_inserted errno)

-- GroupCore::detachBackend
unfoldable pub detach_backend : Bytes → GroupCore → GroupCore
detach_backend type c = record c { backends = update_first (has_type type) disable c.backends }

-- The range `false < enabled <= true` of the index on `enabled`.
unfoldable pub enabled_backends : GroupCore → List BackendRow
enabled_backends c = keep_if (λ r. r.enabled) c.backends

-- Post one call for each enabled back end.
unfoldable pub post_each : (ℕ → Task) → GroupCore → GroupCore
unfolding enabled_backends
post_each task c = record c {
  queue = c.queue ++ map (λ (r : BackendRow). task r.backend) (enabled_backends c);
}

-- GroupCore::connect; `now` is universal_time() and `service` the group's io_service.
unfoldable pub connect :
    (Uuid → Bytes → Uuid) → Uuid → Core → ℕ → ℕ → Bytes → ℕ → GroupCore → GroupCore × LocalNode
connect named random core service now nodealias cbs c =
    let id = c.connectcount + 1 in
    let node = new_local_node named random core service nodealias cbs in
    let c' : GroupCore = record c {
      connectcount = id;
      localnodes = insert node_clash (new_row id node now) c.localnodes;
    } in
    (post_each (λ b. node_available b node) c', node)

-- GroupCore::connect without an alias.
unfoldable pub connect_unnamed :
    (Uuid → Bytes → Uuid) → Uuid → Core → ℕ → ℕ → ℕ → GroupCore → GroupCore × LocalNode
unfolding connect
connect_unnamed named random core service now cbs c = connect named random core service now [] cbs c

-- The key test of the index on the uuid.
abbrev pub has_uuid : Uuid → LocalNodeRow → Bool
has_uuid uuid r = bytes_eq (row_uuid r) uuid

abbrev pub set_disconnect : ℕ → LocalNodeRow → LocalNodeRow
set_disconnect now r = record r { time_disconnect = some now }

-- GroupCore::disconnect
unfoldable pub disconnect : ℕ → LocalNode → GroupCore → GroupCore
disconnect now node c =
    post_each (λ b. node_unavailable b node)
      (record c {
        localnodes = update_first (has_uuid node.nodeuuid) (set_disconnect now) c.localnodes;
      })

-- std::set::insert of a type.
abbrev pub insert_type : Bytes → List Bytes → List Bytes
insert_type type types = if any_of (λ t. bytes_eq t type) types then types else types ++ type ∷ []

abbrev pub type_set : List Bytes → List BackendRow → List Bytes
type_set types [] = types
type_set types (r ∷ rs) = type_set (insert_type r.type types) rs

-- GroupCore::write. `last` is `(pidx.end()--)`, whose value is the end of the sequence; the loop
-- reads `last->packet` for each enabled back end, which is undefined and stands as `none`.
unfoldable pub write : Packet → GroupCore → Option GroupCore
unfolding enabled_backends
write packet c =
    let row : PacketRow = record {
      packet = packet;
      backendref = type_set [] (enabled_backends c);
    } in
    let c' : GroupCore = record c { sendqueue = c.sendqueue ++ row ∷ [] } in
    elim (enabled_backends c) [ [] ↦ some c' | r ∷ rs ↦ none ]

-- Rows whose count of back ends is in [0, 1).
abbrev pub is_unreferenced : LocalNodeRow → Bool
is_unreferenced r = leb 0 r.backendrefcount && ltb r.backendrefcount 1

-- Back ends whose `enabled` is in [false, true).
abbrev pub is_disabled : BackendRow → Bool
is_disabled r = not r.enabled

-- The first part of GroupCore::runWorker, up to `run`.
unfoldable pub ready : GroupCore → GroupCore
ready c = record (post_each worker c) { stopped = false }

-- GroupCore::runWorker; `run` is what io_service::run leaves behind, with a timer of that length
-- to stop it if there is one.
unfoldable pub run_worker : (Option ℕ → GroupCore → GroupCore) → Option ℕ → GroupCore → GroupCore
run_worker run timeout c =
    let c' = run timeout (ready c) in
    record c' {
      localnodes = erase is_unreferenced c'.localnodes;
      backends = erase is_disabled c'.backends;
    }

-- GroupCore::getName, getGroupAPI and getEventDescriptor
unfoldable pub get_name : GroupCore → Bytes
get_name c = c.gname

unfoldable pub get_group_api : GroupCore → ℕ
get_group_api c = c.group

unfoldable pub get_event_descriptor : GroupCore → ℕ
get_event_descriptor c = 0
