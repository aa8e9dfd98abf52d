-- ===== src/GroupCore/Nodes.antt =====
-- groupcore.cpp and groupcore.hpp, GroupNodesDAO: what the back ends see of the local nodes.
use libgscale.Prelude.{
  ℕ, ◌+◌, ◌-◌, ◌%◌, Bool, true, ◌&&◌, Option, none, some, List, leb, ltb, ◌==◌, if◌then◌else◌,
  keep_if, find_first,
}
use libgscale.Core.{Uuid}
use libgscale.MultiIndex.{update_first, ordered}
use libgscale.GroupCore.{GroupCore, Error, uuid_not_found, Result, ok, err, has_uuid}
use libgscale.GroupCore.Rows.{LocalNodeRow, u16_mod}

-- GroupNodesDAO::increaseLocalNodeBackendRefCount
unfoldable pub increase_ref : ℕ → GroupCore → GroupCore
increase_ref id c = record c {
  localnodes =
      update_first (λ r. r.id == id)
        (λ r. record r { backendrefcount = (r.backendrefcount + 1) % u16_mod }) c.localnodes;
}

-- GroupNodesDAO::decreaseLocalNodeBackendRefCount
unfoldable pub decrease_ref : ℕ → GroupCore → GroupCore
decrease_ref id c = record c {
  localnodes =
      update_first (λ r. r.id == id)
        (λ r. record r { backendrefcount = (r.backendrefcount + u16_mod - 1) % u16_mod })
        c.localnodes;
}

-- The time index, and the four ranges of GroupNodesDAO::rangeByCreated. `none` is
-- not_a_date_time.
abbrev pub by_time : GroupCore → List LocalNodeRow
by_time c = ordered (λ r. r.time_connect) c.localnodes

abbrev pub in_range : Option ℕ → Option ℕ → LocalNodeRow → Bool
in_range none none r = true
in_range none (some max) r = leb r.time_connect max
in_range (some min) none r = ltb min r.time_connect
in_range (some min) (some max) r = leb min r.time_connect && leb r.time_connect max

-- GroupNodesDAO::rangeByCreated
unfoldable pub range_by_created : Option ℕ → Option ℕ → GroupCore → List LocalNodeRow
range_by_created (some min) (some max) c =
    if ltb max min
    then keep_if (in_range (some max) (some min)) (by_time c)
    else keep_if (in_range (some min) (some max)) (by_time c)
range_by_created min max c = keep_if (in_range min max) (by_time c)

abbrev pub found_or : Error → Option LocalNodeRow → Result LocalNodeRow
found_or e none = err e
found_or e (some r) = ok r

-- GroupNodesDAO::findByUUID
unfoldable pub find_by_uuid : Uuid → GroupCore → Result LocalNodeRow
find_by_uuid uuid c = found_or (uuid_not_found uuid) (find_first (has_uuid uuid) c.localnodes)
