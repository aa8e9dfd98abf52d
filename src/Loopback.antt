-- ===== src/Loopback.antt =====
-- backend/loopback.cpp and loopback.hpp: the back end that serves the nodes of one process. It is
-- given the group's state by GroupNodesDAO; what it posts to the nodes' service is a list.
pub mod Endless
use libgscale.Prelude.{
  ℕ, zero, suc, ◌+◌, ◌*◌, Bool, true, false, Option, none, some, List, [], ◌∷◌, if◌then◌else◌,
  bytes_eq,
}
use libgscale.Words.{Bytes}
use libgscale.Core.{Uuid}
use libgscale.LocalNode.{LocalNode, Callback, post_read, post_available, post_unavailable}
use libgscale.Packet.{Packet, get_receiver}
use libgscale.MultiIndex.{ordered}
use libgscale.GroupCore.{GroupCore, Error, Result, ok, err}
use libgscale.GroupCore.Nodes.{find_by_uuid}
use libgscale.GroupCore.Rows.{LocalNodeRow, row_uuid}

-- The pointers to the group and to its GroupNodesDAO, by the group's name.
pub record Loopback : Type 0 where
  pub groupc : Option ℕ
  pub gdao : Option ℕ

-- Loopback::Loopback
unfoldable pub new_loopback : Loopback
new_loopback = record { groupc = none; gdao = none }

-- Loopback::initialize
unfoldable pub initialize : ℕ → ℕ → Loopback → Loopback
initialize groupc gdao b = record { groupc = some groupc; gdao = some gdao }

-- What a method does: it ends, throws, reads through a NULL pointer, or is still running when the
-- fuel is used up.
pub data Outcome : Type 0 where
  ended : List Callback → Outcome
  thrown : Error → Outcome
  null_read still_running : Outcome

-- The order of the index on the uuid: byte by byte.
abbrev pub uuid_key : ℕ → Uuid → ℕ
uuid_key acc [] = acc
uuid_key acc (b ∷ u) = uuid_key (acc * 256 + b) u

unfoldable pub by_uuid : GroupCore → List LocalNodeRow
by_uuid c = ordered (λ r. uuid_key 0 (row_uuid r)) c.localnodes

-- The loop of OnLocalNodeAvailable and OnLocalNodeUnavailable, with the rows from the iterator on.
-- Nothing in it moves the iterator; `continue` leaves all as it is.
unfoldable pub notify_loop :
    (LocalNodeRow → List Callback → List Callback)
    → ℕ
    → Uuid
    → List LocalNodeRow
    → List Callback
    → Outcome
notify_loop post zero uuid rows posted = still_running
notify_loop post (suc fuel) uuid [] posted = ended posted
notify_loop post (suc fuel) uuid (r ∷ rows) posted =
    notify_loop post fuel uuid (r ∷ rows)
      (if bytes_eq (row_uuid r) uuid then posted else post r posted)

-- Loopback::OnLocalNodeAvailable
unfoldable pub on_local_node_available :
    ℕ → Loopback → GroupCore → LocalNode → List Callback → Outcome
on_local_node_available fuel b c node posted = elim b.gdao [
  | none ↦ null_read
  | some dao ↦
      notify_loop (λ r. post_available r.node c.group node.inode r.node.inode) fuel node.nodeuuid
        (by_uuid c) posted
]

-- Loopback::OnLocalNodeUnavailable
unfoldable pub on_local_node_unavailable :
    ℕ → Loopback → GroupCore → LocalNode → List Callback → Outcome
on_local_node_unavailable fuel b c node posted = elim b.gdao [
  | none ↦ null_read
  | some dao ↦
      notify_loop (λ r. post_unavailable r.node c.group node.inode r.node.inode) fuel node.nodeuuid
        (by_uuid c) posted
]

abbrev pub read_or_throw : Packet → ℕ → List Callback → Result LocalNodeRow → Outcome
read_or_throw packet group posted (ok r) = ended (post_read r.node group packet posted)
read_or_throw packet group posted (err e) = thrown e

-- Loopback::OnLocalNodeWritesToGroup; findByUUID throws where it finds nothing.
unfoldable pub on_local_node_writes_to_group :
    Loopback → GroupCore → Packet → List Callback → Outcome
on_local_node_writes_to_group b c packet posted = elim b.gdao [
  | none ↦ null_read
  | some dao ↦ read_or_throw packet c.group posted (find_by_uuid (get_receiver packet).nodeuuid c)
]
