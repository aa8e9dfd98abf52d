-- ===== src/Loopback/Endless.antt =====
-- backend/loopback.cpp: which calls of the back end end.
use libgscale.Prelude.{ℕ, zero, suc, ◌≡◌, ◌≢◌, refl, List, [], ◌∷◌, ◌++◌, arith, any_of}
use libgscale.Words.{Bytes}
use libgscale.Core.{Uuid, Core}
use libgscale.LocalNode.{LocalNode, Callback, on_read}
use libgscale.Packet.{Packet, get_receiver}
use libgscale.MultiIndex.{insert, ordered, place}
use libgscale.GroupCore.{GroupCore, connect, post_each, ok, err, uuid_not_found}
use libgscale.GroupCore.Nodes.{find_by_uuid}
use libgscale.GroupCore.Rows.{LocalNodeRow, node_clash}
use libgscale.LocalNode
use libgscale.Loopback.{
  Loopback, initialize, ended, thrown, still_running, notify_loop, by_uuid, on_local_node_available,
  on_local_node_unavailable, on_local_node_writes_to_group,
}

notify_loop_stays :
    (post : LocalNodeRow → List Callback → List Callback) (fuel : ℕ) (uuid : Uuid)
    (rows : List LocalNodeRow) (posted : List Callback)
    → rows ≢ []
    → notify_loop post fuel uuid rows posted ≡ still_running
unfolding notify_loop
notify_loop_stays post zero uuid rows posted h = refl
notify_loop_stays post (suc fuel) uuid [] posted h = absurd (h refl)
notify_loop_stays post (suc fuel) uuid (r ∷ rows) posted h =
    notify_loop_stays post fuel uuid (r ∷ rows) _ h

place-ne-nil :
    (key : LocalNodeRow → ℕ) (r : LocalNodeRow) (t : List LocalNodeRow) → place key r t ≢ []
unfolding place
place-ne-nil key r [] = ground arith
place-ne-nil key r (s ∷ t) = ground arith

ordered-ne-nil : (key : LocalNodeRow → ℕ) (t : List LocalNodeRow) → t ≢ [] → ordered key t ≢ []
unfolding ordered
ordered-ne-nil key [] h = absurd (h refl)
ordered-ne-nil key (r ∷ t) h = place-ne-nil key r (ordered key t)

by_uuid-ne-nil : (c : GroupCore) → c.localnodes ≢ [] → by_uuid c ≢ []
unfolding by_uuid
by_uuid-ne-nil c h = ordered-ne-nil _ c.localnodes h

-- Once a group has a local node, the loopback back end, initialised with any group, does not come
-- back from telling of a node: no number of rounds is enough, whichever node it is about. So it is
-- right after `connect`, for the node that was connected.
pub on_local_node_available_runs :
    (fuel groupc gdao : ℕ) (b : Loopback) (c : GroupCore) (node : LocalNode)
    (posted : List Callback)
    → c.localnodes ≢ []
    → (on_local_node_available fuel (initialize groupc gdao b) c node posted ≡ still_running)
      × (on_local_node_unavailable fuel (initialize groupc gdao b) c node posted ≡ still_running)
unfolding on_local_node_available on_local_node_unavailable initialize
on_local_node_available_runs fuel groupc gdao b c node posted h = (
  notify_loop_stays _ fuel node.nodeuuid (by_uuid c) posted (by_uuid-ne-nil c h),
  notify_loop_stays _ fuel node.nodeuuid (by_uuid c) posted (by_uuid-ne-nil c h),
)

pub insert-ne-nil : (r : LocalNodeRow) (t : List LocalNodeRow) → insert node_clash r t ≢ []
unfolding insert any_of
insert-ne-nil r [] = ground arith
insert-ne-nil r (s ∷ t) = ground arith

-- After any `connect` the call that it posts to the loopback back end, which tells of the new node,
-- never ends.
connect_never_told :
    (fuel groupc gdao : ℕ) (b : Loopback) (named : Uuid → Bytes → Uuid) (random : Uuid)
    (core : Core) (service now : ℕ) (alias : Bytes) (cbs : ℕ) (c : GroupCore)
    (posted : List Callback)
    → on_local_node_available fuel
        (initialize groupc gdao b)
        (connect named random core service now alias cbs c).0
        (connect named random core service now alias cbs c).1
        posted
      ≡ still_running
unfolding connect post_each
connect_never_told fuel groupc gdao b named random core service now alias cbs c posted =
    (on_local_node_available_runs fuel groupc gdao b _ _ posted (insert-ne-nil _ c.localnodes)).0

-- A packet goes to the callbacks of the node that has the receiver's uuid, behind what was posted
-- before and with the group and the packet as arguments; where no node has that uuid the call
-- throws the exception of findByUUID.
on_local_node_writes_to_group_cases :
    (groupc gdao : ℕ) (b : Loopback) (c : GroupCore) (packet : Packet) (posted : List Callback)
    (r : LocalNodeRow) (d : GroupCore)
    → find_by_uuid packet.receiver.nodeuuid c ≡ ok r
    → find_by_uuid packet.receiver.nodeuuid d ≡ err (uuid_not_found packet.receiver.nodeuuid)
    → (on_local_node_writes_to_group (initialize groupc gdao b) c packet posted
        ≡ ended (posted ++ on_read r.node.cbs c.group packet ∷ []))
      × (on_local_node_writes_to_group (initialize groupc gdao b) d packet posted
          ≡ thrown (uuid_not_found packet.receiver.nodeuuid))
unfolding on_local_node_writes_to_group initialize get_receiver LocalNode.post_read
on_local_node_writes_to_group_cases groupc gdao b c packet posted r d e k = ground arith
