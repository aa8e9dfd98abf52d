-- ===== src/GroupCore/Connect.antt =====
-- groupcore.cpp, connect and disconnect.
use libgscale.Prelude.{
  ℕ, ◌+◌, ◌≤◌, ◌≡◌, refl, true, false, some, none, List, [], ◌∷◌, ◌++◌, map, arith, All, find_first,
  any_of, if◌then◌else◌, bytes_eq, bytes_eq_refl,
}
use libgscale.Words.{Bytes}
use libgscale.Core.{Uuid, Core}
use libgscale.LocalNode.{LocalNode}
use libgscale.MultiIndex.Find.{row_of-update_first}
use libgscale.MultiIndex.{insert}
use libgscale.GroupCore.{
  GroupCore, Task, node_available, node_unavailable, Result, ok, err, uuid_not_found, connect,
  disconnect, post_each, enabled_backends, has_uuid, set_disconnect,
}
use libgscale.GroupCore.Nodes.{find_by_uuid}
use libgscale.GroupCore.Rows.{LocalNodeRow, BackendRow, new_row, row_uuid, node_clash}
use libgscale.GroupCore.Invariant.{IsConsistent}

-- The calls that tell every enabled back end something, in order.
abbrev pub told : (ℕ → Task) → GroupCore → List Task
told task c = map (λ (r : BackendRow). task r.backend) (enabled_backends c)

find_first-snoc :
    (uuid : Uuid) (t : List LocalNodeRow) (r : LocalNodeRow)
    → find_first (has_uuid uuid) t ≡ none
    → find_first (has_uuid uuid) (t ++ r ∷ []) ≡ (if has_uuid uuid r then some r else none)
unfolding find_first
find_first-snoc uuid [] r e = refl
find_first-snoc uuid (s ∷ t) r e = ground (arith, find_first-snoc uuid t r)

-- A row with a new id and a new uuid clashes with none.
no_clash :
    (n : ℕ) (r : LocalNodeRow) (t : List LocalNodeRow)
    → r.id ≡ n + 1
    → All (λ s. s.id ≤ n) t
    → find_first (has_uuid (row_uuid r)) t ≡ none
    → any_of (λ s. node_clash s r) t ≡ false
unfolding find_first any_of
no_clash n r [] i a e = refl
no_clash n r (s ∷ t) i a e = ground (arith, no_clash n r t i a.1)

-- A row whose uuid is in the table clashes with it.
has_clash :
    (r : LocalNodeRow) (t : List LocalNodeRow) (old : LocalNodeRow)
    → find_first (has_uuid (row_uuid r)) t ≡ some old
    → any_of (λ s. node_clash s r) t ≡ true
unfolding find_first any_of
has_clash r [] old e = cc
has_clash r (s ∷ t) old e = ground (arith, has_clash r t old)

module _ (named : Uuid → Bytes → Uuid) (random : Uuid) (core : Core) (service now : ℕ)
    (alias : Bytes) (cbs : ℕ) (c : GroupCore) where
  abbrev connected : GroupCore
  connected = (connect named random core service now alias cbs c).0

  abbrev handle : LocalNode
  handle = (connect named random core service now alias cbs c).1

  -- A node whose uuid the group does not have yet is found by it after `connect`, with the next
  -- number as its id, the time of the call and no reference. Every enabled back end, in order and
  -- after what was posted before, is told of it, and nothing else changes.
  pub connect_new :
      IsConsistent c
      → find_by_uuid handle.nodeuuid c ≡ err (uuid_not_found handle.nodeuuid)
      → (find_by_uuid handle.nodeuuid connected ≡ ok (new_row (c.connectcount + 1) handle now))
        × (connected.connectcount ≡ c.connectcount + 1)
        × (connected.queue ≡ c.queue ++ told (λ b. node_available b handle) c)
        × (connected.backends ≡ c.backends)
        × (connected.sendqueue ≡ c.sendqueue)
  unfolding connect find_by_uuid post_each enabled_backends insert new_row
  connect_new v e = ground (
    arith,
    no_clash c.connectcount (new_row (c.connectcount + 1) handle now) c.localnodes refl v.ids,
    find_first-snoc handle.nodeuuid c.localnodes (new_row (c.connectcount + 1) handle now),
    bytes_eq_refl handle.nodeuuid,
  )

  -- If the group already has a node with the uuid, `connect` adds no row and keeps the old one,
  -- but still counts the connection, returns a node with that uuid and tells every enabled back
  -- end of it.
  pub connect_again :
      (old : LocalNodeRow)
      → find_by_uuid handle.nodeuuid c ≡ ok old
      → (connected.localnodes ≡ c.localnodes)
        × (find_by_uuid handle.nodeuuid connected ≡ ok old)
        × (connected.connectcount ≡ c.connectcount + 1)
        × (connected.queue ≡ c.queue ++ told (λ b. node_available b handle) c)
  unfolding connect find_by_uuid post_each enabled_backends insert new_row
  connect_again old e =
      ground (arith, has_clash (new_row (c.connectcount + 1) handle now) c.localnodes old)

abbrev pub marked : ℕ → Result LocalNodeRow → Result LocalNodeRow
marked now (ok r) = ok (set_disconnect now r)
marked now (err e) = err e

-- After `disconnect` the row with the node's uuid, if there is one, has the time of the call as
-- its disconnect time and is otherwise as before, and it is still found; rows with other uuids
-- are as before. Every enabled back end is told, in order and after what was posted before.
pub find_by_uuid-disconnect :
    (now : ℕ) (node : LocalNode) (c : GroupCore) (uuid : Uuid)
    → (find_by_uuid uuid (disconnect now node c) ≡ (
        if bytes_eq node.nodeuuid uuid
        then marked now (find_by_uuid uuid c)
        else find_by_uuid uuid c))
      × ((disconnect now node c).queue ≡ c.queue ++ told (λ b. node_unavailable b node) c)
unfolding find_by_uuid disconnect post_each enabled_backends
find_by_uuid-disconnect now node c uuid = ground (
  arith,
  row_of-update_first row_uuid node.nodeuuid (set_disconnect now) c.localnodes uuid (λ r. refl),
)
