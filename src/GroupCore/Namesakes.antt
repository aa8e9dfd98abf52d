-- ===== src/GroupCore/Namesakes.antt =====
-- groupcore.cpp and inode.cpp: two nodes of one group with the same alias.
use libgscale.Prelude.{
  ℕ, ◌+◌, ◌<◌, ◌≡◌, sym, ◌∙◌, ap, subst, arith, length, bytes_eq, bytes_eq_refl, true, refl,
}
use libgscale.Words.{Bytes}
use libgscale.Core.{Uuid, Core, get_host_uuid}
use libgscale.Node.{inode_of_alias}
use libgscale.LocalNode.{new_local_node}
use libgscale.GroupCore.{GroupCore, ok, err, uuid_not_found, connect, disconnect, set_disconnect}
use libgscale.GroupCore.Nodes.{find_by_uuid}
use libgscale.GroupCore.Rows.{new_row}
use libgscale.GroupCore.Invariant.{IsConsistent}
use libgscale.GroupCore.Connect.{connect_new, connect_again, find_by_uuid-disconnect}

module _ (named : Uuid → Bytes → Uuid) (core : Core) (service : ℕ) (alias : Bytes) where
  -- A node with an alias has the uuid that its name gives.
  nodeuuid-named :
      (random : Uuid) (now cbs : ℕ) (c : GroupCore)
      → 0 < length alias
      → (connect named random core service now alias cbs c).1.nodeuuid
        ≡ named (get_host_uuid core) alias
  unfolding connect new_local_node inode_of_alias
  nodeuuid-named random now cbs c h = ground arith

  -- Where two clients connect with one alias that is not empty, whatever the random generator gives,
  -- and the group had no node of that uuid: both nodes have the same uuid, and the table only has the
  -- first. When the second client disconnects, it is the first client's row that gets the disconnect
  -- time, and connecting again with the alias leaves that row as it is.
  pub disconnect_namesake :
      (random random' random'' : Uuid) (now now' now'' later cbs cbs' cbs'' : ℕ) (c : GroupCore)
      → 0 < length alias
      → IsConsistent c
      → find_by_uuid (named (get_host_uuid core) alias) c
        ≡ err (uuid_not_found (named (get_host_uuid core) alias))
      → let one = connect named random core service now alias cbs c in
        let two = connect named random' core service now' alias cbs' one.0 in
        let left = disconnect later two.1 two.0 in
        let row = set_disconnect later (new_row (c.connectcount + 1) one.1 now) in
        (two.1.nodeuuid ≡ one.1.nodeuuid)
        × (two.0.localnodes ≡ one.0.localnodes)
        × (find_by_uuid one.1.nodeuuid left ≡ ok row)
        × (find_by_uuid one.1.nodeuuid
              (connect named random'' core service now'' alias cbs'' left).0
            ≡ ok row)
  disconnect_namesake random random' random'' now now' now'' later cbs cbs' cbs'' c h v e =
      let id = named (get_host_uuid core) alias in
      let one = connect named random core service now alias cbs c in
      let two = connect named random' core service now' alias cbs' one.0 in
      let left = disconnect later two.1 two.0 in
      let row = new_row (c.connectcount + 1) one.1 now in
      let u1 : one.1.nodeuuid ≡ id = nodeuuid-named random now cbs c h in
      let u2 : two.1.nodeuuid ≡ id = nodeuuid-named random' now' cbs' one.0 h in
      let missing : find_by_uuid one.1.nodeuuid c ≡ err (uuid_not_found one.1.nodeuuid) =
        subst (λ x. find_by_uuid x c ≡ err (uuid_not_found x)) (sym u1) e in
      let found1 : find_by_uuid one.1.nodeuuid one.0 ≡ ok row =
        (connect_new named random core service now alias cbs c v missing).0 in
      let both : two.1.nodeuuid ≡ one.1.nodeuuid = u2 ∙ sym u1 in
      let again =
        connect_again named random' core service now' alias cbs' one.0 row
          (ap (λ x. find_by_uuid x one.0) both ∙ found1) in
      let found2 : find_by_uuid one.1.nodeuuid two.0 ≡ ok row =
        ap (λ x. find_by_uuid x two.0) (sym both) ∙ again.1 in
      let same : bytes_eq two.1.nodeuuid one.1.nodeuuid ≡ true =
        ap (λ x. bytes_eq x one.1.nodeuuid) both ∙ bytes_eq_refl one.1.nodeuuid in
      let found3 : find_by_uuid one.1.nodeuuid left ≡ ok (set_disconnect later row) =
        (find_by_uuid-disconnect later two.1 two.0 one.1.nodeuuid).0 ∙ rw (same, found2) refl in
      let three = connect named random'' core service now'' alias cbs'' left in
      let u3 : three.1.nodeuuid ≡ one.1.nodeuuid =
        nodeuuid-named random'' now'' cbs'' left h ∙ sym u1 in
      let once_more =
        connect_again named random'' core service now'' alias cbs'' left (set_disconnect later row)
          (ap (λ x. find_by_uuid x left) u3 ∙ found3) in
      (both, again.0, found3, ap (λ x. find_by_uuid x three.0) (sym u3) ∙ once_more.1)
