-- ===== src/Node/Transfer.antt =====
-- inode.cpp and inode.hpp: what a uuid and a node are after a trip through the archive.
use libgscale.Prelude.{◌≡◌, refl, some, List, ◌++◌}
use libgscale.Words.{Bytes}
use libgscale.Node.Wire.{
  IsUuid, save_uuid, swap_words, reversed_words, swap_words-save_uuid_lem, save_uuid_lem,
}
use libgscale.Node.{INode}
use libgscale.Node.Archive.{Item, save_inode, load_inode}

-- For a uuid of sixteen bytes, the archived form is its four words with the bytes of each
-- reversed, and converting that once more gives the uuid back.
pub swap_words-save_uuid :
    (u : Bytes) → IsUuid u → (save_uuid u ≡ reversed_words u) × (swap_words (save_uuid u) ≡ u)
swap_words-save_uuid u h = (save_uuid_lem u h, swap_words-save_uuid_lem u h)

-- Loading what was saved of a node `n` into a node `m` takes over the alias of `n` alone: both
-- uuids stay those of `m`. The rest of the archive is left to be read.
pub load_inode-save_inode :
    (n m : INode) (rest : List Item)
    → load_inode m (save_inode n ++ rest)
      ≡ some (record { hostuuid = m.hostuuid; nodeuuid = m.nodeuuid; alias = n.alias }, rest)
unfolding load_inode save_inode
load_inode-save_inode n m rest = refl
