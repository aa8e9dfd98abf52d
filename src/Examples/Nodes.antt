-- ===== src/Examples/Nodes.antt =====
-- Runs of inode.cpp and core.cpp.
use libgscale.Prelude.{◌≡◌, some, [], ◌∷◌, ◌++◌, arith}
use libgscale.Node.Wire.{IsUuid}
use libgscale.Node.Archive.{save_inode, load_inode, number}
use libgscale.Node.Transfer.{load_inode-save_inode}
use libgscale.Examples.{sixteen, alice, bob}

sixteen-IsUuid : IsUuid sixteen
sixteen-IsUuid = ground arith

load_inode-save_inode_example :
    load_inode alice (save_inode bob ++ number 3 ∷ [])
    ≡ some (
      record { hostuuid = alice.hostuuid; nodeuuid = alice.nodeuuid; alias = bob.alias },
      number 3 ∷ [],
    )
load_inode-save_inode_example = load_inode-save_inode bob alice (number 3 ∷ [])
