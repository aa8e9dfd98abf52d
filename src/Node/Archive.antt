-- ===== src/Node/Archive.antt =====
-- inode.hpp and packet.hpp, `save` and `load`. The archive of boost::serialization is the sequence
-- of primitive values that the calls `ar & x` write or read; how it lays them out as bytes is a
-- parameter elsewhere. Reading a value of another kind throws, which is `none` here.
use libgscale.Prelude.{ℕ, Option, none, some, List, [], ◌∷◌}
use libgscale.Words.{Bytes}
use libgscale.Node.Wire.{save_uuid, load_uuid}
use libgscale.Node.{INode}

pub data Item : Type 0 where
  raw : Bytes → Item
  text : Bytes → Item
  number : ℕ → Item

infixl 5 ◌>>=◌
abbrev pub ◌>>=◌ {ℓ κ} : {A : Type ℓ} {B : Type κ} → Option A → (A → Option B) → Option B
none >>= f = none
some a >>= f = f a

abbrev pub read_raw : List Item → Option (Bytes × List Item)
read_raw (raw b ∷ rest) = some (b, rest)
read_raw _ = none

abbrev pub read_text : List Item → Option (Bytes × List Item)
read_text (text b ∷ rest) = some (b, rest)
read_text _ = none

abbrev pub read_number : List Item → Option (ℕ × List Item)
read_number (number n ∷ rest) = some (n, rest)
read_number _ = none

-- INode::save
unfoldable pub save_inode : INode → List Item
save_inode n = raw (save_uuid n.hostuuid) ∷ raw (save_uuid n.nodeuuid) ∷ text n.alias ∷ []

-- INode::load into an existing node. The uuid that loadUUID leaves in its first argument is kept.
unfoldable pub load_inode : INode → List Item → Option (INode × List Item)
unfolding load_uuid
load_inode n archive = do
  (host, archive) ← read_raw archive
  (node, archive) ← read_raw archive
  (alias, archive) ← read_text archive
  some (
    record {
      hostuuid = (load_uuid n.hostuuid host).0;
      nodeuuid = (load_uuid n.nodeuuid node).0;
      alias = alias;
    },
    archive,
  )
