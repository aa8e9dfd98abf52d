-- ===== src/Node.antt =====
-- inode.cpp and inode.hpp: the identity of a node. The generators of boost::uuids and the
-- conversion of a uuid to text are parameters.
pub mod Wire
pub mod Archive
pub mod Transfer
pub mod Identity
use libgscale.Prelude.{ℕ, Bool, true, false, List, [], ◌∷◌, length, leb, if◌then◌else◌, bytes_eq}
use libgscale.Words.{Bytes}
use libgscale.Core.{Uuid, nil_uuid, Core, get_host_uuid}

pub record INode : Type 0 where
  pub hostuuid : Uuid
  pub nodeuuid : Uuid
  pub alias : Bytes

-- INode::INode(std::string alias): `named` is name_generator(namespace)(name) and `random` is the
-- value that random_generator returns at this call.
unfoldable pub inode_of_alias : (Uuid → Bytes → Uuid) → Uuid → Core → Bytes → INode
unfolding get_host_uuid
inode_of_alias named random core alias = record {
  hostuuid = get_host_uuid core;
  nodeuuid = if leb (length alias) 0 then random else named (get_host_uuid core) alias;
  alias = alias;
}

-- INode::INode(boost::uuids::uuid uuid)
unfoldable pub inode_of_uuid : Core → Uuid → INode
unfolding get_host_uuid
inode_of_uuid core uuid = record { hostuuid = get_host_uuid core; nodeuuid = uuid; alias = [] }

-- INode::INode(boost::uuids::uuid uuid, std::string alias)
unfoldable pub inode_of_uuid_alias : Core → Uuid → Bytes → INode
unfolding get_host_uuid
inode_of_uuid_alias core uuid alias = record {
  hostuuid = get_host_uuid core;
  nodeuuid = uuid;
  alias = alias;
}

-- INode::INode(boost::uuids::uuid hostuuid, boost::uuids::uuid uuid)
unfoldable pub inode_of_host : Uuid → Uuid → INode
inode_of_host hostuuid uuid = record { hostuuid = hostuuid; nodeuuid = uuid; alias = [] }

-- INode::getNilNode
unfoldable pub nil_node : INode
unfolding inode_of_host
nil_node = inode_of_host nil_uuid nil_uuid

-- INode::isLocal
unfoldable pub is_local : Core → INode → Bool
unfolding get_host_uuid
is_local core n = bytes_eq n.hostuuid (get_host_uuid core)

-- INode::getAlias; `show` is lexical_cast<std::string> of a uuid.
unfoldable pub get_alias : (Uuid → Bytes) → INode → Bytes
get_alias show n = if leb (length n.alias) 0 then show n.nodeuuid else n.alias

-- INode::operator==
unfoldable pub inode_eq : INode → INode → Bool
inode_eq a b = bytes_eq b.nodeuuid a.nodeuuid
