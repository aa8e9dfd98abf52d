-- ===== src/LocalNode.antt =====
-- localnode.cpp, localnode.hpp and inodecallback.hpp: a node of this process and its callbacks.
use libgscale.Prelude.{ℕ, List, [], ◌∷◌, ◌++◌}
use libgscale.Words.{Bytes}
use libgscale.Core.{Uuid, Core}
use libgscale.Node.{INode, inode_of_alias}
use libgscale.Packet.{Packet}

-- `cbs` names the client's callback object and `io_service` the service that runs its calls.
pub record LocalNode : Type 0 where
  pub inode : INode
  pub open inode use *
  pub cbs : ℕ
  pub io_service : ℕ

-- A call of an INodeCallback method that is bound and posted, with the arguments that are bound:
-- the group, then a packet or nodes.
pub data Callback : Type 0 where
  on_read : ℕ → ℕ → Packet → Callback
  on_node_available on_node_unavailable : ℕ → ℕ → List INode → Callback

-- LocalNode::LocalNode(io_service, alias, cbs)
unfoldable pub new_local_node : (Uuid → Bytes → Uuid) → Uuid → Core → ℕ → Bytes → ℕ → LocalNode
new_local_node named random core io_service alias cbs = record {
  inode = inode_of_alias named random core alias;
  cbs = cbs;
  io_service = io_service;
}

-- LocalNode::OnRead; a posted call goes to the end of the service's queue.
unfoldable pub post_read : LocalNode → ℕ → Packet → List Callback → List Callback
post_read n group packet posted = posted ++ on_read n.cbs group packet ∷ []

-- LocalNode::OnNodeAvailable, which binds the group and `dst` alone.
unfoldable pub post_available : LocalNode → ℕ → INode → INode → List Callback → List Callback
post_available n group src dst posted = posted ++ on_node_available n.cbs group (dst ∷ []) ∷ []

-- LocalNode::OnNodeUnavailable
unfoldable pub post_unavailable : LocalNode → ℕ → INode → INode → List Callback → List Callback
post_unavailable n group src dst posted =
    posted ++ on_node_unavailable n.cbs group (src ∷ dst ∷ []) ∷ []

-- LocalNode::operator=, which leaves the service of the target.
unfoldable pub assign : LocalNode → LocalNode → LocalNode
assign target source = record target {
  inode = record { hostuuid = source.hostuuid; nodeuuid = source.nodeuuid; alias = source.alias };
  cbs = source.cbs;
}
