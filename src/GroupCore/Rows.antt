-- ===== src/GroupCore/Rows.antt =====
-- util/groupcore.hpp: the rows of the three containers of a group, and their unique keys.
use libgscale.Prelude.{
  ℕ, ◌+◌, ◌%◌, ◌^◌, Bool, true, false, ◌||◌, Option, none, List, [], ◌∷◌, length, ◌==◌, bytes_eq,
}
use libgscale.Words.{Bytes}
use libgscale.Core.{Uuid}
use libgscale.LocalNode.{LocalNode}
use libgscale.Packet
use libgscale.Packet.{Packet}

abbrev pub u16_mod : ℕ
u16_mod = 2 ^ 16

-- PacketRow; a packet's shared pointer is the packet, and the std::set of back end types a list
-- without repetitions.
pub record PacketRow : Type 0 where
  pub packet : Packet
  pub backendref : List Bytes

-- PacketRow::count, a uint16_t.
unfoldable pub count : PacketRow → ℕ
count r = length r.backendref % u16_mod

-- PacketRow::bytes
unfoldable pub packet_bytes : PacketRow → ℕ
packet_bytes r = Packet.size r.packet

-- LocalNodeRow; `none` is not_a_date_time.
pub record LocalNodeRow : Type 0 where
  pub id : ℕ
  pub node : LocalNode
  pub time_connect : ℕ
  pub time_disconnect : Option ℕ
  pub backendrefcount : ℕ

-- LocalNodeRow::LocalNodeRow
unfoldable pub new_row : ℕ → LocalNode → ℕ → LocalNodeRow
new_row id node time_connect = record {
  id = id;
  node = node;
  time_connect = time_connect;
  time_disconnect = none;
  backendrefcount = 0;
}

-- LocalNodeRow::nodeuuid
abbrev pub row_uuid : LocalNodeRow → Uuid
row_uuid r = r.node.nodeuuid

-- LocalNodeSet: its unique indices are the id and the node's uuid.
abbrev pub node_clash : LocalNodeRow → LocalNodeRow → Bool
node_clash r s = r.id == s.id || bytes_eq (row_uuid r) (row_uuid s)

-- BackendRow; a back end is named by the object that its pointer refers to.
pub record BackendRow : Type 0 where
  pub backend : ℕ
  pub type : Bytes
  pub enabled : Bool
  pub sendqueue : List Packet

-- BackendRow::BackendRow
unfoldable pub new_backend_row : ℕ → Bytes → BackendRow
new_backend_row backend type = record {
  backend = backend;
  type = type;
  enabled = false;
  sendqueue = [];
}

-- BackendRow::enable and disable
unfoldable pub enable : BackendRow → BackendRow
enable r = record r { enabled = true }

unfoldable pub disable : BackendRow → BackendRow
disable r = record r { enabled = false }

sum_sizes : ℕ → List Packet → ℕ
sum_sizes b [] = b
sum_sizes b (p ∷ ps) = sum_sizes ((b + Packet.size p) % 2 ^ 64) ps

-- BackendRow::bytes, a uint64_t.
unfoldable pub queued_bytes : BackendRow → ℕ
unfolding sum_sizes
queued_bytes r = sum_sizes 0 r.sendqueue

-- BackendSet: its unique index is the type.
abbrev pub backend_clash : BackendRow → BackendRow → Bool
backend_clash r s = bytes_eq r.type s.type
