-- ===== src/Packet.antt =====
-- packet.cpp and packet.hpp: a message between two nodes.
pub mod Meta
use libgscale.Prelude.{
  ℕ, ◌+◌, ◌%◌, Bool, ◌&&◌, Option, some, List, [], ◌∷◌, ◌++◌, length, ltb, if◌then◌else◌,
}
use libgscale.Words.{Bytes, u32_mod}
use libgscale.Node.{INode}
use libgscale.Node.Archive.{Item, number, ◌>>=◌, read_number, save_inode, load_inode}

-- enum METATYPE, as the int that it is: `load` may produce any.
abbrev pub min_type : ℕ
min_type = 0

abbrev pub nodeavail : ℕ
nodeavail = 1

abbrev pub nodeunavail : ℕ
nodeunavail = 2

abbrev pub data_type : ℕ
data_type = 3

abbrev pub max_type : ℕ
max_type = 4

pub record Packet : Type 0 where
  pub sender : INode
  pub receiver : INode
  pub payload : Bytes
  pub type : ℕ

-- Packet::Packet
unfoldable pub new_packet : INode → INode → Packet
new_packet sender receiver = record {
  sender = sender;
  receiver = receiver;
  payload = [];
  type = min_type;
}

-- Packet::getSender
unfoldable pub get_sender : Packet → INode
get_sender p = p.sender

-- Packet::getReceiver
unfoldable pub get_receiver : Packet → INode
get_receiver p = p.receiver

-- Packet::payload(payload), which returns what it stored.
unfoldable pub set_payload : Packet → Bytes → Packet × Bytes
set_payload p payload = (record p { payload = payload }, payload)

-- Packet::payload()
unfoldable pub get_payload : Packet → Bytes
get_payload p = p.payload

-- Packet::size, an unsigned int.
unfoldable pub size : Packet → ℕ
size p = length p.payload % u32_mod

-- Packet::type(t), which returns the type that the packet then has; a call without an argument is
-- one with MIN.
unfoldable pub set_type : Packet → ℕ → Packet × ℕ
set_type p t =
    let q = if ltb min_type t && ltb t max_type then record p { type = t } else p in (q, q.type)

-- Packet::save
unfoldable pub save_packet : Packet → List Item
save_packet p = save_inode p.sender ++ save_inode p.receiver ++ number p.type ∷ []

-- Packet::load into an existing packet.
unfoldable pub load_packet : Packet → List Item → Option (Packet × List Item)
load_packet p archive = do
  (sender, archive) ← load_inode p.sender archive
  (receiver, archive) ← load_inode p.receiver archive
  (t, archive) ← read_number archive
  some (record p { sender = sender; receiver = receiver; type = t }, archive)
