-- ===== src/Packet/Meta.antt =====
-- packet.cpp and packet.hpp: the type and the serialised header of a packet.
use libgscale.Prelude.{
  ℕ, ◌<◌, ◌≡◌, refl, ◌&&◌, some, List, [], ◌∷◌, ◌++◌, arith, ltb, if◌then◌else◌,
}
use libgscale.Node.{INode}
use libgscale.Node.Archive.{Item, save_inode, load_inode}
use libgscale.Packet.{Packet, new_packet, set_type, save_packet, load_packet, min_type, max_type}

-- A sequence of calls of `type`.
abbrev pub set_types : Packet → List ℕ → Packet
set_types p [] = p
set_types p (t ∷ ts) = set_types (set_type p t).0 ts

-- The last of the values that name a type, or the first argument if none does.
abbrev pub last_valid : ℕ → List ℕ → ℕ
last_valid d [] = d
last_valid d (t ∷ ts) = last_valid (if ltb min_type t && ltb t max_type then t else d) ts

type-set_type :
    (p : Packet) (t : ℕ)
    → (set_type p t).0.type ≡ (if ltb min_type t && ltb t max_type then t else p.type)
unfolding set_type
type-set_type p t = ground arith

set_types_lem :
    (p : Packet) (d : ℕ) (ts : List ℕ)
    → p.type ≡ d
    → d < max_type
    → ((set_types p ts).type ≡ last_valid d ts) × ((set_types p ts).type < max_type)
set_types_lem p d [] e h = ground arith
set_types_lem p d (t ∷ ts) e h =
    set_types_lem (set_type p t).0 (if ltb min_type t && ltb t max_type then t else d) ts
      (ground (arith, type-set_type p t)) (ground arith)

-- After any calls of `type` on a new packet, its type is the last argument strictly between MIN
-- and MAX, or MIN if there was none; so it is below MAX.
type-set_types :
    (sender receiver : INode) (ts : List ℕ)
    → ((set_types (new_packet sender receiver) ts).type ≡ last_valid min_type ts)
      × ((set_types (new_packet sender receiver) ts).type < max_type)
unfolding new_packet
type-set_types sender receiver ts =
    set_types_lem (new_packet sender receiver) min_type ts refl (omega arith)

-- Loading a saved packet `p` into a packet `q` takes over the type and both aliases of `p`; the
-- uuids of both nodes and the payload stay those of `q`. The rest of the archive is left.
pub load_packet-save_packet :
    (p q : Packet) (rest : List Item)
    → load_packet q (save_packet p ++ rest)
      ≡ some (
        record {
          sender = record q.sender { alias = p.sender.alias };
          receiver = record q.receiver { alias = p.receiver.alias };
          payload = q.payload;
          type = p.type;
        },
        rest,
      )
unfolding load_packet save_packet load_inode save_inode
load_packet-save_packet p q rest = refl
