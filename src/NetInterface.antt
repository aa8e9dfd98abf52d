-- ===== src/NetInterface.antt =====
-- util/netinterface.cpp and netinterface.hpp for Linux: the interfaces of the system, asked for with
-- larger and larger buffers and put together by name.
pub mod Bounds
pub mod Grouping
pub mod Union
pub mod Adapters
pub mod Listing
pub mod Prefixes
pub mod Posix
use libgscale.Prelude.{
  ℕ, zero, suc, ◌+◌, ◌*◌, Bool, true, false, ◌&&◌, ◌||◌, Option, none, some, ltb, ◌==◌,
  if◌then◌else◌, List, [], ◌∷◌, ◌++◌, get_or, take, drop, replicate, any_of, bytes_eq,
}
use libgscale.Words.{Bytes, load_u32}

-- How the loop ends: in undefined behaviour, with the size of the buffer and the `ifc_len` that the
-- system left, or not within the fuel. `throw GScale::Exception()` is undefined, for that makes a
-- std::string of its argument `file`, which is NULL.
pub data Query : Type 0 where
  undefined running : Query
  filled : ℕ → ℕ → Query

-- The body of the loop for a size and its condition; `rest` is the next round. `ioctl` gives what
-- SIOCGIFCONF leaves in `ifc_len` for a buffer of a size, and `none` where it fails with an errno
-- other than EOVERFLOW or there is no memory for the buffer.
unfoldable pub query_round : Option ℕ → ℕ → Query → Query
query_round none bufsize rest = undefined
query_round (some ifc_len) bufsize rest =
    if ifc_len == bufsize && ltb bufsize 1048576 then rest else filled bufsize ifc_len

-- The loop, on fuel, which doubles the size in each round.
unfoldable pub query_loop : (ℕ → Option ℕ) → ℕ → ℕ → Query
unfolding query_round
query_loop ioctl zero bufsize = running
query_loop ioctl (suc fuel) bufsize =
    query_round (ioctl (bufsize * 2)) (bufsize * 2) (query_loop ioctl fuel (bufsize * 2))

-- The loop as it is started.
unfoldable pub query : (ℕ → Option ℕ) → ℕ → Query
query ioctl fuel = query_loop ioctl fuel 4069

-- struct ifreq: the name up to its NUL, and the memory from the union `ifr_ifru` on. The address,
-- the broadcast address, the netmask, the hardware address and the mtu all stand in that union.
pub record IfReq : Type 0 where
  pub ifr_name : Bytes
  pub ifr_ifru : Bytes

-- boost::asio::ip::address: of version 4 as its s_addr, of version 6 as its bytes and scope.
pub data Address : Type 0 where
  v4 : ℕ → Address
  v6 : Bytes → ℕ → Address

pub record NetInterface : Type 0 where
  pub ifname : Bytes
  pub addr : List (Address × Address × Address)
  pub ifmac : Bytes
  pub ifmtu : ℕ

-- `sa_family` of the sockaddr at the union's start.
abbrev pub sa_family : IfReq → ℕ
sa_family r = get_or r.ifr_ifru 0 0 + 256 * get_or r.ifr_ifru 1 0

-- AF_INET, AF_INET6
abbrev pub af_inet : ℕ
af_inet = 2

abbrev pub af_inet6 : ℕ
af_inet6 = 10

-- The switch of the constructor: the addresses that one item adds.
unfoldable pub addresses_of : IfReq → List (Address × Address × Address)
addresses_of r =
    let a = v4 (load_u32 r.ifr_ifru 4) in
    let b = v6 (take 16 (drop 8 r.ifr_ifru)) (load_u32 r.ifr_ifru 24) in
    let none_given = v6 (replicate 16 0) 0 in
    if sa_family r == af_inet
    then (a, a, a) ∷ []
    else if sa_family r == af_inet6
    then (b, none_given, none_given) ∷ []
    else []

-- The loop of the constructor, for fewer than 65536 items, as its index is a uint16_t.
abbrev pub collect : List IfReq → List (Address × Address × Address)
collect [] = []
collect (r ∷ rs) = addresses_of r ++ collect rs

-- NetInterface::NetInterface; `none` is the exception with ENOENT.
unfoldable pub new_net_interface : List IfReq → Option NetInterface
new_net_interface [] = none
new_net_interface (first ∷ rest) = some (record {
  ifname = first.ifr_name;
  addr = collect (first ∷ rest);
  ifmac = take 6 (drop 2 first.ifr_ifru);
  ifmtu = load_u32 first.ifr_ifru 0;
})

-- std::string::operator<, byte by byte.
unfoldable pub bytes_lt : Bytes → Bytes → Bool
bytes_lt [] [] = false
bytes_lt [] (y ∷ ys) = true
bytes_lt (x ∷ xs) [] = false
bytes_lt (x ∷ xs) (y ∷ ys) = ltb x y || (x == y && bytes_lt xs ys)

-- The std::map from names to items, by name: an item goes behind those of its name.
unfoldable pub push_item : IfReq → List (Bytes × List IfReq) → List (Bytes × List IfReq)
push_item r [] = (r.ifr_name, r ∷ []) ∷ []
push_item r ((name, items) ∷ m) =
    let rest = push_item r m in
    if bytes_eq name r.ifr_name
    then (name, items ++ r ∷ []) ∷ m
    else if bytes_lt r.ifr_name name
    then (r.ifr_name, r ∷ []) ∷ (name, items) ∷ m
    else (name, items) ∷ rest

-- The loop over the map; an exception of the constructor is caught and dropped.
unfoldable pub make_all : List (Bytes × List IfReq) → List NetInterface
unfolding new_net_interface
make_all [] = []
make_all ((name, items) ∷ m) = elim (new_net_interface items) [
  | none ↦ make_all m
  | some i ↦ i ∷ make_all m
]

-- The ioctls on an item give what they leave in the union, and `none` if they fail.
module _ (gifaddr gifhwaddr : IfReq → Option Bytes) where
  -- The body of the loop over the items up to the map; `none` is `continue`.
  unfoldable pub request : IfReq → Option IfReq
  request r = elim (gifaddr r) [
    | none ↦ none
    | some a ↦ elim (gifhwaddr (record r { ifr_ifru = a })) [
      | none ↦ none
      | some h ↦ some (record r { ifr_ifru = h })
    ]
  ]

  abbrev pub push_answer : Option IfReq → List (Bytes × List IfReq) → List (Bytes × List IfReq)
  push_answer none m = m
  push_answer (some r) m = push_item r m

  -- The loop over the items.
  unfoldable pub group_items : List IfReq → List (Bytes × List IfReq) → List (Bytes × List IfReq)
  unfolding request push_item
  group_items [] m = m
  group_items (r ∷ rs) m = group_items rs (push_answer (request r) m)

  -- The part of NetInterface::all behind the query.
  unfoldable pub interfaces : List IfReq → List NetInterface
  interfaces items = make_all (group_items items [])

-- NetInterface::address, broadcast and netmask: std::set of a component, here in order of the
-- list and without repetitions.
abbrev pub insert_address : (Address → Address → Bool) → Address → List Address → List Address
insert_address same a v = if any_of (same a) v then v else v ++ a ∷ []

unfoldable pub get_addr_by_index :
    (Address → Address → Bool)
    → (Address × Address × Address → Address)
    → List (Address × Address × Address)
    → List Address
    → List Address
get_addr_by_index same get [] v = v
get_addr_by_index same get (t ∷ ts) v =
    get_addr_by_index same get ts (insert_address same (get t) v)

-- NetInterface::addresses and mtu
unfoldable pub addresses : NetInterface → List (Address × Address × Address)
addresses i = i.addr

unfoldable pub mtu : NetInterface → ℕ
mtu i = i.ifmtu
