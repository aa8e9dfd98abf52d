-- ===== src/Words.antt =====
-- Words in memory on a little-endian host: `memcpy` of a uint32_t and `htonl`/`ntohl`, as
-- inode.cpp and backend/tcp/protocol.hpp use them.
use libgscale.Prelude.{ℕ, suc, ◌+◌, ◌*◌, ◌/◌, ◌%◌, ◌^◌, ◌<◌, ◌≡◌, List, [], ◌∷◌, arith, get_or}

-- std::string and raw memory: a list of bytes.
abbrev pub Bytes : Type 0
Bytes = List ℕ

abbrev pub u32_mod : ℕ
u32_mod = 2 ^ 32

-- The bytes that a uint32_t has in memory.
unfoldable pub store_u32 : ℕ → Bytes
store_u32 w = w % 256 ∷ w / 256 % 256 ∷ w / 65536 % 256 ∷ w / 16777216 % 256 ∷ []

-- The uint32_t that stands at an offset in memory.
unfoldable pub load_u32 : Bytes → ℕ → ℕ
load_u32 b o =
    get_or b o 0
    + 256 * get_or b (suc o) 0
    + 65536 * get_or b (suc (suc o)) 0
    + 16777216 * get_or b (suc (suc (suc o))) 0

-- The order of the four bytes is reversed, in both directions.
unfoldable pub htonl : ℕ → ℕ
htonl w = w % 256 * 16777216 + w / 256 % 256 * 65536 + w / 65536 % 256 * 256 + w / 16777216 % 256

pub htonl_involutive : (w : ℕ) → w < u32_mod → htonl (htonl w) ≡ w
unfolding htonl
htonl_involutive w h = omega arith

pub load-store_u32 : (w : ℕ) → w < u32_mod → load_u32 (store_u32 w) 0 ≡ w
unfolding load_u32 store_u32
load-store_u32 w h = omega arith

-- Storing a converted word leaves its bytes in network order, highest first.
pub store_u32-htonl :
    (w : ℕ)
    → w < u32_mod
    → store_u32 (htonl w) ≡ w / 16777216 % 256 ∷ w / 65536 % 256 ∷ w / 256 % 256 ∷ w % 256 ∷ []
unfolding store_u32 htonl
store_u32-htonl w h = ground arith

pub htonl-lt : (w : ℕ) → htonl w < u32_mod
unfolding htonl
htonl-lt w = omega arith
