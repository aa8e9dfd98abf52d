-- ===== src/Node/Wire.antt =====
-- inode.cpp, saveUUID and loadUUID: the uuid as the archive carries it.
use libgscale.Prelude.{
  ℕ, suc, ◌+◌, ◌*◌, ◌/◌, ◌%◌, ◌<◌, ◌≡◌, refl, [], ◌∷◌, ◌++◌, arith, set, length, All, take, drop,
  ◌∙◌,
}
use libgscale.Words.{Bytes, load_u32, htonl}
use libgscale.Core.{Uuid}

-- `*((uint32_t*)(&b[o])) = htonl(*((uint32_t*)(&b[o])))`, and the same with ntohl.
unfoldable pub swap_at : Bytes → ℕ → Bytes
unfolding load_u32 htonl
swap_at b o =
    let w = htonl (load_u32 b o) in
    set (set (set (set b o (w % 256)) (suc o) (w / 256 % 256)) (suc (suc o)) (w / 65536 % 256))
      (suc (suc (suc o))) (w / 16777216 % 256)

-- memcpy(dst, src, n): the new contents of `dst`.
abbrev pub memcpy : Bytes → Bytes → ℕ → Bytes
memcpy dst src n = take n src ++ drop n dst

-- The four statements that convert a buffer of sixteen bytes.
unfoldable pub swap_words : Bytes → Bytes
swap_words b = swap_at (swap_at (swap_at (swap_at b 0) 4) 8) 12

-- INode::saveUUID; the result is the buffer that is archived.
unfoldable pub save_uuid : Uuid → Bytes
save_uuid source = swap_words (memcpy [] source 16)

-- INode::loadUUID(result, source): both arguments as the call leaves them. The last statement is
-- `memcpy(source, &result, 16)`, whose destination is `source`.
unfoldable pub load_uuid : Uuid → Bytes → Uuid × Bytes
load_uuid result source = (result, memcpy (swap_words source) result 16)

-- Sixteen bytes.
abbrev pub IsUuid : Bytes → Type 0
IsUuid u = (length u ≡ 16) × All (λ x. x < 256) u

-- The converted word, read with its first byte lowest.
htonl-load_u32 :
    (a b c d : ℕ) (r : Bytes)
    → a < 256
    → b < 256
    → c < 256
    → d < 256
    → htonl (load_u32 (a ∷ b ∷ c ∷ d ∷ r) 0) ≡ a * 16777216 + b * 65536 + c * 256 + d
unfolding htonl load_u32
htonl-load_u32 a b c d r ha hb hc hd = omega arith

swap_word :
    (a b c d : ℕ) (r : Bytes)
    → (a < 256) × (b < 256) × (c < 256) × (d < 256)
    → swap_at (a ∷ b ∷ c ∷ d ∷ r) 0 ≡ d ∷ c ∷ b ∷ a ∷ r
unfolding swap_at
swap_word a b c d r (ha, hb, hc, hd) = ground (arith, htonl-load_u32 a b c d r ha hb hc hd)

-- A conversion further on leaves the first word alone.
swap_later :
    (a b c d : ℕ) (r : Bytes) (o : ℕ)
    → swap_at (a ∷ b ∷ c ∷ d ∷ r) (suc (suc (suc (suc o)))) ≡ a ∷ b ∷ c ∷ d ∷ swap_at r o
unfolding swap_at
swap_later a b c d r o = refl

-- An independent description of the wire form: every group of four bytes backwards.
abbrev pub reversed_words : Bytes → Bytes
reversed_words (a ∷ b ∷ c ∷ d ∷ r) = d ∷ c ∷ b ∷ a ∷ reversed_words r
reversed_words r = r

swap_words_lem : (u : Bytes) → IsUuid u → swap_words u ≡ reversed_words u
unfolding swap_words
swap_words_lem (a ∷ b ∷ c ∷ d ∷ e ∷ f ∷ g ∷ h ∷ i ∷ j ∷ k ∷ l ∷ m ∷ n ∷ o ∷ p ∷ []) (_, small) =
    rw (
      swap_word a b c d _ (omega arith),
      swap_later d c b a _ 0,
      swap_word e f g h _ (omega arith),
      swap_later d c b a _ 4,
      swap_later h g f e _ 0,
      swap_word i j k l _ (omega arith),
      swap_later d c b a _ 8,
      swap_later h g f e _ 4,
      swap_later l k j i _ 0,
      swap_word m n o p _ (omega arith),
    )
swap_words_lem u (len, _) = absurd (omega arith)

take_uuid : (u : Bytes) → length u ≡ 16 → take 16 u ++ drop 16 [] ≡ u
take_uuid (a ∷ b ∷ c ∷ d ∷ e ∷ f ∷ g ∷ h ∷ i ∷ j ∷ k ∷ l ∷ m ∷ n ∷ o ∷ p ∷ []) len = refl
take_uuid u len = absurd (omega arith)

pub save_uuid_lem : (u : Bytes) → IsUuid u → save_uuid u ≡ reversed_words u
unfolding save_uuid
save_uuid_lem u h = rw (take_uuid u h.0) (swap_words_lem u h)

reversed-IsUuid :
    (u : Bytes) → IsUuid u → IsUuid (reversed_words u) × (reversed_words (reversed_words u) ≡ u)
reversed-IsUuid (a ∷ b ∷ c ∷ d ∷ e ∷ f ∷ g ∷ h ∷ i ∷ j ∷ k ∷ l ∷ m ∷ n ∷ o ∷ p ∷ []) s =
    (omega arith, refl)
reversed-IsUuid u s = absurd (omega arith)

pub swap_words-save_uuid_lem : (u : Bytes) → IsUuid u → swap_words (save_uuid u) ≡ u
swap_words-save_uuid_lem u h =
    let (small, back) = reversed-IsUuid u h in
    rw (save_uuid_lem u h) (swap_words_lem (reversed_words u) small ∙ back)
