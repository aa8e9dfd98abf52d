-- ===== src/NetInterface/Adapters.antt =====
-- util/netinterface.cpp on Windows: the loop that sizes the buffer for GetAdaptersAddresses. What
-- becomes of the adapters is in NetInterface/Listing.antt.
use libgscale.Prelude.{
  ℕ, zero, suc, ◌*◌, ◌≤◌, ◌<◌, ◌≡◌, ◌≢◌, ◌⊎◌, inl, inr, Bool, Bool-cases, arith, ltb, ◌==◌, ◌&&◌,
  if◌then◌else◌,
}
use libgscale.NetInterface.Bounds.{doubled, le-doubled}

-- How the loop ends: in undefined behaviour where there is no memory, as `throw GScale::Exception()` has
-- no file, with the status of the last call, the
-- size of its buffer and what it left in `outBufLen`, or not within the fuel.
pub data Adapters : Type 0 where
  undefined running : Adapters
  answered : ℕ → ℕ → ℕ → Adapters

-- ERROR_BUFFER_OVERFLOW
abbrev pub buffer_overflow : ℕ
buffer_overflow = 111

-- The call gives its status and what it leaves in `outBufLen`.
module _ (malloc : ℕ → Bool) (get_adapters_addresses : ℕ → ℕ × ℕ) where
  -- Behind the call with a buffer of a size; `again` is the next round.
  abbrev pub after_call : (ℕ → Adapters) → ℕ → ℕ × ℕ → Adapters
  after_call again size (status, len) =
      let next = again len in
      if status == buffer_overflow && ltb len 1048576 then next else answered status size len

  -- The loop, on fuel. `outBufLen` is a ULONG, and the double of less than a megabyte fits it.
  unfoldable pub adapters_loop : ℕ → ℕ → Adapters
  adapters_loop zero len = running
  adapters_loop (suc fuel) len =
      if malloc (len * 2)
      then after_call (adapters_loop fuel) (len * 2) (get_adapters_addresses (len * 2))
      else undefined

  -- The loop as it is started.
  unfoldable pub adapters : ℕ → Adapters
  adapters fuel = adapters_loop fuel 15000

-- The loop has ended, with a buffer of less than 2 megabytes that was large enough or for which the
-- call wants at least 1 megabyte.
abbrev pub IsSized : Adapters → Type 0
IsSized undefined = Unit {0}
IsSized running = ⊥
IsSized (answered status size len) =
    (size < 2097152) × ((status ≢ buffer_overflow) ⊎ (1048576 ≤ len))

seven_doubles : (fuel : ℕ) → 7 ≤ fuel → 1048576 ≤ doubled fuel 15000
seven_doubles (suc (suc (suc (suc (suc (suc (suc n))))))) h = omega (arith, le-doubled n 1920000)
seven_doubles n h = absurd (omega arith)

doubled_mono : (fuel a b : ℕ) → a ≤ b → doubled fuel a ≤ doubled fuel b
doubled_mono zero a b h = h
doubled_mono (suc fuel) a b h = doubled_mono fuel (a * 2) (b * 2) (omega arith)

module _ (malloc : ℕ → Bool) (get_adapters_addresses : ℕ → ℕ × ℕ)
    (grows : (size : ℕ)
      → (get_adapters_addresses size).0 ≡ buffer_overflow
      → size ≤ (get_adapters_addresses size).1) where
  adapters_loop-IsSized :
      (fuel len : ℕ)
      → len < 1048576
      → 1048576 ≤ doubled fuel len
      → IsSized (adapters_loop malloc get_adapters_addresses fuel len)
  unfolding adapters_loop
  adapters_loop-IsSized zero len h k = absurd (omega arith)
  adapters_loop-IsSized (suc fuel) len h k = elim (Bool-cases (malloc (len * 2))) [
    | inr e ↦ rw e tt
    | inl e ↦
        let status = (get_adapters_addresses (len * 2)).0 in
        let left = (get_adapters_addresses (len * 2)).1 in
        elim (Bool-cases (status == buffer_overflow && ltb left 1048576)) [
          | inl f ↦
              let more : len * 2 ≤ left = grows (len * 2) (ground arith) in
              rw (e, f)
                (adapters_loop-IsSized fuel left (ground arith)
                  (omega (arith, k, doubled_mono fuel (len * 2) left more)))
          | inr f ↦ rw (e, f) (omega arith, ground arith)
        ]
  ]

  -- Where a call that overflows leaves no smaller size than it had, seven rounds are enough: the loop
  -- throws, or ends with a buffer of less than 2 megabytes that was large enough or for which the
  -- call wants at least 1 megabyte.
  pub adapters-IsSized :
      (fuel : ℕ) → 7 ≤ fuel → IsSized (adapters malloc get_adapters_addresses fuel)
  unfolding adapters
  adapters-IsSized fuel h = adapters_loop-IsSized fuel 15000 (omega arith) (seven_doubles fuel h)
