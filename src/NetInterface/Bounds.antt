-- ===== src/NetInterface/Bounds.antt =====
-- netinterface.cpp: how many rounds the loop takes and how large its buffer gets.
use libgscale.Prelude.{
  ℕ, zero, suc, ◌*◌, ◌≤◌, ◌<◌, ◌≢◌, ◌⊎◌, inl, inr, Bool-cases, Option, Option-cases, arith, ltb,
  ◌==◌, ◌&&◌,
}
use libgscale.NetInterface.{Query, undefined, running, filled, query_round, query_loop, query}

-- The loop has ended, with a buffer of less than 2 megabytes that was not filled to the end or has
-- at least 1 megabyte.
abbrev pub HasEnded : Query → Type 0
HasEnded undefined = Unit {0}
HasEnded running = ⊥
HasEnded (filled bufsize ifc_len) =
    (bufsize < 2097152) × ((ifc_len ≢ bufsize) ⊎ (1048576 ≤ bufsize))

abbrev pub doubled : ℕ → ℕ → ℕ
doubled zero bufsize = bufsize
doubled (suc fuel) bufsize = doubled fuel (bufsize * 2)

pub le-doubled : (fuel bufsize : ℕ) → bufsize ≤ doubled fuel bufsize
le-doubled zero bufsize = omega arith
le-doubled (suc fuel) bufsize = omega (arith, le-doubled fuel (bufsize * 2))

query_loop-HasEnded :
    (ioctl : ℕ → Option ℕ) (fuel bufsize : ℕ)
    → bufsize < 1048576
    → 1048576 ≤ doubled fuel bufsize
    → HasEnded (query_loop ioctl fuel bufsize)
unfolding query_loop query_round
query_loop-HasEnded ioctl zero bufsize h k = absurd (omega arith)
query_loop-HasEnded ioctl (suc fuel) bufsize h k = elim (Option-cases (ioctl (bufsize * 2))) [
  | inl e ↦ rw e tt
  | inr (len, e) ↦ elim (Bool-cases (len == bufsize * 2 && ltb (bufsize * 2) 1048576)) [
    | inl f ↦ rw (e, f) (query_loop-HasEnded ioctl fuel (bufsize * 2) (ground arith) k)
    | inr f ↦ rw (e, f) (omega arith, ground arith)
  ]
]

large_enough : (fuel : ℕ) → 9 ≤ fuel → 1048576 ≤ doubled fuel 4069
large_enough (suc (suc (suc (suc (suc (suc (suc (suc (suc n))))))))) h =
    omega (arith, le-doubled n 2083328)
large_enough n h = absurd (omega arith)

-- Nine rounds are enough, whatever the system answers: the loop is undefined, or ends with a buffer that
-- is smaller than 2 megabytes and was not filled to its end or has at least 1 megabyte.
pub query-HasEnded : (ioctl : ℕ → Option ℕ) (fuel : ℕ) → 9 ≤ fuel → HasEnded (query ioctl fuel)
unfolding query
query-HasEnded ioctl fuel h =
    query_loop-HasEnded ioctl fuel 4069 (omega arith) (large_enough fuel h)
