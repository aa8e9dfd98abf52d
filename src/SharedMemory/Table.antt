-- ===== src/SharedMemory/Table.antt =====
-- Segments of shared memory as the list of their names, last made first; a header has 16 bytes.
use libgscale.Prelude.{
  ℕ, Option, none, some, List, ◌∷◌, arith, length, ltb, if◌then◌else◌, bytes_eq, any_of, not,
  keep_if,
}
use libgscale.Words.{Bytes}
use libgscale.SharedMemory.Interprocess.{Segments, IsLawful}

abbrev make : List Bytes → Bytes → ℕ → Option (ℕ × List Bytes)
make t n size = if ltb size 16 then none else some (length t, n ∷ t)

abbrev make_only : List Bytes → Bytes → ℕ → Option (ℕ × List Bytes)
make_only t n size = if any_of (bytes_eq n) t then none else make t n size

abbrev pub table : Segments
table = record {
  State = List Bytes;
  header = 16;
  create_only = make_only;
  open_or_create = make;
  remove = λ t n. keep_if (λ m. not (bytes_eq n m)) t;
  construct = λ t seg o. some t;
  find_or_construct = λ t seg o. some t;
  destroy = λ t seg o. some t;
}

pub table-IsLawful : IsLawful table
table-IsLawful = record {
  header_large = omega arith;
  create_only_small = λ t n size h. ground arith;
  open_or_create_small = λ t n size h. ground arith;
}
