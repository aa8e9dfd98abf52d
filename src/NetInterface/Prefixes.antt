-- ===== src/NetInterface/Prefixes.antt =====
-- util/netinterface.cpp on Windows: which prefix an address gets, and what becomes of the objects.
use libgscale.Prelude.{
  ℕ, zero, suc, ◌+◌, ◌*◌, ◌&&◌, ltb, false, ◌≤◌, ◌<◌, ◌≡◌, ◌≢◌, ◌⊎◌, refl, ◌∙◌, ap, inl, inr, Bool,
  Option, none, some, List, [], ◌∷◌, arith, length, length-append, get_or, min, leb, keep_if,
  if◌then◌else◌, ◌==◌, Bool-cases,
}
use libgscale.Words.{Bytes}
use libgscale.Exception.{Host, exception_of_cstring}
use libgscale.NetInterface.Adapters.{
  Adapters, running, answered, adapters, buffer_overflow, after_call, adapters_loop, IsSized,
  adapters-IsSized,
}
use libgscale.NetInterface.Listing.{
  AdapterAddresses, Interface, Setting, plain, set_entry, address_loop, Listing, list_adapter,
  list_adapters, read_adapter, Ended, undefined, not_ended, refusal, refused, returned, after_query,
  all_windows, next_prefix,
}

-- The prefix for the address at a position: the one at that position, or the last one.
abbrev pub prefix_at : List ℕ → ℕ → Option ℕ
prefix_at [] k = none
prefix_at (p ∷ ps) k = some (get_or (p ∷ ps) (min k (length ps)) 0)

module _ (address_from_sockaddr : Bytes → Bytes) (is_v4 : Bytes → Bool) (ipv4netmasks : Bytes → ℕ)
    (make_hw_address : Bytes → Bytes) where
  abbrev entry : Option ℕ → Bytes → Bytes × Setting
  entry p a =
      set_entry address_from_sockaddr is_v4 ipv4netmasks make_hw_address p (address_from_sockaddr a)

  prefix_at-suc :
      (p : ℕ) (ps : List ℕ) (k : ℕ) → prefix_at (next_prefix p ps) k ≡ prefix_at (p ∷ ps) (suc k)
  prefix_at-suc p [] k =
      let a : min k 0 ≡ 0 = omega arith in let b : min (suc k) 0 ≡ 0 = omega arith in rw (a, b) refl
  prefix_at-suc p (q ∷ ps) k =
      let a : min (suc k) (suc (length ps)) ≡ suc (min k (length ps)) = omega arith in rw a refl

  abbrev entries : List ℕ → List Bytes → List (Bytes × Setting)
  entries = address_loop address_from_sockaddr is_v4 ipv4netmasks make_hw_address

  length-entries : (ps : List ℕ) (addrs : List Bytes) → length (entries ps addrs) ≡ length addrs
  unfolding address_loop
  length-entries ps [] = refl
  length-entries [] (a ∷ addrs) = ap suc (length-entries [] addrs)
  length-entries (p ∷ ps) (a ∷ addrs) = ap suc (length-entries (next_prefix p ps) addrs)

  entries_at :
      (ps : List ℕ) (addrs : List Bytes) (k : ℕ)
      → k < length addrs
      → get_or (entries ps addrs) k ([], plain) ≡ entry (prefix_at ps k) (get_or addrs k [])
  unfolding address_loop
  entries_at ps [] k h = absurd (omega arith)
  entries_at [] (a ∷ addrs) zero h = refl
  entries_at [] (a ∷ addrs) (suc k) h = entries_at [] addrs k (omega arith)
  entries_at (p ∷ ps) (a ∷ addrs) zero h =
      let first : min 0 (length ps) ≡ 0 = omega arith in rw first refl
  entries_at (p ∷ ps) (a ∷ addrs) (suc k) h =
      entries_at (next_prefix p ps) addrs k (omega arith)
      ∙ ap (λ q. entry q (get_or addrs k [])) (prefix_at-suc p ps k)

  -- The prefixes that an adapter's structure has, which may be too small for the member.
  abbrev pub prefixes : ℕ → AdapterAddresses → List ℕ
  prefixes at_prefix a = if leb at_prefix a.size then a.first_prefix else []

  abbrev pub made_of : ℕ → ℕ → AdapterAddresses → Interface
  made_of = read_adapter address_from_sockaddr is_v4 ipv4netmasks make_hw_address

  -- Each unicast address of an adapter has one entry, in their order. The address at a position is
  -- set by the prefix at that position, by the last prefix if there are fewer, and by none if there
  -- is none: a prefix gives an address of version 4 its netmask from the table, and one of version 6
  -- the prefix's length.
  pub read_adapter_at :
      (at_v6 at_prefix : ℕ) (a : AdapterAddresses) (k : ℕ)
      → k < length a.first_unicast_address
      → (length (made_of at_v6 at_prefix a).address_entries ≡ length a.first_unicast_address)
        × (get_or (made_of at_v6 at_prefix a).address_entries k ([], plain)
            ≡ set_entry address_from_sockaddr is_v4 ipv4netmasks make_hw_address
                (prefix_at (prefixes at_prefix a) k)
                (address_from_sockaddr (get_or a.first_unicast_address k [])))
  unfolding read_adapter
  read_adapter_at at_v6 at_prefix a k h = (
    length-entries (prefixes at_prefix a) a.first_unicast_address,
    entries_at (prefixes at_prefix a) a.first_unicast_address k h,
  )

-- A listing whose objects all have smaller numbers than the next one, and none of them is left.
abbrev IsDangling : ℕ → Listing → Type 0
IsDangling n l = (l.live ≡ []) × (length l.interfaces ≡ n) × (l.made ≡ n)

list_adapter-IsDangling :
    (n : ℕ) (i : Interface) (l : Listing) → IsDangling n l → IsDangling (n + 1) (list_adapter i l)
unfolding list_adapter keep_if
list_adapter-IsDangling n i l (none_left, count, next) = (
  rw none_left (ground arith),
  omega (arith, length-append l.interfaces (l.made ∷ [])),
  omega arith,
)

list_adapters-IsDangling :
    (read : AdapterAddresses → Interface) (adapters : List AdapterAddresses) (n : ℕ) (l : Listing)
    → IsDangling n l
    → IsDangling (n + length adapters) (list_adapters read adapters l)
unfolding list_adapters
list_adapters-IsDangling read [] n l h = let z : n + 0 ≡ n = omega arith in rw z h
list_adapters-IsDangling read (a ∷ adapters) n l h =
    let z : n + suc (length adapters) ≡ n + 1 + length adapters = omega arith in
    rw z (
      list_adapters-IsDangling read adapters (n + 1) (list_adapter (read a) l)
        (list_adapter-IsDangling n (read a) l h))

-- Why the loop for the buffer ended: no memory for a size, or what the call gave for the size.
abbrev IsCaused : (ℕ → Bool) → (ℕ → ℕ × ℕ) → Adapters → Type 0
IsCaused malloc call Adapters.undefined = (size : ℕ) × (malloc size ≡ false)
IsCaused malloc call running = Unit {0}
IsCaused malloc call (answered status size len) = (call size).0 ≡ status

after_call-IsCaused :
    (malloc : ℕ → Bool) (call : ℕ → ℕ × ℕ) (again : ℕ → Adapters) (size : ℕ) (r : ℕ × ℕ)
    → ((len : ℕ) → IsCaused malloc call (again len))
    → call size ≡ r
    → IsCaused malloc call (after_call malloc call again size r)
after_call-IsCaused malloc call again size (status, len) ih e =
    elim (Bool-cases (status == buffer_overflow && ltb len 1048576)) [
      | inl k ↦ rw k (ih len)
      | inr k ↦ rw k (ap (λ (x : ℕ × ℕ). x.0) e)
    ]

adapters_loop-IsCaused :
    (malloc : ℕ → Bool) (call : ℕ → ℕ × ℕ) (fuel len : ℕ)
    → IsCaused malloc call (adapters_loop malloc call fuel len)
unfolding adapters_loop
adapters_loop-IsCaused malloc call zero len = tt
adapters_loop-IsCaused malloc call (suc fuel) len = elim (Bool-cases (malloc (len * 2))) [
  | inr k ↦ rw k (len * 2, k)
  | inl k ↦ rw k (
      after_call-IsCaused malloc call (adapters_loop malloc call fuel) (len * 2) (call (len * 2))
        (adapters_loop-IsCaused malloc call fuel) refl)
]

-- An end in undefined behaviour, for want of memory or behind a call that failed, or with no interface
-- and only deleted objects.
abbrev pub GivesNothing : (ℕ → Bool) → (ℕ → ℕ × ℕ) → (ℕ → List AdapterAddresses) → Ended → Type 0
GivesNothing malloc call adapters_in undefined =
    ((size : ℕ) × (malloc size ≡ false)) ⊎ ((size : ℕ) × ((call size).0 ≢ 0))
GivesNothing malloc call adapters_in not_ended = ⊥
GivesNothing malloc call adapters_in (refused e) = ⊥
GivesNothing malloc call adapters_in (returned l result) =
    (result ≡ [])
    × (l.live ≡ [])
    × ((size : ℕ) × (size < 2097152) × (length l.interfaces ≡ length (adapters_in size)))

module _ (malloc : ℕ → Bool) (get_adapters_addresses : ℕ → ℕ × ℕ) (host : Host) (file : Bytes)
    (format_message : ℕ → Option Bytes) (read : AdapterAddresses → Interface)
    (adapters_in : ℕ → List AdapterAddresses) where
  abbrev Nothing : Ended → Type 0
  Nothing = GivesNothing malloc get_adapters_addresses adapters_in

  refusal-Nothing :
      (size : ℕ)
      → (get_adapters_addresses size).0 ≢ 0
      → (text : Option Bytes) → Nothing (refusal text none)
  refusal-Nothing size failed none = inr (size, failed)
  refusal-Nothing size failed (some t) = inr (size, failed)

  after_query-GivesNothing :
      (q : Adapters)
      → IsSized q
      → IsCaused malloc get_adapters_addresses q
      → Nothing (after_query host file format_message read adapters_in q)
  unfolding after_query exception_of_cstring
  after_query-GivesNothing Adapters.undefined h cause = inl cause
  after_query-GivesNothing running h cause = h
  after_query-GivesNothing (answered status size len) h cause = elim (Bool-cases (status == 0)) [
    | inr e ↦ rw e (refusal-Nothing size (ground arith) (format_message status))
    | inl e ↦
        let start : Listing = record { made = 0; interfaces = []; live = [] } in
        let done = list_adapters-IsDangling read (adapters_in size) 0 start (refl, refl, refl) in
        rw e (refl, done.0, (size, h.0, done.1 ∙ omega arith))
  ]

  -- Where a call that overflows leaves no smaller size than it had, seven rounds are enough for
  -- NetInterface::all on Windows, and it throws no exception, as it makes each with NULL for a text:
  -- either a size cannot be allocated, or the call fails for a size, and it is undefined; or it
  -- returns no interface, whatever adapters the system has. Its list of interfaces then has a pointer
  -- for each adapter that the call left in a buffer of less than 2 megabytes, and every object that
  -- was made is deleted.
  pub all_windows-GivesNothing :
      ((size : ℕ)
        → (get_adapters_addresses size).0 ≡ buffer_overflow
        → size ≤ (get_adapters_addresses size).1)
      → (fuel : ℕ) → 7 ≤ fuel
      → GivesNothing malloc get_adapters_addresses adapters_in
          (all_windows malloc get_adapters_addresses host file format_message read adapters_in fuel)
  unfolding all_windows adapters
  all_windows-GivesNothing grows fuel h =
      after_query-GivesNothing (adapters malloc get_adapters_addresses fuel)
        (adapters-IsSized malloc get_adapters_addresses grows fuel h)
        (adapters_loop-IsCaused malloc get_adapters_addresses fuel 15000)
