-- ===== src/Examples/Interfaces.antt =====
-- Runs of util/netinterface.cpp.
use libgscale.Prelude.{
  none, ℕ, ◌≡◌, ◌≢◌, subst, Option, some, List, [], ◌∷◌, ◌≤◌, ltb, if◌then◌else◌, Bool, true, arith,
  length, get_or, min, find_first, keep_if, bytes_eq,
}
use libgscale.Words.{Bytes}
use libgscale.NetInterface.{
  IfReq, NetInterface, interfaces, new_net_interface, sa_family, af_inet, af_inet6,
}
use libgscale.NetInterface.Grouping.{answers, has_name, find_first-interfaces}
use libgscale.NetInterface.Adapters.{buffer_overflow}
use libgscale.Exception.{Host}
use libgscale.NetInterface.Listing.{AdapterAddresses, plain, set_entry, all_windows}
use libgscale.NetInterface.Prefixes.{
  made_of, read_adapter_at, GivesNothing, all_windows-GivesNothing,
}
use libgscale.NetInterface.Posix.{all_posix, Lists, all_posix-Lists}

-- A system with 20000 bytes to report.
abbrev answer : ℕ → Option ℕ
answer n = some (min n 20000)

abbrev item : Bytes → IfReq
item name = record { ifr_name = name; ifr_ifru = [] }

-- Two items of one interface, and one of another between them.
abbrev items : List IfReq
items = item (108 ∷ 111 ∷ []) ∷ item (101 ∷ 48 ∷ []) ∷ item (108 ∷ 111 ∷ []) ∷ []

-- An IP address, and an Ethernet address.
abbrev ip : IfReq → Option Bytes
ip r = some (2 ∷ 0 ∷ 0 ∷ 0 ∷ 10 ∷ 0 ∷ 0 ∷ 1 ∷ [])

abbrev ethernet : IfReq → Option Bytes
ethernet r = some (1 ∷ 0 ∷ 7 ∷ 7 ∷ 7 ∷ 7 ∷ 7 ∷ 7 ∷ [])

find_first-interfaces_example :
    find_first
      (λ (i : NetInterface). bytes_eq i.ifname (108 ∷ 111 ∷ []))
      (interfaces ip ethernet items)
    ≡ new_net_interface (keep_if (has_name (108 ∷ 111 ∷ [])) (answers ip ethernet items))
find_first-interfaces_example = find_first-interfaces ip ethernet (108 ∷ 111 ∷ []) items

other_family :
    (r : IfReq) (h : Bytes)
    → ethernet r ≡ some h
    → (sa_family (record r { ifr_ifru = h }) ≢ af_inet)
      × (sa_family (record r { ifr_ifru = h }) ≢ af_inet6)
other_family r h e =
    let same : (1 ∷ 0 ∷ 7 ∷ 7 ∷ 7 ∷ 7 ∷ 7 ∷ 7 ∷ []) ≡ h = cc in
    subst
      (λ (u : Bytes).
        (sa_family (record r { ifr_ifru = u }) ≢ af_inet)
        × (sa_family (record r { ifr_ifru = u }) ≢ af_inet6))
      same (λ z. omega arith, λ z. omega arith)

-- The items of a buffer, and their size.
abbrev in_buffer : ℕ → List IfReq
in_buffer n = items

all_posix-Lists_example :
    Lists ip ethernet in_buffer 40 true answer (all_posix ip ethernet in_buffer 40 true answer 9)
all_posix-Lists_example =
    all_posix-Lists ip ethernet in_buffer 40 true answer 9 (omega arith) other_family

-- A system that wants 40000 bytes.
abbrev wants : ℕ → ℕ × ℕ
wants size = if ltb size 40000 then (buffer_overflow, 40000) else (0, size)

wants_more : (size : ℕ) → (wants size).0 ≡ buffer_overflow → size ≤ (wants size).1
wants_more size e = ground arith

-- An adapter with two addresses and one prefix.
abbrev adapter : AdapterAddresses
adapter = record {
  size = 376;
  adapter_name = 101 ∷ [];
  friendly_name = 69 ∷ [];
  if_index = 2;
  ipv6_if_index = 0;
  oper_status = 1;
  flags = 0;
  physical_address = 1 ∷ 2 ∷ 3 ∷ 4 ∷ 5 ∷ 6 ∷ [];
  first_unicast_address = (10 ∷ []) ∷ (254 ∷ 128 ∷ []) ∷ [];
  first_prefix = 24 ∷ [];
}

abbrev same : Bytes → Bytes
same b = b

abbrev is_short : Bytes → Bool
is_short b = ltb (length b) 2

abbrev mask : Bytes → ℕ
mask b = 8

read_adapter_at_example :
    (length (made_of same is_short mask same 72 100 adapter).address_entries ≡ 2)
    × (get_or (made_of same is_short mask same 72 100 adapter).address_entries 1 ([], plain)
        ≡ set_entry same is_short mask same (some 24) (254 ∷ 128 ∷ []))
read_adapter_at_example = read_adapter_at same is_short mask same 72 100 adapter 1 (omega arith)

abbrev windows : Host
windows = record { errno = 0; has_memory = true; strerror = (λ code. []) }

all_windows-GivesNothing_example :
    GivesNothing
      (λ size. true)
      wants
      (λ size. adapter ∷ [])
      (all_windows
        (λ size. true)
        wants
        windows
        []
        (λ code. none)
        (made_of same is_short mask same 72 100)
        (λ size. adapter ∷ [])
        7)
all_windows-GivesNothing_example =
    all_windows-GivesNothing (λ size. true) wants windows [] (λ code. none)
      (made_of same is_short mask same 72 100) (λ size. adapter ∷ []) wants_more 7 (omega arith)
