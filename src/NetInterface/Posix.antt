-- ===== src/NetInterface/Posix.antt =====
-- netinterface.cpp: NetInterface::all as a whole, for Linux.
use libgscale.Prelude.{
  ℕ, ◌/◌, ◌≤◌, ◌<◌, ◌≡◌, ◌≢◌, ◌⊎◌, inl, inr, refl, Bool, true, false, Bool-cases, Option,
  Option-cases, none, some, List, [], take, ◌&&◌, ◌==◌, ltb, zero, suc, ◌*◌, if◌then◌else◌,
  find_first, keep_if, bytes_eq, All,
}
use libgscale.Words.{Bytes}
use libgscale.NetInterface.{
  Query, running, filled, query, query_loop, query_round, IfReq, NetInterface, interfaces,
  new_net_interface, addresses, sa_family, af_inet, af_inet6,
}
use libgscale.NetInterface.Bounds.{HasEnded, query-HasEnded}
use libgscale.NetInterface.Grouping.{answers, has_name, find_first-interfaces}
use libgscale.NetInterface.Union.{interfaces_without_addresses}

-- How NetInterface::all ends: in undefined behaviour, where it makes a GScale::Exception(), with the interfaces, or not within the fuel.
pub data Enumeration : Type 0 where
  undefined unfinished : Enumeration
  returned : List NetInterface → Enumeration

-- What the loop ends with is what the system answered.
abbrev IsAsked : (ℕ → Option ℕ) → Query → Type 0
IsAsked ioctl Query.undefined = (bufsize : ℕ) × (ioctl bufsize ≡ none)
IsAsked ioctl running = Unit {0}
IsAsked ioctl (filled bufsize ifc_len) = ioctl bufsize ≡ some ifc_len

query_loop-IsAsked :
    (ioctl : ℕ → Option ℕ) (fuel bufsize : ℕ) → IsAsked ioctl (query_loop ioctl fuel bufsize)
unfolding query_loop query_round
query_loop-IsAsked ioctl zero bufsize = tt
query_loop-IsAsked ioctl (suc fuel) bufsize = elim (Option-cases (ioctl (bufsize * 2))) [
  | inl e ↦ rw e (bufsize * 2, e)
  | inr (len, e) ↦ elim (Bool-cases (len == bufsize * 2 && ltb (bufsize * 2) 1048576)) [
    | inl f ↦ rw (e, f) (query_loop-IsAsked ioctl fuel (bufsize * 2))
    | inr f ↦ rw (e, f) e
  ]
]

query-IsAsked : (ioctl : ℕ → Option ℕ) (fuel : ℕ) → IsAsked ioctl (query ioctl fuel)
unfolding query
query-IsAsked ioctl fuel = query_loop-IsAsked ioctl fuel 4069

-- `contents` is what SIOCGIFCONF leaves in a buffer of a size, as items, and `width` their size,
-- sizeof(struct ifreq).
module _ (gifaddr gifhwaddr : IfReq → Option Bytes) (contents : ℕ → List IfReq) (width : ℕ) where
  abbrev pub read_buffer : Query → Enumeration
  read_buffer Query.undefined = undefined
  read_buffer running = unfinished
  read_buffer (filled bufsize ifc_len) =
      returned (interfaces gifaddr gifhwaddr (take (ifc_len / width) (contents bufsize)))

  -- NetInterface::all; `opened` says whether there is a socket, and `ioctl` is as for `query`.
  unfoldable pub all_posix : Bool → (ℕ → Option ℕ) → ℕ → Enumeration
  unfolding query query_loop
  all_posix opened ioctl fuel = if opened then read_buffer (query ioctl fuel) else undefined

  -- The interfaces of the items that a query of the system found.
  pub record IsListed (ioctl : ℕ → Option ℕ) (is : List NetInterface) : Type 0 where
    pub bufsize : ℕ
    pub ifc_len : ℕ
    pub asked : ioctl bufsize ≡ some ifc_len
    pub small : bufsize < 2097152
    pub whole : (ifc_len ≢ bufsize) ⊎ (1048576 ≤ bufsize)
    pub found :
        (n : Bytes)
        → find_first (λ (i : NetInterface). bytes_eq i.ifname n) is
          ≡ new_net_interface (
              keep_if
                (has_name n)
                (answers gifaddr gifhwaddr (take (ifc_len / width) (contents bufsize))))
    pub empty : All (λ i. addresses i ≡ []) is

  abbrev pub Lists : Bool → (ℕ → Option ℕ) → Enumeration → Type 0
  Lists opened ioctl undefined = (opened ≡ false) ⊎ ((bufsize : ℕ) × (ioctl bufsize ≡ none))
  Lists opened ioctl unfinished = ⊥
  Lists opened ioctl (returned is) = IsListed ioctl is

  read_buffer-Lists :
      (ioctl : ℕ → Option ℕ) (q : Query)
      → ((r : IfReq) (h : Bytes)
          → gifhwaddr r ≡ some h
          → (sa_family (record r { ifr_ifru = h }) ≢ af_inet)
            × (sa_family (record r { ifr_ifru = h }) ≢ af_inet6))
      → HasEnded q
      → IsAsked ioctl q
      → Lists true ioctl (read_buffer q)
  read_buffer-Lists ioctl Query.undefined other h k = inr k
  read_buffer-Lists ioctl running other h k = h
  read_buffer-Lists ioctl (filled bufsize ifc_len) other h k =
      let items = take (ifc_len / width) (contents bufsize) in
      record {
        bufsize = bufsize;
        ifc_len = ifc_len;
        asked = k;
        small = h.0;
        whole = h.1;
        found = λ n. find_first-interfaces gifaddr gifhwaddr n items;
        empty = interfaces_without_addresses gifaddr gifhwaddr items other;
      }

  -- With fuel for nine rounds, and where SIOCGIFHWADDR never leaves an address of the family of an
  -- IP address in the union: either NetInterface::all is undefined, for it has no socket, or the
  -- system refused a query or has no memory for its buffer, and the exception for that has no file;
  -- or it returns. Then the buffer had less than 2 megabytes, and was not filled to its end or had at
  -- least 1 megabyte; looking for a name among the interfaces is making one interface of all the
  -- answered items of the buffer with that name; and no interface has an address.
  pub all_posix-Lists :
      (opened : Bool) (ioctl : ℕ → Option ℕ) (fuel : ℕ)
      → 9 ≤ fuel
      → ((r : IfReq) (h : Bytes)
          → gifhwaddr r ≡ some h
          → (sa_family (record r { ifr_ifru = h }) ≢ af_inet)
            × (sa_family (record r { ifr_ifru = h }) ≢ af_inet6))
      → Lists opened ioctl (all_posix opened ioctl fuel)
  unfolding all_posix
  all_posix-Lists false ioctl fuel enough other = inl refl
  all_posix-Lists true ioctl fuel enough other =
      read_buffer-Lists ioctl (query ioctl fuel) other (query-HasEnded ioctl fuel enough)
        (query-IsAsked ioctl fuel)
