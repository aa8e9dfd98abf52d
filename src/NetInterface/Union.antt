-- ===== src/NetInterface/Union.antt =====
-- netinterface.cpp: the members of an ifreq that share one union.
use libgscale.Prelude.{
  ◌≡◌, ◌≢◌, refl, Bool-cases, inl, inr, Option, Option-cases, some, List, [], ◌∷◌, ◌++◌, arith,
  bytes_eq, All,
}
use libgscale.Words.{Bytes}
use libgscale.NetInterface.{
  IfReq, af_inet, af_inet6, sa_family, addresses_of, collect, push_item, request, group_items,
  new_net_interface, make_all, interfaces, addresses, bytes_lt,
}

abbrev NoAddress : List IfReq → Type 0
NoAddress rs = All (λ r. addresses_of r ≡ []) rs

collect-NoAddress : (rs : List IfReq) → NoAddress rs → collect rs ≡ []
collect-NoAddress [] h = refl
collect-NoAddress (q ∷ rs) h = rw h.0 (collect-NoAddress rs h.1)

snoc-NoAddress :
    (rs : List IfReq) (r : IfReq) → NoAddress rs → addresses_of r ≡ [] → NoAddress (rs ++ r ∷ [])
snoc-NoAddress [] r h k = (k, tt)
snoc-NoAddress (q ∷ rs) r h k = (h.0, snoc-NoAddress rs r h.1 k)

abbrev HasNone : List (Bytes × List IfReq) → Type 0
HasNone m = All (λ (e : Bytes × List IfReq). NoAddress e.1) m

push_item-HasNone :
    (r : IfReq) (m : List (Bytes × List IfReq))
    → addresses_of r ≡ []
    → HasNone m
    → HasNone (push_item r m)
unfolding push_item
push_item-HasNone r [] k h = ((k, tt), tt)
push_item-HasNone r ((name, items) ∷ m) k h = elim (Bool-cases (bytes_eq name r.ifr_name)) [
  | inl e ↦ rw e (snoc-NoAddress items r h.0 k, h.1)
  | inr e ↦ elim (Bool-cases (bytes_lt r.ifr_name name)) [
    | inl l ↦ rw (e, l) ((k, tt), h)
    | inr l ↦ rw (e, l) (h.0, push_item-HasNone r m k h.1)
  ]
]

make_all-HasNone :
    (m : List (Bytes × List IfReq)) → HasNone m → All (λ i. addresses i ≡ []) (make_all m)
unfolding make_all new_net_interface addresses
make_all-HasNone [] h = tt
make_all-HasNone ((name, []) ∷ m) h = make_all-HasNone m h.1
make_all-HasNone ((name, r ∷ rs) ∷ m) h = (collect-NoAddress (r ∷ rs) h.0, make_all-HasNone m h.1)

other_family : (r : IfReq) → sa_family r ≢ af_inet → sa_family r ≢ af_inet6 → addresses_of r ≡ []
unfolding addresses_of
other_family r h k = ground arith

module _ (gifaddr gifhwaddr : IfReq → Option Bytes) where
  group_items-HasNone :
      (rs : List IfReq) (m : List (Bytes × List IfReq))
      → ((r q : IfReq) → request gifaddr gifhwaddr r ≡ some q → addresses_of q ≡ [])
      → HasNone m
      → HasNone (group_items gifaddr gifhwaddr rs m)
  unfolding group_items
  group_items-HasNone [] m f h = h
  group_items-HasNone (r ∷ rs) m f h = elim (Option-cases (request gifaddr gifhwaddr r)) [
    | inl e ↦ rw e (group_items-HasNone rs m f h)
    | inr (q, e) ↦
        rw e (group_items-HasNone rs (push_item q m) f (push_item-HasNone q m (f r q e) h))
  ]

  request-NoAddress :
      ((r : IfReq) (h : Bytes)
        → gifhwaddr r ≡ some h
        → (sa_family (record r { ifr_ifru = h }) ≢ af_inet)
          × (sa_family (record r { ifr_ifru = h }) ≢ af_inet6))
      → (r q : IfReq) → request gifaddr gifhwaddr r ≡ some q
      → addresses_of q ≡ []
  unfolding request
  request-NoAddress other r q e = elim (Option-cases (gifaddr r)) [
    | inl f ↦ ground (arith)
    | inr (a, f) ↦
        let asked : IfReq = record r { ifr_ifru = a } in
        elim (Option-cases (gifhwaddr asked)) [
          | inl g ↦ ground (arith)
          | inr (h, g) ↦
              let family = other asked h g in
              let empty = other_family (record r { ifr_ifru = h }) family.0 family.1 in
              ground (arith, empty)
        ]
  ]

  -- Where the hardware address that SIOCGIFHWADDR puts into the union is never of the family of an
  -- IP address, no interface of the system has an address, a broadcast address or a netmask.
  pub interfaces_without_addresses :
      (rs : List IfReq)
      → ((r : IfReq) (h : Bytes)
          → gifhwaddr r ≡ some h
          → (sa_family (record r { ifr_ifru = h }) ≢ af_inet)
            × (sa_family (record r { ifr_ifru = h }) ≢ af_inet6))
      → All (λ i. addresses i ≡ []) (interfaces gifaddr gifhwaddr rs)
  unfolding interfaces
  interfaces_without_addresses rs other =
      make_all-HasNone (group_items gifaddr gifhwaddr rs [])
        (group_items-HasNone rs [] (request-NoAddress other) tt)
