-- ===== src/NetInterface/Grouping.antt =====
-- netinterface.cpp: the interfaces that NetInterface::all makes of the items.
use mathlib.Core.List.{append-nil, append_assoc}
use libgscale.Prelude.{
  ◌≡◌, inl, inr, refl, sym, ◌∙◌, ap, subst, Bool, true, false, Bool-cases, Option, Option-cases,
  none, some, List, [], ◌∷◌, ◌++◌, arith, if◌then◌else◌, bytes_eq, bytes_eq_iff, keep_if,
  find_first, All,
}
use libgscale.Words.{Bytes}
use libgscale.NetInterface.{
  IfReq, NetInterface, bytes_lt, push_item, request, group_items, new_net_interface, make_all,
  interfaces,
}

bytes_lt_trans :
    (xs ys zs : Bytes) → bytes_lt xs ys ≡ true → bytes_lt ys zs ≡ true → bytes_lt xs zs ≡ true
unfolding bytes_lt
bytes_lt_trans [] [] zs h k = k
bytes_lt_trans [] (y ∷ ys) [] h k = k
bytes_lt_trans [] (y ∷ ys) (z ∷ zs) h k = refl
bytes_lt_trans (x ∷ xs) [] zs h k = absurd cc
bytes_lt_trans (x ∷ xs) (y ∷ ys) [] h k = absurd cc
bytes_lt_trans (x ∷ xs) (y ∷ ys) (z ∷ zs) h k = ground (arith, bytes_lt_trans xs ys zs)

bytes_lt_irrefl : (xs : Bytes) → bytes_lt xs xs ≡ false
unfolding bytes_lt
bytes_lt_irrefl [] = refl
bytes_lt_irrefl (x ∷ xs) = ground (arith, bytes_lt_irrefl xs)

bytes_lt_total :
    (xs ys : Bytes) → bytes_eq xs ys ≡ false → bytes_lt ys xs ≡ false → bytes_lt xs ys ≡ true
unfolding bytes_lt bytes_eq
bytes_lt_total [] [] h k = absurd cc
bytes_lt_total [] (y ∷ ys) h k = refl
bytes_lt_total (x ∷ xs) [] h k = absurd cc
bytes_lt_total (x ∷ xs) (y ∷ ys) h k = ground (arith, bytes_lt_total xs ys)

-- Names rise along the map.
abbrev IsSorted : List (Bytes × List IfReq) → Type 0
IsSorted [] = Unit {0}
IsSorted (e ∷ m) = All (λ (f : Bytes × List IfReq). bytes_lt e.0 f.0 ≡ true) m × IsSorted m

-- What the map has for a name.
abbrev items_of : Bytes → List (Bytes × List IfReq) → List IfReq
items_of n [] = []
items_of n ((name, items) ∷ m) = let rest = items_of n m in if bytes_eq name n then items else rest

All-push_item :
    (k : Bytes) (r : IfReq) (m : List (Bytes × List IfReq))
    → bytes_lt k r.ifr_name ≡ true
    → All (λ (f : Bytes × List IfReq). bytes_lt k f.0 ≡ true) m
    → All (λ (f : Bytes × List IfReq). bytes_lt k f.0 ≡ true) (push_item r m)
unfolding push_item
All-push_item k r [] h a = (h, tt)
All-push_item k r ((name, items) ∷ m) h a = ground (arith, All-push_item k r m h a.1)

All-above :
    (j k : Bytes) (m : List (Bytes × List IfReq))
    → bytes_lt j k ≡ true
    → All (λ (f : Bytes × List IfReq). bytes_lt k f.0 ≡ true) m
    → All (λ (f : Bytes × List IfReq). bytes_lt j f.0 ≡ true) m
All-above j k [] h a = tt
All-above j k ((name, items) ∷ m) h a = (bytes_lt_trans j k name h a.0, All-above j k m h a.1)

push_item-IsSorted :
    (r : IfReq) (m : List (Bytes × List IfReq)) → IsSorted m → IsSorted (push_item r m)
unfolding push_item
push_item-IsSorted r [] s = (tt, tt)
push_item-IsSorted r ((name, items) ∷ m) s = elim (Bool-cases (bytes_eq name r.ifr_name)) [
  | inl e ↦ rw e s
  | inr e ↦ elim (Bool-cases (bytes_lt r.ifr_name name)) [
    | inl l ↦ rw (e, l) ((l, All-above r.ifr_name name m l s.0), s)
    | inr l ↦
        rw (e, l)
          (
            All-push_item name r m (bytes_lt_total name r.ifr_name e l) s.0,
            push_item-IsSorted r m s.1,
          )
  ]
]

-- A name below all names of the map has no items.
items_of_below :
    (n : Bytes) (m : List (Bytes × List IfReq))
    → All (λ (f : Bytes × List IfReq). bytes_lt n f.0 ≡ true) m
    → items_of n m ≡ []
items_of_below n [] a = refl
items_of_below n ((name, items) ∷ m) a =
    ground (arith, items_of_below n m a.1, bytes_eq_iff name n, bytes_lt_irrefl n)

items_of-push_item :
    (n : Bytes) (r : IfReq) (m : List (Bytes × List IfReq))
    → IsSorted m
    → items_of n (push_item r m)
      ≡ (if bytes_eq r.ifr_name n then items_of n m ++ r ∷ [] else items_of n m)
unfolding push_item
items_of-push_item n r [] s = ground arith
items_of-push_item n r ((name, items) ∷ m) s = elim (Bool-cases (bytes_eq name r.ifr_name)) [
  | inl e ↦
      let same = (bytes_eq_iff name r.ifr_name).0 e in
      rw (e, same)
        (elim (Bool-cases (bytes_eq r.ifr_name n)) [ inl f ↦ rw f refl | inr f ↦ rw f refl ])
  | inr e ↦ elim (Bool-cases (bytes_lt r.ifr_name name)) [
    | inl l ↦ elim (Bool-cases (bytes_eq r.ifr_name n)) [
      | inl f ↦
          let all : All (λ (f : Bytes × List IfReq). bytes_lt r.ifr_name f.0 ≡ true)
              ((name, items) ∷ m) =
            (l, All-above r.ifr_name name m l s.0) in
          let nothing : items_of n ((name, items) ∷ m) ≡ [] =
            subst (λ k. items_of k ((name, items) ∷ m) ≡ []) ((bytes_eq_iff r.ifr_name n).0 f)
              (items_of_below r.ifr_name ((name, items) ∷ m) all) in
          rw (e, l, f) (ap (λ t. t ++ r ∷ []) (sym nothing))
      | inr f ↦ rw (e, l, f) refl
    ]
    | inr l ↦
        rw (e, l)
          (elim (Bool-cases (bytes_eq name n)) [
            | inl g ↦
                let other : bytes_eq r.ifr_name n ≡ false = ground (
                  arith,
                  bytes_eq_iff name n,
                  bytes_eq_iff r.ifr_name n,
                  bytes_eq_iff name r.ifr_name,
                ) in
                rw (g, other) refl
            | inr g ↦ rw g (items_of-push_item n r m s.1)
          ])
  ]
]

-- The items of a map's entry have its name, and there is one at least.
abbrev IsNamed : List (Bytes × List IfReq) → Type 0
IsNamed [] = Unit {0}
IsNamed ((name, []) ∷ m) = ⊥
IsNamed ((name, r ∷ rs) ∷ m) = (r.ifr_name ≡ name) × IsNamed m

push_item-IsNamed :
    (r : IfReq) (m : List (Bytes × List IfReq)) → IsNamed m → IsNamed (push_item r m)
unfolding push_item
push_item-IsNamed r [] s = (refl, tt)
push_item-IsNamed r ((name, []) ∷ m) s = absurd s
push_item-IsNamed r ((name, q ∷ qs) ∷ m) s = ground (arith, push_item-IsNamed r m s.1)

abbrev pub has_name : Bytes → IfReq → Bool
has_name n r = bytes_eq r.ifr_name n

-- Looking for an interface is making it of the map's items.
find_first-make_all :
    (n : Bytes) (m : List (Bytes × List IfReq))
    → IsNamed m
    → find_first (λ (i : NetInterface). bytes_eq i.ifname n) (make_all m)
      ≡ new_net_interface (items_of n m)
unfolding find_first make_all new_net_interface
find_first-make_all n [] s = refl
find_first-make_all n ((name, []) ∷ m) s = absurd s
find_first-make_all n ((name, r ∷ rs) ∷ m) s = rw s.0 (elim (Bool-cases (bytes_eq name n)) [
  | inl e ↦ rw e refl
  | inr e ↦ rw e (find_first-make_all n m s.1)
])

abbrev add_answer : Option IfReq → List IfReq → List IfReq
add_answer none rs = rs
add_answer (some r) rs = r ∷ rs

keep_if-snoc :
    (n : Bytes) (r : IfReq) (xs rs : List IfReq)
    → (if bytes_eq r.ifr_name n then xs ++ r ∷ [] else xs) ++ keep_if (has_name n) rs
      ≡ xs ++ keep_if (has_name n) (r ∷ rs)
unfolding keep_if
keep_if-snoc n r xs rs = elim (Bool-cases (bytes_eq r.ifr_name n)) [
  | inl e ↦ rw e (append_assoc xs (r ∷ []) (keep_if (has_name n) rs))
  | inr e ↦ rw e refl
]

module _ (gifaddr gifhwaddr : IfReq → Option Bytes) where
  -- The items for which both ioctls succeed, with what the second left in the union.
  abbrev pub answers : List IfReq → List IfReq
  answers [] = []
  answers (r ∷ rs) = add_answer (request gifaddr gifhwaddr r) (answers rs)

  group_items_keeps :
      (rs : List IfReq) (m : List (Bytes × List IfReq))
      → IsSorted m
      → IsNamed m
      → IsSorted (group_items gifaddr gifhwaddr rs m) × IsNamed (group_items gifaddr gifhwaddr rs m)
  unfolding group_items
  group_items_keeps [] m s k = (s, k)
  group_items_keeps (r ∷ rs) m s k = elim (Option-cases (request gifaddr gifhwaddr r)) [
    | inl e ↦ rw e (group_items_keeps rs m s k)
    | inr (q, e) ↦
        rw e (
          group_items_keeps rs (push_item q m) (push_item-IsSorted q m s) (push_item-IsNamed q m k))
  ]

  items_of-group_items :
      (n : Bytes) (rs : List IfReq) (m : List (Bytes × List IfReq))
      → IsSorted m
      → items_of n (group_items gifaddr gifhwaddr rs m)
        ≡ items_of n m ++ keep_if (has_name n) (answers rs)
  unfolding group_items keep_if
  items_of-group_items n [] m s = sym (append-nil (items_of n m))
  items_of-group_items n (r ∷ rs) m s = elim (Option-cases (request gifaddr gifhwaddr r)) [
    | inl e ↦ rw e (items_of-group_items n rs m s)
    | inr (q, e) ↦ rw e (
        items_of-group_items n rs (push_item q m) (push_item-IsSorted q m s)
        ∙ ap (λ t. t ++ keep_if (has_name n) (answers rs)) (items_of-push_item n q m s)
        ∙ keep_if-snoc n q (items_of n m) (answers rs))
  ]

  -- Looking for a name among the interfaces is making one interface of all the answered items with
  -- that name, in their order; where no item with the name was answered there is none.
  pub find_first-interfaces :
      (n : Bytes) (rs : List IfReq)
      → find_first (λ (i : NetInterface). bytes_eq i.ifname n) (interfaces gifaddr gifhwaddr rs)
        ≡ new_net_interface (keep_if (has_name n) (answers rs))
  unfolding interfaces
  find_first-interfaces n rs =
      find_first-make_all n (group_items gifaddr gifhwaddr rs []) (group_items_keeps rs [] tt tt).1
      ∙ ap new_net_interface (items_of-group_items n rs [] tt)
