-- ===== src/Tcp/Binding.antt =====
-- tcp.cpp, bind_or_connect in a handler: when it comes to its end.
use libgscale.Prelude.{
  ℕ, zero, suc, ◌+◌, ◌≡◌, refl, sym, ◌∙◌, subst, inl, inr, Bool, true, false, Bool-cases, Option,
  none, some, arith,
}
use libgscale.Core.{Core}
use libgscale.Session.{Session}
use libgscale.Tcp.{
  Tcp, Attempt, first_role, second_role, start_accept, bind_round, bind_inside, unless_again,
}
use libgscale.Tcp.Peers.{attempt, with_role}

-- A round in which neither the version 6 acceptor nor the connection can be made, for a process
-- that has neither.
abbrev Repeats : Tcp × Bool → Type 0
Repeats (t, again) = (again ≡ true) × (t.local_v4 ≡ none) × (t.acceptor_v6 ≡ false)

failing-Repeats :
    (core : Core) (b4 v4 : Bool) (t : Tcp)
    → Repeats (bind_round core (attempt b4 false none) (with_role v4 false none t))
unfolding first_role second_role start_accept
failing-Repeats core b4 true t = (refl, refl, refl)
failing-Repeats core true false t = (refl, refl, refl)
failing-Repeats core false false t = (refl, refl, refl)

succeeding_round :
    (core : Core) (made : Option Session) (v4 v6 : Bool) (s : Option Session) (t : Tcp)
    → (bind_round core (attempt true true made) (with_role v4 v6 s t)).1 ≡ false
unfolding first_role second_role start_accept
succeeding_round core made true true s t = refl
succeeding_round core made true false s t = refl
succeeding_round core made false v6 (some s) t = refl
succeeding_round core made false true none t = refl
succeeding_round core made false false none t = refl

again_lem : (rest : Tcp → Option Tcp) (p : Tcp × Bool) → p.1 ≡ true → unless_again rest p ≡ rest p.0
again_lem rest p e = rw e refl

settled_lem :
    (rest : Tcp → Option Tcp) (p : Tcp × Bool) → p.1 ≡ false → unless_again rest p ≡ some p.0
settled_lem rest p e = rw e refl

bind_inside_never :
    (core : Core) (a : ℕ → Attempt) (fuel n : ℕ) (t : Tcp)
    → ((k : ℕ) → (a k).bound_v6 ≡ false)
    → ((k : ℕ) → (a k).made ≡ none)
    → t.local_v4 ≡ none
    → t.acceptor_v6 ≡ false
    → bind_inside core a fuel n t ≡ none
unfolding bind_inside
bind_inside_never core a zero n t v6 made idle closed = refl
bind_inside_never core a (suc fuel) n t v6 made idle closed =
    let round : Repeats (bind_round core (a n) t) =
      subst (λ (p : Attempt × Tcp). Repeats (bind_round core p.0 p.1))
        (λ i. (
          attempt (a n).bound_v4 (sym (v6 n) i) (sym (made n) i),
          with_role t.acceptor_v4 (sym closed i) (sym idle i) t,
        ))
        (failing-Repeats core (a n).bound_v4 t.acceptor_v4 t) in
    again_lem (bind_inside core a fuel (n + 1)) (bind_round core (a n) t) round.0
    ∙ bind_inside_never core a fuel (n + 1) (bind_round core (a n) t).0 v6 made round.1 round.2

bind_inside_within :
    (core : Core) (a : ℕ → Attempt) (k n m : ℕ) (t : Tcp)
    → n + k ≡ m
    → (a m).bound_v4 ≡ true
    → (a m).bound_v6 ≡ true
    → (u : Tcp) × (bind_inside core a (suc k) n t ≡ some u)
unfolding bind_inside
bind_inside_within core a zero n m t e v4 v6 =
    let here : m ≡ n = omega arith in
    let round : (bind_round core (a m) t).1 ≡ false =
      subst (λ (x : Attempt). (bind_round core x t).1 ≡ false)
        (λ i. attempt (sym v4 i) (sym v6 i) (a m).made)
        (succeeding_round core (a m).made t.acceptor_v4 t.acceptor_v6 t.local_v4 t) in
    (
      (bind_round core (a n) t).0,
      settled_lem (bind_inside core a zero (n + 1)) (bind_round core (a n) t)
          (subst (λ x. (bind_round core (a x) t).1 ≡ false) here round),
    )
bind_inside_within core a (suc k) n m t e v4 v6 = elim (Bool-cases (bind_round core (a n) t).1) [
  | inr l ↦ (
    (bind_round core (a n) t).0,
    settled_lem (bind_inside core a (suc k) (n + 1)) (bind_round core (a n) t) l,
  )
  | inl l ↦
      let (u, done) =
        bind_inside_within core a k (n + 1) m (bind_round core (a n) t).0 (omega arith) v4 v6 in
      (u, again_lem (bind_inside core a (suc k) (n + 1)) (bind_round core (a n) t) l ∙ done)
]

-- In a handler, bind_or_connect makes its attempts without end if the version 6 acceptor is never
-- bound and no connection made, for a process that has neither: no amount of fuel gives a result.
-- If both acceptors can be bound in some attempt, it ends with that attempt or before, whatever the
-- process has.
pub bind_inside_ends :
    (core : Core) (a b : ℕ → Attempt) (t u : Tcp) (fuel k : ℕ)
    → ((n : ℕ) → (a n).bound_v6 ≡ false)
    → ((n : ℕ) → (a n).made ≡ none)
    → t.local_v4 ≡ none
    → t.acceptor_v6 ≡ false
    → (b k).bound_v4 ≡ true
    → (b k).bound_v6 ≡ true
    → (bind_inside core a fuel 0 t ≡ none) × ((v : Tcp) × (bind_inside core b (suc k) 0 u ≡ some v))
bind_inside_ends core a b t u fuel k v6 made idle closed w4 w6 = (
  bind_inside_never core a fuel 0 t v6 made idle closed,
  bind_inside_within core b k 0 k u (omega arith) w4 w6,
)
