-- ===== src/Tcp/Attempts.antt =====
-- tcp.cpp, bind_or_connect: what each attempt keeps.
use libgscale.Prelude.{
  ℕ, zero, suc, ◌+◌, ◌≡◌, subst, inl, inr, Bool, true, false, Bool-cases, some, [], ◌∷◌,
  if◌then◌else◌,
}
use libgscale.Core.{Core}
use libgscale.Tcp.{Tcp, Attempt, bind_round, bind_inside, begin, receiving}
use libgscale.Tcp.Worker.{Worked, polled, failed, worker, start_worker, open_sockets}

-- The state in which Worker polls, or that it leaves behind.
abbrev pub left_by : Worked → Tcp
left_by (polled t) = t
left_by (failed t) = t

module _ (P : Tcp → Type 0) where
  -- What every attempt keeps, the call in a handler keeps where it ends.
  pub bind_inside-keeps :
      (core : Core)
      → ((a : Attempt) (t : Tcp) → P t → P (bind_round core a t).0)
      → (attempt : ℕ → Attempt) (fuel n : ℕ) (t u : Tcp)
      → bind_inside core attempt fuel n t ≡ some u
      → P t
      → P u
  unfolding bind_inside
  bind_inside-keeps core keeps attempt zero n t u e h = absurd cc
  bind_inside-keeps core keeps attempt (suc fuel) n t u e h =
      let again = bind_round core (attempt n) t in
      let k : P again.0 = keeps (attempt n) t h in
      elim (Bool-cases again.1) [
        | inl f ↦ bind_inside-keeps core keeps attempt fuel (n + 1) again.0 u (rw f at e) k
        | inr f ↦
            let ended : some again.0 ≡ some u = rw f at e in
            let same : again.0 ≡ u = cc in subst P same k
      ]

  -- Where a socket cannot be made Worker polls nothing, and has begun one receive at most.
  opening-keeps :
      (b opened_v4 opened_v6 : Bool) (core : Core) (a : Attempt) (poll : Tcp → Tcp) (t u : Tcp)
      → (if b
          then polled (poll t)
          else start_worker core a poll (open_sockets opened_v4 opened_v6 t))
        ≡ failed u
      → P t
      → P (begin (receiving false ∷ []) t)
      → P u
  opening-keeps true opened_v4 opened_v6 core a poll t u e h k = absurd cc
  opening-keeps false false opened_v6 core a poll t u e h k = subst (λ w. P (left_by w)) e h
  opening-keeps false true false core a poll t u e h k = subst (λ w. P (left_by w)) e k
  opening-keeps false true true core a poll t u e h k = absurd cc

  pub worker_failed-keeps :
      (core : Core) (opened_v4 opened_v6 : Bool) (a : Attempt) (poll : Tcp → Tcp) (t u : Tcp)
      → worker core opened_v4 opened_v6 a poll t ≡ failed u
      → P t
      → P (begin (receiving false ∷ []) t)
      → P u
  unfolding worker
  worker_failed-keeps core opened_v4 opened_v6 a poll t u e h k =
      opening-keeps t.initialized opened_v4 opened_v6 core a poll t u e h k

  pub chosen :
      (b : Bool) (t : Tcp) (w : Worked)
      → P t
      → P (left_by w)
      → P (left_by (if b then polled t else w))
  chosen true t w h k = h
  chosen false t w h k = k
