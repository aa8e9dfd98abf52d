-- ===== src/Tcp/Roles.antt =====
-- tcp.cpp, bind_or_connect and on_local_close: the roles that a process takes, as a machine.
use libgscale.Prelude.{ℕ, ◌≡◌, inl, inr, Bool, true, false, Bool-cases, Option, none, some}
use libgscale.Core.{Core}
use libgscale.Session.{Session}
use libgscale.Tcp.{
  Tcp, handle_socket_init, start_accept, Attempt, first_role, second_role, bind_round, bind_inside,
  bind_or_connect,
}
use libgscale.Tcp.Peers.{with_role, attempt}
use libgscale.Tcp.Attempts.{bind_inside-keeps}

-- A process has no role yet, is connected to the one that accepts, or accepts, with version 6 too or
-- not.
pub data Role : Type 0 where
  idle connected : Role
  accepting : Bool → Role

infix 40 ◌⟶◌ ◌⟶*◌
pub data ◌⟶◌ : Role → Role → Type 0 where
  connects : idle ⟶ connected
  loses : connected ⟶ idle
  listens : idle ⟶ accepting false
  adds : accepting false ⟶ accepting true

pub data ◌⟶*◌ : Role → Role → Type 0 where
  stay : {r : Role} → r ⟶* r
  go : {r s t : Role} → r ⟶ s → s ⟶* t → r ⟶* t

pub ⟶*-trans : {r s t : Role} → r ⟶* s → s ⟶* t → r ⟶* t
⟶*-trans stay q = q
⟶*-trans (go e p) q = go e (⟶*-trans p q)

abbrev pub role_at : Bool → Bool → Option Session → Role
role_at true v6 s = accepting v6
role_at false v6 (some s) = connected
role_at false v6 none = idle

abbrev pub role_of : Tcp → Role
role_of t = role_at t.acceptor_v4 t.acceptor_v6 t.local_v4

attempt-⟶* :
    (core : Core) (b4 b6 : Bool) (made : Option Session) (v4 v6 : Bool) (s : Option Session)
    (t : Tcp)
    → role_at v4 v6 s ⟶* role_of (bind_round core (attempt b4 b6 made) (with_role v4 v6 s t)).0
unfolding first_role second_role handle_socket_init start_accept
attempt-⟶* core b4 b6 made true true s t = stay
attempt-⟶* core b4 true made true false s t = go adds stay
attempt-⟶* core b4 false made true false s t = stay
attempt-⟶* core b4 b6 made false v6 (some s) t = stay
attempt-⟶* core true true made false false none t = go listens (go adds stay)
attempt-⟶* core true false made false false none t = go listens stay
attempt-⟶* core true b6 made false true none t = go listens (go adds stay)
attempt-⟶* core false b6 none false v6 none t = stay
attempt-⟶* core false b6 (some s) false v6 none t = go connects stay

bind_round-⟶* : (core : Core) (a : Attempt) (t : Tcp) → role_of t ⟶* role_of (bind_round core a t).0
bind_round-⟶* core a t =
    attempt-⟶* core a.bound_v4 a.bound_v6 a.made t.acceptor_v4 t.acceptor_v6 t.local_v4 t

pub bind_or_connect-⟶* :
    (core : Core) (a : Attempt) (t : Tcp) → role_of t ⟶* role_of (bind_or_connect core a t)
unfolding bind_or_connect
bind_or_connect-⟶* core a t =
    let moved = bind_round-⟶* core a t in
    elim (Bool-cases (bind_round core a t).1) [ inl e ↦ rw e moved | inr e ↦ rw e moved ]

pub bind_inside-⟶* :
    (core : Core) (attempt : ℕ → Attempt) (fuel n : ℕ) (t u : Tcp)
    → bind_inside core attempt fuel n t ≡ some u
    → role_of t ⟶* role_of u
bind_inside-⟶* core attempt fuel n t u e =
    bind_inside-keeps (λ x. role_of t ⟶* role_of x) core
      (λ a x p. ⟶*-trans p (bind_round-⟶* core a x)) attempt fuel n t u e stay
