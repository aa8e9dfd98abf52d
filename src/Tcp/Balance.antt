-- ===== src/Tcp/Balance.antt =====
-- tcp.cpp, start_accept and its callers: what each handler and attempt does to the number of accepts.
use libgscale.Prelude.{
  ℕ, ◌+◌, ◌≡◌, refl, subst, inl, inr, Bool, true, false, Bool-cases, Option, none, some, List, [],
  ◌∷◌, ◌++◌, arith, ◌==◌, ◌&&◌, ltb, if◌then◌else◌, not, bytes_eq, any_of, take, Option-cases,
}
use libgscale.Words.{Bytes}
use libgscale.Core.{Uuid, Core, get_host_uuid}
use libgscale.Session.{Session}
use libgscale.Tcp.{
  Tcp, has_host, Started, writing_uuid, reading_uuid, accepting, receiving, connecting, waiting,
  binding, begin, start_accept, handle_socket_init, handle_receive_from, answer,
  multicast_heartbeat, Attempt, first_role, second_role, bind_round, bind_inside, bind_or_connect,
}
use libgscale.Tcp.Handlers.{heartbeat_ops, heartbeat_begins}
use libgscale.Tcp.Peers.{with_role, attempt}
use libgscale.Tcp.Worker.{worker, start_worker, open_sockets}
use libgscale.Tcp.Attempts.{bind_inside-keeps, left_by, chosen}

-- How many of the operations are accepts of a version.
abbrev pub weight : Bool → Started → ℕ
weight false (accepting false) = 1
weight true (accepting true) = 1
weight v6 op = 0

abbrev pub tally : Bool → List Started → ℕ
tally v6 [] = 0
tally v6 (op ∷ ops) = weight v6 op + tally v6 ops

abbrev pub bit : Bool → ℕ
bit false = 0
bit true = 1

-- Of each version as many accepts were started as were completed, and one more with an acceptor.
pub record IsBalanced (done_v4 done_v6 : ℕ) (t : Tcp) : Type 0 where
  pub of_v4 : tally false t.started ≡ done_v4 + bit t.acceptor_v4
  pub of_v6 : tally true t.started ≡ done_v6 + bit t.acceptor_v6

tally-append : (v6 : Bool) (xs ys : List Started) → tally v6 (xs ++ ys) ≡ tally v6 xs + tally v6 ys
tally-append v6 [] ys = omega arith
tally-append v6 (x ∷ xs) ys = omega (arith, tally-append v6 xs ys)

-- What is started, and completed, fits with the acceptors that there are then.
begin-IsBalanced :
    (ops : List Started) (m n m' n' : ℕ) (v4 v6 v4' v6' : Bool) (s s' : Option Session) (t : Tcp)
    → tally false ops + m + bit v4 ≡ m' + bit v4'
    → tally true ops + n + bit v6 ≡ n' + bit v6'
    → IsBalanced m n (with_role v4 v6 s t)
    → IsBalanced m' n' (begin ops (with_role v4' v6' s' t))
begin-IsBalanced ops m n m' n' v4 v6 v4' v6' s s' t f g h = record {
  of_v4 = omega (arith, tally-append false t.started ops, f, h.of_v4);
  of_v6 = omega (arith, tally-append true t.started ops, g, h.of_v6);
}

attempt-IsBalanced :
    (core : Core) (b4 b6 : Bool) (made : Option Session) (v4 v6 : Bool) (s : Option Session)
    (t : Tcp) (m n : ℕ)
    → IsBalanced m n (with_role v4 v6 s t)
    → IsBalanced m n (bind_round core (attempt b4 b6 made) (with_role v4 v6 s t)).0
unfolding first_role second_role handle_socket_init start_accept
attempt-IsBalanced core b4 b6 made true true s t m n h = h
attempt-IsBalanced core b4 true made true false s t m n h =
    begin-IsBalanced (accepting true ∷ []) m n m n true false true true s s t (omega arith)
      (omega arith) h
attempt-IsBalanced core b4 false made true false s t m n h = h
attempt-IsBalanced core b4 b6 made false v6 (some s) t m n h = h
attempt-IsBalanced core true true made false false none t m n h =
    begin-IsBalanced (accepting true ∷ []) m n m n true false true true none none
      (begin (accepting false ∷ []) t) (omega arith) (omega arith)
      (begin-IsBalanced (accepting false ∷ []) m n m n false false true false none none t
        (omega arith) (omega arith) h)
attempt-IsBalanced core true false made false false none t m n h =
    begin-IsBalanced (accepting false ∷ []) m n m n false false true false none none t (omega arith)
      (omega arith) h
attempt-IsBalanced core true b6 made false true none t m n h =
    begin-IsBalanced (accepting false ∷ []) m n m n false true true true none none t (omega arith)
      (omega arith) h
attempt-IsBalanced core false b6 none false v6 none t m n h = h
attempt-IsBalanced core false b6 (some s) false v6 none t m n h =
    let s' : Session = record s { onclose = some 0 } in
    begin-IsBalanced (writing_uuid (get_host_uuid core) s' ∷ reading_uuid s' ∷ []) m n m n false v6
      false v6 none (some s') t (omega arith) (omega arith) h

round-IsBalanced :
    (core : Core) (m n : ℕ) (a : Attempt) (t : Tcp)
    → IsBalanced m n t
    → IsBalanced m n (bind_round core a t).0
round-IsBalanced core m n a t h =
    attempt-IsBalanced core a.bound_v4 a.bound_v6 a.made t.acceptor_v4 t.acceptor_v6 t.local_v4 t m
      n h

pub inside-IsBalanced :
    (core : Core) (attempt : ℕ → Attempt) (fuel k : ℕ) (t u : Tcp) (m n : ℕ)
    → bind_inside core attempt fuel k t ≡ some u
    → IsBalanced m n t
    → IsBalanced m n u
inside-IsBalanced core attempt fuel k t u m n e h =
    bind_inside-keeps (IsBalanced m n) core (round-IsBalanced core m n) attempt fuel k t u e h

-- Operations that are no accepts.
pub plain-IsBalanced :
    (ops : List Started) (t : Tcp) (m n : ℕ)
    → tally false ops ≡ 0
    → tally true ops ≡ 0
    → IsBalanced m n t
    → IsBalanced m n (begin ops t)
plain-IsBalanced ops t m n e f h =
    begin-IsBalanced ops m n m n t.acceptor_v4 t.acceptor_v6 t.acceptor_v4 t.acceptor_v6 t.local_v4
      t.local_v4 t (omega arith) (omega arith) h

-- What a completion adds for a version.
abbrev pub adds : Bool → Option Bool → ℕ
adds v6 none = 0
adds v6 (some x) = weight v6 (accepting x)

greeted-IsBalanced :
    (core : Core) (s : Session) (b : Bool) (t : Tcp) (m n : ℕ)
    → IsBalanced m n t
    → IsBalanced m n
        (if b then begin (writing_uuid (get_host_uuid core) s ∷ reading_uuid s ∷ []) t else t)
greeted-IsBalanced core s true t m n h = plain-IsBalanced _ t m n refl refl h
greeted-IsBalanced core s false t m n h = h

pub socket_init-IsBalanced :
    (core : Core) (acceptor : Option Bool) (s : Session) (error : ℕ) (t : Tcp) (m n : ℕ)
    → IsBalanced m n t
    → IsBalanced
        (m + adds false acceptor)
        (n + adds true acceptor)
        (handle_socket_init core acceptor s error t)
unfolding handle_socket_init start_accept
socket_init-IsBalanced core none s error t m n h =
    greeted-IsBalanced core s (error == 0) t (m + 0) (n + 0)
      (record { of_v4 = omega (arith, h.of_v4); of_v6 = omega (arith, h.of_v6) })
socket_init-IsBalanced core (some v6) s error t m n h =
    let greeted =
      if error == 0
      then begin (writing_uuid (get_host_uuid core) s ∷ reading_uuid s ∷ []) t
      else t in
    begin-IsBalanced (accepting v6 ∷ []) m n (m + adds false (some v6)) (n + adds true (some v6))
      greeted.acceptor_v4 greeted.acceptor_v6 greeted.acceptor_v4 greeted.acceptor_v6
      greeted.local_v4 greeted.local_v4 greeted (omega arith) (omega arith)
      (greeted-IsBalanced core s (error == 0) t m n h)

answer-IsBalanced :
    (core : Core) (sender : ℕ) (packet : Uuid × ℕ) (t : Tcp) (m n : ℕ)
    → IsBalanced m n t
    → IsBalanced m n (answer core sender packet t)
unfolding answer
answer-IsBalanced core sender (hostuuid, ip_port) t m n h =
    elim (Bool-cases (
      not (bytes_eq (get_host_uuid core) hostuuid)
      && not (any_of (has_host hostuuid) t.sessions))) [
        | inl k ↦ rw k (plain-IsBalanced (connecting sender ip_port ∷ []) t m n refl refl h)
        | inr k ↦ rw k h
      ]

pub received-IsBalanced :
    (parse : Bytes → Option (Uuid × ℕ)) (core : Core) (buffer : Bytes) (sender error bytes : ℕ)
    (v6 : Bool) (t u : Tcp) (m n : ℕ)
    → handle_receive_from parse core buffer sender error bytes v6 t ≡ some u
    → IsBalanced m n t
    → IsBalanced m n u
unfolding handle_receive_from
received-IsBalanced parse core buffer sender error bytes v6 t u m n e h =
    elim (Bool-cases (error == 0 && ltb 0 bytes)) [
      | inr k ↦
          let ended : some (begin (receiving v6 ∷ []) t) ≡ some u = rw k at e in
          let same : begin (receiving v6 ∷ []) t ≡ u = cc in
          subst (IsBalanced m n) same (plain-IsBalanced (receiving v6 ∷ []) t m n refl refl h)
      | inl k ↦ elim (Option-cases (parse (take bytes buffer))) [
        | inl p ↦ let stuck : none ≡ some u = rw (k, p) at e in absurd cc
        | inr (packet, p) ↦
            let ended : some (begin (receiving v6 ∷ []) (answer core sender packet t)) ≡ some u =
              rw (k, p) at e in
            let same : begin (receiving v6 ∷ []) (answer core sender packet t) ≡ u = cc in
            subst (IsBalanced m n) same (
              plain-IsBalanced (receiving v6 ∷ []) (answer core sender packet t) m n refl refl
                (answer-IsBalanced core sender packet t m n h))
      ]
    ]

pub heartbeat-IsBalanced :
    (core : Core) (port_v4 port_v6 : ℕ) (t u : Tcp) (m n : ℕ)
    → multicast_heartbeat core port_v4 port_v6 t ≡ some u
    → IsBalanced m n t
    → IsBalanced m n u
heartbeat-IsBalanced core port_v4 port_v6 t u m n e h =
    subst (IsBalanced m n) (heartbeat_begins core port_v4 port_v6 t u e)
      (plain-IsBalanced (heartbeat_ops core port_v4 port_v6) t m n refl refl h)

pub kept-IsBalanced :
    (t u : Tcp) (m n : ℕ)
    → u.started ≡ t.started
    → u.acceptor_v4 ≡ t.acceptor_v4
    → u.acceptor_v6 ≡ t.acceptor_v6
    → IsBalanced m n t
    → IsBalanced (m + 0) (n + 0) u
kept-IsBalanced t u m n e f g h = record {
  of_v4 = rw (e, f) (omega (arith, h.of_v4));
  of_v6 = rw (e, g) (omega (arith, h.of_v6));
}

connect-IsBalanced :
    (core : Core) (a : Attempt) (t : Tcp) (m n : ℕ)
    → IsBalanced m n t
    → IsBalanced m n (bind_or_connect core a t)
unfolding bind_or_connect
connect-IsBalanced core a t m n h =
    let again = bind_round core a t in
    let k : IsBalanced m n again.0 = round-IsBalanced core m n a t h in
    elim (Bool-cases again.1) [
      | inl f ↦ rw f (plain-IsBalanced (binding ∷ []) again.0 m n refl refl k)
      | inr f ↦ rw f k
    ]

-- A round of Worker, up to its `poll` or the exception of a socket.
started-IsBalanced :
    (core : Core) (opened_v4 opened_v6 : Bool) (a : Attempt) (t : Tcp) (m n : ℕ)
    → IsBalanced m n t
    → IsBalanced m n (left_by (start_worker core a (λ v. v) (open_sockets opened_v4 opened_v6 t)))
started-IsBalanced core false opened_v6 a t m n h = h
started-IsBalanced core true false a t m n h =
    plain-IsBalanced (receiving false ∷ []) t m n refl refl h
started-IsBalanced core true true a t m n h =
    let opened = begin (receiving false ∷ receiving true ∷ []) t in
    let k = connect-IsBalanced core a opened m n (plain-IsBalanced _ t m n refl refl h) in
    plain-IsBalanced (waiting ∷ []) (record (bind_or_connect core a opened) { initialized = true })
      m n refl refl (record { of_v4 = k.of_v4; of_v6 = k.of_v6 })

pub worker-IsBalanced :
    (core : Core) (opened_v4 opened_v6 : Bool) (a : Attempt) (t : Tcp) (m n : ℕ)
    → IsBalanced m n t
    → IsBalanced m n (left_by (worker core opened_v4 opened_v6 a (λ v. v) t))
unfolding worker
worker-IsBalanced core opened_v4 opened_v6 a t m n h =
    chosen (IsBalanced m n) t.initialized t _ h
      (started-IsBalanced core opened_v4 opened_v6 a t m n h)
