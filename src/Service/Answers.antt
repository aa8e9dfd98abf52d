-- ===== src/Service/Answers.antt =====
-- Service.antt: what calls on back ends of the classes TCP and SharedMemory come to.
use libgscale.Prelude.{
  ℕ, ◌≡◌, refl, subst, ◌⊎◌, inl, inr, Bool-cases, some, List, [], ◌∷◌, All, ◌==◌,
}
use libgscale.GroupCore.{GroupCore, Task, worker, node_available, node_unavailable, writes_to_group}
use libgscale.Tcp.{Tcp}
use libgscale.Tcp.Worker
use libgscale.Tcp.Worker.{Worked, Poll}
use libgscale.Service.{
  Object, loopback, tcp, shared_memory, Answer, returned, threw, undefined, running, of_poll,
  Conditions, of_worked, invoke, target, Handler, call, callback, object_of, set_object,
  on_local_node_available, on_local_node_unavailable, on_local_node_writes_to_group, call_worker,
}

-- An object of the class TCP or SharedMemory.
abbrev pub IsQuiet : Object → Type 0
IsQuiet (loopback b) = ⊥
IsQuiet (tcp t) = Unit {0}
IsQuiet (shared_memory m) = Unit {0}

abbrev pub AreQuiet : List (ℕ × Object) → Type 0
AreQuiet [] = Unit {0}
AreQuiet ((a, o) ∷ objects) = IsQuiet o × AreQuiet objects

-- The object with a number is there.
abbrev pub IsThere : List (ℕ × Object) → ℕ → Type 0
IsThere objects b = (o : Object) × (object_of b objects ≡ some o)

-- A waiting handler is a call on an object that is there.
abbrev pub IsCall : List (ℕ × Object) → Handler → Type 0
IsCall objects (call t) = IsThere objects (target t)
IsCall objects (callback cb) = ⊥

pub object_of-IsQuiet :
    (b : ℕ) (objects : List (ℕ × Object)) (o : Object)
    → AreQuiet objects
    → object_of b objects ≡ some o
    → IsQuiet o
object_of-IsQuiet b [] o q e = absurd cc
object_of-IsQuiet b ((a, p) ∷ objects) o q e = elim (Bool-cases (a == b)) [
  | inl h ↦
      let same : some p ≡ some o = rw h at e in
      let eq : p ≡ o = cc in subst (λ (x : Object). IsQuiet x) eq q.0
  | inr h ↦ object_of-IsQuiet b objects o q.1 (rw h at e)
]

pub set_object-AreQuiet :
    (b : ℕ) (o : Object) (objects : List (ℕ × Object))
    → AreQuiet objects
    → IsQuiet o
    → AreQuiet (set_object b o objects)
set_object-AreQuiet b o [] q h = tt
set_object-AreQuiet b o ((a, p) ∷ objects) q h = elim (Bool-cases (a == b)) [
  | inl e ↦ rw e (h, q.1)
  | inr e ↦ rw e (q.0, set_object-AreQuiet b o objects q.1 h)
]

set_object-IsThere :
    (b : ℕ) (o : Object) (objects : List (ℕ × Object)) (x : ℕ)
    → IsThere objects x
    → IsThere (set_object b o objects) x
set_object-IsThere b o [] x h = h
set_object-IsThere b o ((a, p) ∷ objects) x h = elim (Bool-cases (a == b)) [
  | inl e ↦ elim (Bool-cases (a == x)) [
    | inl k ↦ rw (e, k) (o, refl)
    | inr k ↦ rw (e, k) (rw k at h)
  ]
  | inr e ↦ elim (Bool-cases (a == x)) [
    | inl k ↦ rw (e, k) (p, refl)
    | inr k ↦ rw (e, k) (set_object-IsThere b o objects x (rw k at h))
  ]
]

-- An answer that a `poll` without a return brings about.
abbrev pub IsStuck : Poll → Answer → Type 0
IsStuck (Poll.served t) a = ⊥
IsStuck Poll.thrown a = ⊥
IsStuck Poll.undefined a = a ≡ undefined
IsStuck Poll.endless a = a ≡ running

-- A call on a quiet object returns, with a quiet object and no callback posted, or throws, or its
-- `poll` is undefined or endless and so is the call.
abbrev pub Replies : (Tcp → Poll) → Answer → Type 0
Replies poll a =
    ((o : Object) × (a ≡ returned o []) × IsQuiet o)
    ⊎ ((a ≡ threw) ⊎ ((t : Tcp) × IsStuck (poll t) a))

of_poll-Replies : (poll : Tcp → Poll) (t : Tcp) (p : Poll) → poll t ≡ p → Replies poll (of_poll p)
of_poll-Replies poll t (Poll.served u) e = inl (tcp u, refl, tt)
of_poll-Replies poll t Poll.thrown e = inr (inl refl)
of_poll-Replies poll t Poll.undefined e = inr (inr (t, rw e refl))
of_poll-Replies poll t Poll.endless e = inr (inr (t, rw e refl))

of_worked-Replies : (poll : Tcp → Poll) (r : Worked) → Replies poll (of_worked poll r)
of_worked-Replies poll (Worked.polled t) = of_poll-Replies poll t (poll t) refl
of_worked-Replies poll (Worked.failed t) = inr (inl refl)

pub invoke-Replies :
    (fuel : ℕ) (k : Conditions) (c : GroupCore) (t : Task) (o : Object)
    → IsQuiet o
    → Replies k.poll (invoke fuel k c t o)
unfolding invoke on_local_node_available on_local_node_unavailable on_local_node_writes_to_group
    call_worker
invoke-Replies fuel k c t (loopback b) q = absurd q
invoke-Replies fuel k c (worker b) (tcp x) q =
    of_worked-Replies k.poll (Worker.worker k.host k.opened_v4 k.opened_v6 k.attempt (λ v. v) x)
invoke-Replies fuel k c (node_available b node) (tcp x) q = inl (_, refl, tt)
invoke-Replies fuel k c (node_unavailable b node) (tcp x) q = inl (_, refl, tt)
invoke-Replies fuel k c (writes_to_group b packet) (tcp x) q = inl (_, refl, tt)
invoke-Replies fuel k c (worker b) (shared_memory m) q = inl (_, refl, tt)
invoke-Replies fuel k c (node_available b node) (shared_memory m) q = inl (_, refl, tt)
invoke-Replies fuel k c (node_unavailable b node) (shared_memory m) q = inl (_, refl, tt)
invoke-Replies fuel k c (writes_to_group b packet) (shared_memory m) q = inl (_, refl, tt)

pub All-IsCall :
    (b : ℕ) (o : Object) (objects : List (ℕ × Object)) (hs : List Handler)
    → All (IsCall objects) hs
    → All (IsCall (set_object b o objects)) hs
All-IsCall b o objects [] h = tt
All-IsCall b o objects (call t ∷ hs) h =
    (set_object-IsThere b o objects (target t) h.0, All-IsCall b o objects hs h.1)
All-IsCall b o objects (callback cb ∷ hs) h = absurd h.0
