-- ===== src/Tcp/Strangers.antt =====
-- tcp.cpp with core.cpp: hosts on one network that all have one uuid.
use mathlib.Core.List.{Memᴰ}
use libgscale.Prelude.{
  ℕ, ◌≤◌, ◌≡◌, refl, sym, ◌∙◌, ap, subst, inl, inr, Bool, true, Bool-cases, Option, some, [], ◌∷◌,
  arith, length, All-append, All-mem, take, take_all, ◌==◌,
}
use libgscale.Words.{Bytes}
use libgscale.Core.{Uuid, new_core, get_host_uuid}
use libgscale.Packet.{Packet}
use libgscale.GroupCore.{GroupCore}
use libgscale.Session.{Session, start}
use libgscale.Tcp.{
  Tcp, connecting, sending, writing_uuid, receiving, begin, new_tcp, session_of, accepts,
  uuid_read_finished, handle_receive_from, Attempt,
}
use libgscale.Tcp.Hosts.{start_host}
use libgscale.Tcp.Peers.{handle_receive_from_own}
use libgscale.Tcp.Worker.{worker, polled, failed}
use libgscale.Tcp.Steps.{Step, uuid_read, received, here, Reachable, step}
use libgscale.Tcp.Attempts.{left_by}
use libgscale.Tcp.OneHost.{Reachable-length}
use libgscale.Tcp.Network.{
  IsOwn, Hosts, update, Move, own, worked, not_opened, heard, introduced, Network, built, move,
}
use libgscale.Tcp.Same.{IsSame, AreSame, Step-AreSame, worker-AreSame}
use libgscale.Tcp.Ordinary.{IsOrdinary, AreOrdinary, Step-AreOrdinary, worker-AreOrdinary}

-- What every host keeps: it is reachable, tells only the one uuid and connects to no sender of a
-- packet, and its sessions are to hosts of that uuid.
record IsLone (t : Tcp) : Type 0 where
  reached : Reachable t
  ordinary : AreOrdinary t.started
  same : AreSame t.sessions

update-IsLone :
    (h : Hosts) (i : ℕ) (u : Tcp)
    → ((j : ℕ) → IsLone (h j))
    → IsLone u
    → (j : ℕ) → IsLone (update h i u j)
update-IsLone h i u all one j = elim (Bool-cases (j == i)) [
  | inl e ↦ rw e one
  | inr e ↦ rw e (all j)
]

step-IsLone : {t u : Tcp} (s : Step t u) → IsOwn s → IsLone t → IsLone u
step-IsLone s alone v = record {
  reached = step v.reached s;
  ordinary = Step-AreOrdinary s alone v.ordinary;
  same = Step-AreSame s alone v.same;
}

-- A packet with the uuid that every process has.
heard-IsLone :
    (parse : Bytes → Option (Uuid × ℕ)) (text : Bytes) (port sender : ℕ) (v6 : Bool) (t u : Tcp)
    → parse text ≡ some (get_host_uuid new_core, port)
    → handle_receive_from parse new_core text sender 0 (length text) v6 t ≡ some u
    → IsLone t
    → IsLone u
heard-IsLone parse text port sender v6 t u p e v =
    let whole : parse (take (length text) text) ≡ some (get_host_uuid new_core, port) =
      ap parse (take_all (length text) text (omega arith)) ∙ p in
    let own_packet = handle_receive_from_own parse text sender 0 (length text) port v6 t whole in
    let ended : some (begin (receiving v6 ∷ []) t) ≡ some u = sym own_packet ∙ e in
    let equal : begin (receiving v6 ∷ []) t ≡ u = cc in
    record {
      reached = step v.reached (received parse new_core text sender 0 (length text) v6 u e);
      ordinary =
          subst (λ (x : Tcp). AreOrdinary x.started) equal
            (All-append IsOrdinary t.started (receiving v6 ∷ []) v.ordinary (tt, tt));
      same = subst (λ (x : Tcp). AreSame x.sessions) equal v.same;
    }

read-started :
    (lt : ℕ → ℕ → Bool) (archive : Packet → Bytes) (fuel : ℕ) (c : GroupCore) (s : Session)
    (t : Tcp)
    → (uuid_read_finished lt archive 0 16 fuel c s t).0.started ≡ t.started
unfolding uuid_read_finished
read-started lt archive fuel c s t = elim (Bool-cases (accepts lt 0 16 s t)) [
  | inl e ↦ rw e refl
  | inr e ↦ rw e refl
]

read-AreSame :
    (lt : ℕ → ℕ → Bool) (archive : Packet → Bytes) (fuel : ℕ) (c : GroupCore) (s : Session)
    (t : Tcp)
    → IsSame s
    → AreSame t.sessions
    → AreSame (uuid_read_finished lt archive 0 16 fuel c s t).0.sessions
unfolding uuid_read_finished
read-AreSame lt archive fuel c s t e h =
    let r = session_of s (start archive true fuel c s) in
    let one : IsSame r = start_host archive fuel c s ∙ e in
    elim (Bool-cases (accepts lt 0 16 s t)) [
      | inr k ↦ rw k h
      | inl k ↦ rw k (All-append IsSame t.sessions (r ∷ []) h (one, tt))
    ]

-- A session whose other end wrote that uuid.
introduced-IsLone :
    (lt : ℕ → ℕ → Bool) (archive : Packet → Bytes) (fuel : ℕ) (c : GroupCore) (s : Session)
    (t : Tcp)
    → IsSame s
    → IsLone t
    → IsLone (uuid_read_finished lt archive 0 16 fuel c s t).0
introduced-IsLone lt archive fuel c s t e v = record {
  reached = step v.reached (uuid_read lt archive 0 16 fuel c s);
  ordinary = rw (read-started lt archive fuel c s t) v.ordinary;
  same = read-AreSame lt archive fuel c s t e v.same;
}

-- A round of Worker up to its `poll`, and one that ends by the exception of a socket.
worked-IsLone :
    (opened_v4 opened_v6 : Bool) (a : Attempt) (t u : Tcp)
    → worker new_core opened_v4 opened_v6 a (λ v. v) t ≡ polled u
    → IsLone t
    → IsLone u
worked-IsLone v4 v6 a t u e v = record {
  reached = Reachable.worked new_core v4 v6 a (λ v. v) v.reached e here;
  ordinary =
      subst (λ w. AreOrdinary (left_by w).started) e (worker-AreOrdinary v4 v6 a t v.ordinary);
  same = subst (λ w. AreSame (left_by w).sessions) e (worker-AreSame v4 v6 a t v.same);
}

not_opened-IsLone :
    (opened_v4 opened_v6 : Bool) (a : Attempt) (t u : Tcp)
    → worker new_core opened_v4 opened_v6 a (λ v. v) t ≡ failed u
    → IsLone t
    → IsLone u
not_opened-IsLone v4 v6 a t u e v = record {
  reached = Reachable.not_opened new_core v4 v6 a (λ v. v) v.reached e;
  ordinary =
      subst (λ w. AreOrdinary (left_by w).started) e (worker-AreOrdinary v4 v6 a t v.ordinary);
  same = subst (λ w. AreSame (left_by w).sessions) e (worker-AreSame v4 v6 a t v.same);
}

module _ (to_text : Uuid × ℕ → Bytes) (from_text : Bytes → Option (Uuid × ℕ))
    (reads_back : (p : Uuid × ℕ) → from_text (to_text p) ≡ some p) where
  Move-IsLone :
      {h k : Hosts} → Move to_text from_text h k → ((j : ℕ) → IsLone (h j)) → (j : ℕ) → IsLone (k j)
  Move-IsLone {h} (own i {u} s alone) all = update-IsLone h i u all (step-IsLone s alone (all i))
  Move-IsLone {h} (worked i v4 v6 a u e) all =
      update-IsLone h i u all (worked-IsLone v4 v6 a (h i) u e (all i))
  Move-IsLone {h} (not_opened i v4 v6 a u e) all =
      update-IsLone h i u all (not_opened-IsLone v4 v6 a (h i) u e (all i))
  Move-IsLone {h} (heard i j v6 uuid port sender u sent e) all =
      let told : uuid ≡ get_host_uuid new_core =
        All-mem IsOrdinary (h i).started (sending v6 uuid port) (all i).ordinary sent in
      let read : from_text (to_text (uuid, port)) ≡ some (get_host_uuid new_core, port) =
        reads_back (uuid, port) ∙ ap (λ x. some (x, port)) told in
      update-IsLone h j u all
        (heard-IsLone from_text (to_text (uuid, port)) port sender v6 (h j) u read e (all j))
  Move-IsLone {h} (introduced i j uuid other s lt archive fuel c wrote e) all =
      let told : uuid ≡ get_host_uuid new_core =
        All-mem IsOrdinary (h i).started (writing_uuid uuid other) (all i).ordinary wrote in
      update-IsLone h j (uuid_read_finished lt archive 0 16 fuel c s (h j)).0 all
        (introduced-IsLone lt archive fuel c s (h j) (e ∙ told) (all j))

  Network-IsLone : {h : Hosts} → Network to_text from_text h → (i : ℕ) → IsLone (h i)
  unfolding new_tcp
  Network-IsLone built i = record { reached = Reachable.built; ordinary = tt; same = tt }
  Network-IsLone (move n m) i = Move-IsLone m (Network-IsLone n) i

  -- Where the archive reads a heartbeat as it wrote it: on a network of any number of hosts that
  -- each run this program, with any interleaving of their steps, rounds of Worker, packets that one
  -- sends and others hear, and uuids that are written and read, no host ever connects to the sender
  -- of a packet, every session is to a host with the uuid that all have, and so no host ever has
  -- more than one session.
  pub Network-strangers :
      {h : Hosts}
      → Network to_text from_text h
      → (i : ℕ)
      → ((address port : ℕ) → ¬ Memᴰ (connecting address port) (h i).started)
        × AreSame (h i).sessions
        × (length (h i).sessions ≤ 1)
  Network-strangers {h} n i =
      let v = Network-IsLone n i in
      (
        λ address port m. All-mem IsOrdinary (h i).started (connecting address port) v.ordinary m,
        v.same,
        Reachable-length v.reached v.same,
      )
