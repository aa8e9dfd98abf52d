-- ===== src/Tcp/Peers.antt =====
-- tcp.cpp: which end of a connection keeps it, and which role a process takes.
use libgscale.Prelude.{
  ℕ, ◌≡◌, ◌⊎◌, inl, inr, refl, Bool, true, false, not, ◌&&◌, Bool-cases, Option, none, some, [],
  ◌∷◌, arith, any_of, ltb, take, ◌==◌, bytes_eq_refl,
}
use libgscale.Words.{Bytes}
use libgscale.Core.{Uuid, Core, new_core, get_host_uuid}
use libgscale.Packet.{Packet}
use libgscale.GroupCore.{GroupCore}
use libgscale.Session.{Session, close, synced}
use libgscale.Tcp.{
  Tcp, receiving, sending, waiting, begin, accepts, uuid_read_finished, has_host, answer,
  handle_receive_from, handle_socket_init, start_accept, multicast_heartbeat, first_role,
  second_role, Attempt, bind_round, bind_or_connect,
}

last_true : (a b c d : Bool) → (a && b && c && d) ≡ true → d ≡ true
last_true a b c d h = ground arith

last_false : (a b c d : Bool) → d ≡ false → (a && b && c && d) ≡ false
last_false a b c d h = ground arith

-- Where the order of endpoints is asymmetric, the two ends of one connection do not both keep it,
-- whatever the two hosts have read and whatever sessions they have.
accepts_one_end :
    (lt : ℕ → ℕ → Bool) (error bytes error' bytes' : ℕ) (s s' : Session) (t t' : Tcp)
    → ((a b : ℕ) → lt a b ≡ true → lt b a ≡ false)
    → s'.remote_endpoint ≡ s.local_endpoint
    → s'.local_endpoint ≡ s.remote_endpoint
    → accepts lt error bytes s t ≡ true
    → accepts lt error' bytes' s' t' ≡ false
unfolding accepts
accepts_one_end lt error bytes error' bytes' s s' t t' asym e f h =
    let kept : lt s.remote_endpoint s.local_endpoint ≡ true =
      last_true (error == 0) (bytes == 16) (not (any_of (has_host s.remotehostuuid) t.sessions))
        (lt s.remote_endpoint s.local_endpoint) h in
    rw (e, f)
      (last_false (error' == 0) (bytes' == 16)
        (not (any_of (has_host s'.remotehostuuid) t'.sessions))
        (lt s.local_endpoint s.remote_endpoint) (asym s.remote_endpoint s.local_endpoint kept))

-- Where the order of endpoints is asymmetric, every connection is closed by one of its ends at least,
-- however the reads of the uuids end and whatever sessions the hosts have: the handler at that end
-- keeps no session and changes nothing else. So no connection between two hosts stays open, not only
-- the second one of two.
pub one_end_closes :
    (lt : ℕ → ℕ → Bool) (archive archive' : Packet → Bytes)
    (error bytes fuel error' bytes' fuel' : ℕ) (c c' : GroupCore) (s s' : Session) (t t' : Tcp)
    → ((a b : ℕ) → lt a b ≡ true → lt b a ≡ false)
    → s'.remote_endpoint ≡ s.local_endpoint
    → s'.local_endpoint ≡ s.remote_endpoint
    → (uuid_read_finished lt archive error bytes fuel c s t ≡ (t, synced (close s) none))
      ⊎ (uuid_read_finished lt archive' error' bytes' fuel' c' s' t' ≡ (t', synced (close s') none))
unfolding uuid_read_finished
one_end_closes lt archive archive' error bytes fuel error' bytes' fuel' c c' s s' t t' asym e f =
    elim (Bool-cases (accepts lt error bytes s t)) [
      | inr h ↦ inl (rw h refl)
      | inl h ↦
          let other = accepts_one_end lt error bytes error' bytes' s s' t t' asym e f h in
          inr (rw other refl)
    ]

abbrev pub is_set : Option Session → Bool
is_set none = false
is_set (some s) = true

-- A process takes one role: it accepts, or it has a session to the process that does. It accepts
-- with version 6 only if it does with version 4.
abbrev pub HasOneRole : Tcp → Type 0
HasOneRole t =
    ((t.acceptor_v4 && is_set t.local_v4) ≡ false) × ((t.acceptor_v6 && not t.acceptor_v4) ≡ false)

abbrev pub with_role : Bool → Bool → Option Session → Tcp → Tcp
with_role v4 v6 s t = record t { acceptor_v4 = v4; acceptor_v6 = v6; local_v4 = s }

abbrev pub attempt : Bool → Bool → Option Session → Attempt
attempt bound_v4 bound_v6 made = record { bound_v4 = bound_v4; bound_v6 = bound_v6; made = made }

settle :
    (core : Core) (b4 b6 : Bool) (made : Option Session) (v4 v6 : Bool) (s : Option Session)
    (t : Tcp)
    → HasOneRole (with_role v4 v6 s t)
    → HasOneRole (bind_round core (attempt b4 b6 made) (with_role v4 v6 s t)).0
unfolding first_role second_role handle_socket_init start_accept
settle core b4 b6 made true true s t h = h
settle core b4 true made true false s t h = (h.0, refl)
settle core b4 false made true false s t h = h
settle core b4 b6 made false v6 (some s) t h = h
settle core true true made false false none t h = (refl, refl)
settle core true false made false false none t h = (refl, refl)
settle core true b6 made false true none t h = let bad : true ≡ false = h.1 in absurd cc
settle core false b6 none false v6 none t h = h
settle core false b6 (some s) false v6 none t h = (refl, h.1)

-- However bind and connect turn out, an attempt keeps a process in at most one role.
pub bind_round-HasOneRole :
    (core : Core) (a : Attempt) (t : Tcp) → HasOneRole t → HasOneRole (bind_round core a t).0
bind_round-HasOneRole core a t h =
    settle core a.bound_v4 a.bound_v6 a.made t.acceptor_v4 t.acceptor_v6 t.local_v4 t h

abbrev pub idle : Tcp → Tcp
idle t = with_role false false none t

-- The heartbeat of a process that had no role reads through a NULL acceptor if the process had to
-- connect because it could not bind, and if it could not accept with version 6. With both acceptors
-- it sends one packet of each version, with the host's uuid and the acceptor's port, and waits
-- again.
multicast_heartbeat_cases :
    (core : Core) (port_v4 port_v6 : ℕ) (bound_v6 : Bool) (made : Option Session) (t : Tcp)
    → (multicast_heartbeat core port_v4 port_v6
          (bind_or_connect core (attempt false bound_v6 made) (idle t))
        ≡ none)
      × (multicast_heartbeat core port_v4 port_v6
            (bind_or_connect core (attempt true false made) (idle t))
          ≡ none)
      × (multicast_heartbeat core port_v4 port_v6
            (bind_or_connect core (attempt true true made) (idle t))
          ≡ some (
              begin
                (sending false (get_host_uuid core) port_v4
                  ∷ sending true (get_host_uuid core) port_v6
                  ∷ waiting
                  ∷ [])
                (bind_or_connect core (attempt true true made) (idle t))))
unfolding multicast_heartbeat bind_or_connect first_role second_role handle_socket_init start_accept
multicast_heartbeat_cases core port_v4 port_v6 bound_v6 none t = (refl, refl, refl)
multicast_heartbeat_cases core port_v4 port_v6 bound_v6 (some s) t = (refl, refl, refl)

-- A process does not connect to the sender of a packet with the host uuid that every process has:
-- it only receives again.
pub handle_receive_from_own :
    (parse : Bytes → Option (Uuid × ℕ)) (buffer : Bytes) (sender error bytes port : ℕ) (v6 : Bool)
    (t : Tcp)
    → parse (take bytes buffer) ≡ some (get_host_uuid new_core, port)
    → handle_receive_from parse new_core buffer sender error bytes v6 t
      ≡ some (begin (receiving v6 ∷ []) t)
unfolding handle_receive_from answer
handle_receive_from_own parse buffer sender error bytes port v6 t h =
    elim (Bool-cases ((error == 0) && ltb 0 bytes)) [
      | inl e ↦ rw (e, h, bytes_eq_refl (get_host_uuid new_core)) refl
      | inr e ↦ rw e refl
    ]
