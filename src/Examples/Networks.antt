-- ===== src/Examples/Networks.antt =====
-- Runs of backend/tcp.cpp on several hosts, and of its roles.
use mathlib.Core.List.{Memᴰ}
use libgscale.Prelude.{
  ◌+◌, ℕ, ◌≡◌, ◌≤◌, refl, true, false, none, some, Option, [], ◌∷◌, length, bytes_eq, ltb,
}
use libgscale.Words.{Bytes}
use libgscale.Session.{Session}
use libgscale.Examples.Sessions.{archive, group, session}
use libgscale.Core.{Uuid, new_core, get_host_uuid, nil_uuid}
use libgscale.Tcp.{
  Tcp, Started, new_tcp, connecting, sending, waiting, receiving, begin, first_role, second_role,
  start_accept, bind_or_connect, writing_uuid, handle_socket_init, uuid_read_finished,
  multicast_heartbeat, handle_receive_from, answer, on_local_close, Attempt, bind_inside,
}
use libgscale.Tcp.Worker.{worker}
use libgscale.Tcp.Peers.{attempt}
use libgscale.Tcp.Steps.{
  heartbeat, socket_init, bound, Steps, here, next, Reachable, worked, built, step,
}
use libgscale.Tcp.Network.{Hosts, update, Move, own, heard, introduced, Network, move}
use libgscale.Tcp.Same.{AreSame}
use libgscale.Tcp.Strangers.{Network-strangers}
use libgscale.Tcp.Roles.{idle, ◌⟶*◌, role_of}
use libgscale.Tcp.Balance.{tally}
use libgscale.Tcp.Outstanding.{accepts_outstanding}
use libgscale.Tcp.Machine.{Shows, Allows, Reachable-roles}

-- The archive puts the port before the uuid.
abbrev to_text : Uuid × ℕ → Bytes
to_text (uuid, port) = port ∷ uuid

abbrev from_text : Bytes → Option (Uuid × ℕ)
from_text [] = none
from_text (port ∷ uuid) = some (uuid, port)

reads_back : (p : Uuid × ℕ) → from_text (to_text p) ≡ some p
reads_back (uuid, port) = refl

-- The first host binds both versions and sends its heartbeat.
abbrev begun_host : Tcp
begun_host =
    begin (waiting ∷ [])
      (record (bind_or_connect new_core (attempt true true none)
        (begin (receiving false ∷ receiving true ∷ []) new_tcp)) { initialized = true })

abbrev beating_host : Tcp
beating_host =
    begin (sending false nil_uuid 8000 ∷ sending true nil_uuid 8000 ∷ waiting ∷ []) begun_host

-- The second hears it.
abbrev hearing_host : Tcp
hearing_host = begin (receiving false ∷ []) new_tcp

-- A process that had to connect writes its uuid to the session, and the first host reads it.
abbrev other_end : Session
other_end = record session { remotehostuuid = nil_uuid }

abbrev writing_host : Tcp
writing_host = handle_socket_init new_core none other_end 0 new_tcp

abbrev met_host : Tcp
met_host = (uuid_read_finished ltb archive 0 16 3 group other_end beating_host).0

abbrev first_moved : Hosts
first_moved = update (λ i. new_tcp) 0 begun_host

abbrev first_beats : Hosts
first_beats = update first_moved 0 beating_host

abbrev second_hears : Hosts
second_hears = update first_beats 1 hearing_host

first_moved-Network : Network to_text from_text first_moved
unfolding worker new_tcp
first_moved-Network =
    move Network.built (Move.worked 0 true true (attempt true true none) begun_host refl)

first_beats-Network : Network to_text from_text first_beats
unfolding multicast_heartbeat bind_or_connect first_role second_role start_accept new_tcp
    get_host_uuid new_core
first_beats-Network =
    move first_moved-Network (own 0 (heartbeat new_core 8000 8000 beating_host refl) refl)

beaten : Memᴰ (sending false nil_uuid 8000) (first_beats 0).started
unfolding bind_or_connect first_role second_role start_accept new_tcp
beaten = Memᴰ.tail (Memᴰ.tail (Memᴰ.tail (Memᴰ.tail (Memᴰ.tail (Memᴰ.head refl)))))

second_hears-Network : Network to_text from_text second_hears
unfolding handle_receive_from answer bind_or_connect first_role second_role start_accept new_tcp
    bytes_eq get_host_uuid new_core
second_hears-Network =
    move first_beats-Network (heard 0 1 false nil_uuid 8000 5 hearing_host beaten refl)

abbrev third_writes : Hosts
third_writes = update second_hears 2 writing_host

abbrev first_meets : Hosts
first_meets = update third_writes 0 met_host

third_writes-Network : Network to_text from_text third_writes
third_writes-Network =
    move second_hears-Network (own 2 (socket_init new_core none other_end 0) refl)

written : Memᴰ (writing_uuid nil_uuid other_end) (third_writes 2).started
unfolding handle_socket_init new_tcp get_host_uuid new_core
written = Memᴰ.head refl

first_meets-Network : Network to_text from_text first_meets
first_meets-Network =
    move third_writes-Network
      (introduced 2 0 nil_uuid other_end other_end ltb archive 3 group written refl)

Network-strangers_example :
    ((address port : ℕ) → ¬ Memᴰ (connecting address port) (first_meets 0).started)
    × AreSame (first_meets 0).sessions
    × (length (first_meets 0).sessions ≤ 1)
Network-strangers_example = Network-strangers to_text from_text reads_back first_meets-Network 0

-- The process of which version 4 could be bound and version 6 not, and a second attempt for it.
abbrev half_bound : Tcp
half_bound =
    begin (waiting ∷ [])
      (record (bind_or_connect new_core (attempt true false none)
        (begin (receiving false ∷ receiving true ∷ []) new_tcp)) { initialized = true })

abbrev second_attempt : ℕ → Attempt
second_attempt n = attempt true true none

abbrev bound_wholly : Tcp
bound_wholly = begin (Started.accepting true ∷ []) (record half_bound { acceptor_v6 = true })

half_bound-Reachable : Reachable half_bound
unfolding worker new_tcp
half_bound-Reachable = worked new_core true true (attempt true false none) (λ t. t) built refl here

half_bound-Steps : Steps half_bound bound_wholly
unfolding on_local_close bind_inside bind_or_connect first_role second_role start_accept new_tcp
half_bound-Steps = next here (bound new_core second_attempt 1 0 bound_wholly refl)

Reachable-roles_example :
    Shows (role_of half_bound) half_bound
    × (idle ⟶* role_of half_bound)
    × (role_of half_bound ⟶* role_of bound_wholly)
    × Allows (role_of half_bound) (role_of bound_wholly)
Reachable-roles_example = Reachable-roles half_bound-Reachable half_bound-Steps

-- The first accept of version 4 is completed.
abbrev accepted_one : Tcp
accepted_one = handle_socket_init new_core (some false) other_end 0 half_bound

accepts_outstanding_example :
    (tally false accepted_one.started ≡ 1 + 1) × (tally true accepted_one.started ≡ 0)
unfolding handle_socket_init start_accept bind_or_connect first_role second_role new_tcp
    half_bound-Reachable
accepts_outstanding_example =
    accepts_outstanding (step half_bound-Reachable (socket_init new_core (some false) other_end 0))
