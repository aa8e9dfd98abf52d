-- ===== src/Tcp/Network.antt =====
-- tcp.cpp: hosts on one network. What a host has started reaches the others: a packet that it sends to
-- a multicast group, and the uuid that it writes to a session.
use libgscale.Prelude.{ℕ, ◌≡◌, ◌≢◌, ◌⊎◌, Bool, Option, some, length, ◌==◌, if◌then◌else◌}
use mathlib.Core.List.{Memᴰ}
use libgscale.Words.{Bytes}
use libgscale.Core.{Uuid, new_core}
use libgscale.Packet.{Packet}
use libgscale.GroupCore.{GroupCore}
use libgscale.Session.{Session}
use libgscale.Tcp.{
  Tcp, new_tcp, writing_uuid, sending, uuid_read_finished, handle_receive_from, Attempt,
}
use libgscale.Tcp.Worker.{worker, polled, failed}
use libgscale.Tcp.Steps.{
  Step, initialized, available, uuid_read, socket_init, received, heartbeat, bound, local_closed,
  handled, sync_nodes,
}

-- A step of a host in which nothing of another host arrives. The handlers get the instance that
-- Core::getInstance makes.
abbrev pub IsOwn : {t u : Tcp} → Step t u → Type 0
IsOwn (initialized groupc gdao) = Unit {0}
IsOwn (available archive c) = Unit {0}
IsOwn (uuid_read lt archive error bytes fuel c s) = (error ≢ 0) ⊎ (bytes ≢ 16)
IsOwn (socket_init core acceptor s error) = core ≡ new_core
IsOwn (received parse core buffer sender error bytes v6 u e) = (error ≢ 0) ⊎ (bytes ≡ 0)
IsOwn (heartbeat core port_v4 port_v6 u e) = core ≡ new_core
IsOwn (bound core attempt fuel n u e) = core ≡ new_core
IsOwn (local_closed core attempt fuel u e) = core ≡ new_core
IsOwn (handled which e) = Unit {0}
IsOwn (sync_nodes which archive fuel c) = Unit {0}

-- The hosts by number.
abbrev pub Hosts : Type 0
Hosts = ℕ → Tcp

abbrev pub update : Hosts → ℕ → Tcp → Hosts
update h i t j = if j == i then t else h j

-- `to_text` and `from_text` are the archive of a MulticastPacket. A packet that host `i` sends
-- comes to a host as it was sent, and a uuid that it writes is read by the other end of a session.
module _ (to_text : Uuid × ℕ → Bytes) (from_text : Bytes → Option (Uuid × ℕ)) where
  pub data Move (h : Hosts) : Hosts → Type 0 where
    own : (i : ℕ) {u : Tcp} (s : Step (h i) u) → IsOwn s → Move h (update h i u)
    worked :
        (i : ℕ) (opened_v4 opened_v6 : Bool) (a : Attempt) (u : Tcp)
        → worker new_core opened_v4 opened_v6 a (λ v. v) (h i) ≡ polled u
        → Move h (update h i u)
    not_opened :
        (i : ℕ) (opened_v4 opened_v6 : Bool) (a : Attempt) (u : Tcp)
        → worker new_core opened_v4 opened_v6 a (λ v. v) (h i) ≡ failed u
        → Move h (update h i u)
    heard :
        (i j : ℕ) (v6 : Bool) (uuid : Uuid) (port sender : ℕ) (u : Tcp)
        → Memᴰ (sending v6 uuid port) (h i).started
        → handle_receive_from from_text new_core
            (to_text (uuid, port))
            sender
            0
            (length (to_text (uuid, port)))
            v6
            (h j)
          ≡ some u
        → Move h (update h j u)
    introduced :
        (i j : ℕ) (uuid : Uuid) (other s : Session) (lt : ℕ → ℕ → Bool) (archive : Packet → Bytes)
        (fuel : ℕ) (c : GroupCore)
        → Memᴰ (writing_uuid uuid other) (h i).started
        → s.remotehostuuid ≡ uuid
        → Move h (update h j (uuid_read_finished lt archive 0 16 fuel c s (h j)).0)

  -- What hosts come to whose back ends were just made.
  pub data Network : Hosts → Type 0 where
    built : Network (λ i. new_tcp)
    move : {h k : Hosts} → Network h → Move h k → Network k
