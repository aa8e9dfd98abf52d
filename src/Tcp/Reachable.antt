-- ===== src/Tcp/Reachable.antt =====
-- tcp.cpp: what holds of every state that a back end reaches.
use libgscale.Prelude.{
  ℕ, ◌≡◌, refl, sym, subst, inl, inr, Bool, true, false, Bool-cases, none, [], ◌∷◌, arith,
}
use libgscale.Words.{Bytes}
use libgscale.Core.{Core}
use libgscale.Packet.{Packet}
use libgscale.GroupCore.{GroupCore}
use libgscale.MultiIndex.{IsUnique, update_first-IsUnique, map-IsUnique}
use libgscale.Session.{Session, handle, sync_node_list, enqueue_sync_node_list}
use libgscale.Tcp.{
  Tcp, accepts, session_of, new_tcp, initialize, on_local_node_available, uuid_read_finished,
  on_local_close, Attempt, receiving,
}
use libgscale.Tcp.Worker.{worker, polled, failed, start_worker, open_sockets}
use libgscale.Tcp.Steps.{
  Step, initialized, available, uuid_read, socket_init, received, heartbeat, bound, local_closed,
  handled, sync_nodes, Steps, here, next, Reachable, built, step, worked, not_opened,
}
use libgscale.Tcp.Attempts.{left_by, chosen, worker_failed-keeps}
use libgscale.Tcp.Peers.{HasOneRole}
use libgscale.Tcp.Hosts.{
  same_host, uuid_read_finished-IsUnique, handle_all_host, sync_loop_host, unless_host,
}
use libgscale.Tcp.Handlers.{
  IsSound, begin-IsSound, socket_init-IsSound, received-begin, heartbeat-begin,
  bind_or_connect-IsSound, bind_inside-IsSound,
}

-- A call on a session leaves the uuid of its host alone.
same_host-keeps :
    (f : Session → Session)
    → ((s : Session) → (f s).remotehostuuid ≡ s.remotehostuuid)
    → (r s : Session) → (same_host (f r) s ≡ same_host r s) × (same_host s (f r) ≡ same_host s r)
same_host-keeps f keeps r s = rw (keeps r) (refl, refl)

pub enqueue_host :
    (archive : Packet → Bytes) (c : GroupCore) (s : Session)
    → (session_of s (enqueue_sync_node_list archive false 0 c s)).remotehostuuid ≡ s.remotehostuuid
unfolding enqueue_sync_node_list
enqueue_host archive c s = unless_host s.is_syncnode_enqueued s _ refl

pub sync_host :
    (archive : Packet → Bytes) (fuel : ℕ) (c : GroupCore) (s : Session)
    → (session_of s (sync_node_list archive fuel c s)).remotehostuuid ≡ s.remotehostuuid
unfolding sync_node_list
sync_host archive fuel c s =
    sync_loop_host archive fuel c (record s { is_syncnode_enqueued = false }) s refl

read-HasOneRole :
    (lt : ℕ → ℕ → Bool) (archive : Packet → Bytes) (error bytes fuel : ℕ) (c : GroupCore)
    (s : Session) (t : Tcp)
    → HasOneRole t
    → HasOneRole (uuid_read_finished lt archive error bytes fuel c s t).0
unfolding uuid_read_finished
read-HasOneRole lt archive error bytes fuel c s t v =
    elim (Bool-cases (accepts lt error bytes s t)) [ inl e ↦ rw e v | inr e ↦ rw e v ]

Step-IsSound : {t u : Tcp} → Step t u → IsSound t → IsSound u
unfolding initialize on_local_node_available uuid_read_finished on_local_close
Step-IsSound {t} (initialized groupc gdao) v = record { role = v.role; hosts = v.hosts }
Step-IsSound {t} (available archive c) v = record {
  role = v.role;
  hosts =
      map-IsUnique same_host _ t.sessions
        (same_host-keeps (λ s. session_of s (enqueue_sync_node_list archive false 0 c s))
          (enqueue_host archive c))
        v.hosts;
}
Step-IsSound {t} (uuid_read lt archive error bytes fuel c s) v = record {
  role = read-HasOneRole lt archive error bytes fuel c s t v.role;
  hosts = uuid_read_finished-IsUnique lt archive error bytes fuel c s t v.hosts;
}
Step-IsSound {t} (socket_init core acceptor s error) v =
    socket_init-IsSound core acceptor s error t v
Step-IsSound {t} (received parse core buffer sender error bytes v6 u e) v =
    subst IsSound (sym (received-begin parse core buffer sender error bytes v6 t u e))
      (record { role = v.role; hosts = v.hosts })
Step-IsSound {t} (heartbeat core port_v4 port_v6 u e) v =
    subst IsSound (sym (heartbeat-begin core port_v4 port_v6 t u e))
      (record { role = v.role; hosts = v.hosts })
Step-IsSound {t} (bound core attempt fuel n u e) v = bind_inside-IsSound core attempt fuel n t u e v
Step-IsSound {t} (local_closed core attempt fuel u e) v =
    bind_inside-IsSound core attempt fuel 0 (record t { local_v4 = none }) u e
      (record { role = (ground arith, v.role.1); hosts = v.hosts })
Step-IsSound {t} (handled which e) v = record {
  role = v.role;
  hosts =
      update_first-IsUnique same_host which (handle e) t.sessions
        (same_host-keeps (handle e) (handle_all_host (e ∷ []))) v.hosts;
}
Step-IsSound {t} (sync_nodes which archive fuel c) v = record {
  role = v.role;
  hosts =
      update_first-IsUnique same_host which _ t.sessions
        (same_host-keeps (λ s. session_of s (sync_node_list archive fuel c s))
          (sync_host archive fuel c))
        v.hosts;
}

Steps-IsSound : {t u : Tcp} → Steps t u → IsSound t → IsSound u
Steps-IsSound here v = v
Steps-IsSound (next s k) v = Step-IsSound k (Steps-IsSound s v)

started-IsSound :
    (core : Core) (opened_v4 opened_v6 : Bool) (a : Attempt) (t : Tcp)
    → IsSound t
    → IsSound (left_by (start_worker core a (λ v. v) (open_sockets opened_v4 opened_v6 t)))
started-IsSound core false opened_v6 a t v = v
started-IsSound core true false a t v = begin-IsSound _ t v
started-IsSound core true true a t v =
    let done =
      bind_or_connect-IsSound core a _
        (begin-IsSound (receiving false ∷ receiving true ∷ []) t v) in
    record { role = done.role; hosts = done.hosts }

worker-IsSound :
    (core : Core) (opened_v4 opened_v6 : Bool) (a : Attempt) (t u : Tcp)
    → worker core opened_v4 opened_v6 a (λ v. v) t ≡ polled u
    → IsSound t
    → IsSound u
unfolding worker
worker-IsSound core opened_v4 opened_v6 a t u e v =
    subst (λ w. IsSound (left_by w)) e
      (chosen IsSound t.initialized t _ v (started-IsSound core opened_v4 opened_v6 a t v))

failed-IsSound :
    (core : Core) (opened_v4 opened_v6 : Bool) (a : Attempt) (poll : Tcp → Tcp) (t u : Tcp)
    → worker core opened_v4 opened_v6 a poll t ≡ failed u
    → IsSound t
    → IsSound u
failed-IsSound core opened_v4 opened_v6 a poll t u e v =
    worker_failed-keeps IsSound core opened_v4 opened_v6 a poll t u e v
      (begin-IsSound (receiving false ∷ []) t v)

Reachable-IsSound : {t : Tcp} → Reachable t → IsSound t
unfolding new_tcp
Reachable-IsSound built = record { role = (refl, refl); hosts = tt }
Reachable-IsSound (step r s) = Step-IsSound s (Reachable-IsSound r)
Reachable-IsSound (worked {t} {u} core opened_v4 opened_v6 a poll r e s) =
    Steps-IsSound s (worker-IsSound core opened_v4 opened_v6 a t u e (Reachable-IsSound r))
Reachable-IsSound (not_opened {t} {u} core opened_v4 opened_v6 a poll r e) =
    failed-IsSound core opened_v4 opened_v6 a poll t u e (Reachable-IsSound r)

-- Whatever calls and handlers that return and rounds of Worker that return, or end by the exception
-- of a socket, follow the construction of a back end, and however bind and connect turn out, its process has at most one role, it accepts with version
-- 6 only if it does with version 4, and the back end has at most one session for each host.
pub Reachable-HasOneRole : {t : Tcp} → Reachable t → HasOneRole t × IsUnique same_host t.sessions
Reachable-HasOneRole r = let v = Reachable-IsSound r in (v.role, v.hosts)
