-- ===== src/Tcp/OneHost.antt =====
-- tcp.cpp with core.cpp: sessions of hosts that all have one uuid.
use libgscale.Prelude.{
  ◌≤◌, ◌≡◌, sym, ◌∙◌, List, [], ◌∷◌, true, false, All, length, arith, bytes_eq_refl,
}
use libgscale.Core.{new_core, get_host_uuid}
use libgscale.MultiIndex.{IsUnique}
use libgscale.Session.{Session}
use libgscale.Tcp.{Tcp}
use libgscale.Tcp.Hosts.{same_host}
use libgscale.Tcp.Steps.{Reachable}
use libgscale.Tcp.Reachable.{Reachable-HasOneRole}

clash_of_same :
    (a b : Session)
    → a.remotehostuuid ≡ get_host_uuid new_core
    → b.remotehostuuid ≡ get_host_uuid new_core
    → same_host a b ≡ true
clash_of_same a b e f = rw (e, f) (bytes_eq_refl (get_host_uuid new_core))

one_at_most :
    (ss : List Session)
    → IsUnique same_host ss
    → All (λ s. s.remotehostuuid ≡ get_host_uuid new_core) ss
    → length ss ≤ 1
one_at_most [] u a = omega arith
one_at_most (s ∷ []) u a = omega arith
one_at_most (s ∷ r ∷ ss) u a =
    let clash : true ≡ false = sym (clash_of_same s r a.0 a.1.0) ∙ u.0.0 in absurd cc

-- Where the sessions of a reachable back end are to hosts with the uuid that every process has, the
-- back end has at most one session: a process never has sessions to two others.
pub Reachable-length :
    {t : Tcp}
    → Reachable t
    → All (λ s. s.remotehostuuid ≡ get_host_uuid new_core) t.sessions
    → length t.sessions ≤ 1
Reachable-length {t} r a = one_at_most t.sessions (Reachable-HasOneRole r).1 a
