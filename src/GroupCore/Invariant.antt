-- ===== src/GroupCore/Invariant.antt =====
-- groupcore.cpp: no history gives two nodes one id or one uuid, or two back ends one type.
use libgscale.Prelude.{ℕ, ◌≤◌, ◌≡◌, refl, sym, subst, Bool, Option, some, arith, All}
use libgscale.Words.{Bytes}
use libgscale.Packet.{Packet}
use libgscale.MultiIndex.{
  IsUnique, insert-IsUnique, update_first-IsUnique, erase-IsUnique, All-insert, All-update_first,
  All-erase, All-map, insert,
}
use libgscale.GroupCore.{
  GroupCore, ok, new_group_core, attach_backend, detach_backend, connect, disconnect, write,
  post_each, ready, run_worker, has_type, is_unreferenced, is_disabled,
}
use libgscale.GroupCore.Nodes.{increase_ref, decrease_ref}
use libgscale.GroupCore.Rows.{node_clash, enable, disable, new_row, new_backend_row, backend_clash}
use libgscale.GroupCore.History.{
  Call, attached, detached, connected, disconnected, written, served, Step, call, increased,
  decreased, Steps, here, next, History, start, step, work,
}

pub record IsConsistent (c : GroupCore) : Type 0 where
  -- Node ids and uuids are pairwise different.
  pub nodes : IsUnique node_clash c.localnodes
  -- No id was given that `connectcount` has not reached.
  pub ids : All (λ r. r.id ≤ c.connectcount) c.localnodes
  -- Back end types are pairwise different.
  pub types : IsUnique backend_clash c.backends

-- A successful attachment adds the enabled row, and a successful write touches the queue alone.
pub attach_backend-eq-ok :
    (initialize : ℕ → Bool) (errno : ℕ) (type : Bytes) (backend : ℕ) (c d : GroupCore)
    → attach_backend initialize errno type backend c ≡ ok d
    → d ≡ record c {
      backends = insert backend_clash (enable (new_backend_row backend type)) c.backends;
    }
unfolding attach_backend
attach_backend-eq-ok initialize errno type backend c d e = ground arith

pub write-eq-some :
    (packet : Packet) (c d : GroupCore)
    → write packet c ≡ some d
    → d ≡ record c { sendqueue = d.sendqueue }
unfolding write
write-eq-some packet c d e = ground arith

Call-IsConsistent : {c d : GroupCore} → Call c d → IsConsistent c → IsConsistent d
unfolding detach_backend connect disconnect write post_each new_row disable
Call-IsConsistent {c} (attached initialize errno type backend d e) v =
    subst IsConsistent (sym (attach_backend-eq-ok initialize errno type backend c d e)) (record {
      nodes = v.nodes;
      ids = v.ids;
      types = insert-IsUnique backend_clash _ c.backends v.types;
    })
Call-IsConsistent {c} (detached type) v = record {
  nodes = v.nodes;
  ids = v.ids;
  types =
      update_first-IsUnique backend_clash (has_type type) disable c.backends (λ r s. (refl, refl))
        v.types;
}
Call-IsConsistent {c} (connected named random core service now alias cbs) v = record {
  nodes = insert-IsUnique node_clash _ c.localnodes v.nodes;
  ids =
      All-insert _ node_clash _ c.localnodes (All-map _ _ c.localnodes (λ r h. omega arith) v.ids)
        (omega arith);
  types = v.types;
}
Call-IsConsistent {c} (disconnected now node) v = record {
  nodes = update_first-IsUnique node_clash _ _ c.localnodes (λ r s. (refl, refl)) v.nodes;
  ids = All-update_first _ _ _ c.localnodes (λ r h. h) v.ids;
  types = v.types;
}
Call-IsConsistent {c} (written packet d e) v =
    subst IsConsistent (sym (write-eq-some packet c d e))
      (record { nodes = v.nodes; ids = v.ids; types = v.types })
Call-IsConsistent {c} (served queue stopped) v = record {
  nodes = v.nodes;
  ids = v.ids;
  types = v.types;
}

Step-IsConsistent : {c d : GroupCore} → Step c d → IsConsistent c → IsConsistent d
unfolding increase_ref decrease_ref
Step-IsConsistent (call k) v = Call-IsConsistent k v
Step-IsConsistent {c} (increased id) v = record {
  nodes = update_first-IsUnique node_clash _ _ c.localnodes (λ r s. (refl, refl)) v.nodes;
  ids = All-update_first _ _ _ c.localnodes (λ r h. h) v.ids;
  types = v.types;
}
Step-IsConsistent {c} (decreased id) v = record {
  nodes = update_first-IsUnique node_clash _ _ c.localnodes (λ r s. (refl, refl)) v.nodes;
  ids = All-update_first _ _ _ c.localnodes (λ r h. h) v.ids;
  types = v.types;
}

pub Steps-IsConsistent : {c d : GroupCore} → Steps Step c d → IsConsistent c → IsConsistent d
Steps-IsConsistent here v = v
Steps-IsConsistent (next s k) v = Step-IsConsistent k (Steps-IsConsistent s v)

pub ready-IsConsistent : (c : GroupCore) → IsConsistent c → IsConsistent (ready c)
unfolding ready post_each
ready-IsConsistent c v = record { nodes = v.nodes; ids = v.ids; types = v.types }

run_worker-IsConsistent :
    (run : Option ℕ → GroupCore → GroupCore) (timeout : Option ℕ) (c : GroupCore)
    → IsConsistent (run timeout (ready c))
    → IsConsistent (run_worker run timeout c)
unfolding run_worker
run_worker-IsConsistent run timeout c v =
    let d = run timeout (ready c) in
    record {
      nodes = erase-IsUnique node_clash is_unreferenced d.localnodes v.nodes;
      ids = All-erase _ is_unreferenced d.localnodes v.ids;
      types = erase-IsUnique backend_clash is_disabled d.backends v.types;
    }

pub History-IsConsistent : {c d : GroupCore} → History Step c d → IsConsistent c → IsConsistent d
History-IsConsistent start v = v
History-IsConsistent (step h k) v = Step-IsConsistent k (History-IsConsistent h v)
History-IsConsistent (work {d} run timeout h s) v =
    run_worker-IsConsistent run timeout d
      (Steps-IsConsistent s (ready-IsConsistent d (History-IsConsistent h v)))

-- Whatever calls of the API, changes of reference counts and rounds of runWorker follow the
-- construction of a group, its nodes have pairwise different ids and uuids, no id is above
-- `connectcount`, and its back ends have pairwise different types.
pub new_group_core-IsConsistent :
    (group : ℕ) (gname : Bytes) (c d : GroupCore)
    → new_group_core group gname ≡ ok c
    → History Step c d
    → IsConsistent d
unfolding new_group_core
new_group_core-IsConsistent group gname c d e h = History-IsConsistent h (ground arith)
