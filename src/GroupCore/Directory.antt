-- ===== src/GroupCore/Directory.antt =====
-- groupcore.cpp as its clients see it: which node has a uuid, which back end a type, and how many
-- connections there were. The order of the rows and the queues are forgotten.
use libgscale.Prelude.{ℕ, ◌+◌, ◌-◌, ◌%◌, none, ◌==◌}
use libgscale.LocalNode.{new_local_node}
use libgscale.MultiIndex.Find.{Lookup, put, change, change_where, drop_where, row_of}
use libgscale.GroupCore.{GroupCore, set_disconnect, is_unreferenced, is_disabled}
use libgscale.GroupCore.Rows.{
  LocalNodeRow, BackendRow, new_row, row_uuid, enable, disable, new_backend_row, u16_mod,
}
use libgscale.GroupCore.History.{
  Call, attached, detached, connected, disconnected, written, served, Step, call, increased,
  decreased, Steps, here, next, History, start, step, work,
}
use libgscale.GroupCore.Counts.{with_count}

pub record Directory : Type 0 where
  pub nodes : Lookup LocalNodeRow
  pub types : Lookup BackendRow
  pub connections : ℕ

-- What a group shows of its tables.
unfoldable pub view : GroupCore → Directory
view c = record {
  nodes = row_of row_uuid c.localnodes;
  types = row_of (λ r. r.type) c.backends;
  connections = c.connectcount;
}

unfoldable pub empty : Directory
empty = record { nodes = λ k. none; types = λ k. none; connections = 0 }

-- What a call does to a directory.
unfoldable pub replay_call : {c d : GroupCore} → Call c d → Directory → Directory
replay_call (attached initialize errno type backend d e) s = record s {
  types = put type (enable (new_backend_row backend type)) s.types;
}
replay_call (detached type) s = record s { types = change type disable s.types }
replay_call (connected named random core service now alias cbs) s =
    let node = new_local_node named random core service alias cbs in
    record s {
      nodes = put node.nodeuuid (new_row (s.connections + 1) node now) s.nodes;
      connections = s.connections + 1;
    }
replay_call (disconnected now node) s = record s {
  nodes = change node.nodeuuid (set_disconnect now) s.nodes;
}
replay_call (written packet d e) s = s
replay_call (served queue stopped) s = s

unfoldable pub replay_step : {c d : GroupCore} → Step c d → Directory → Directory
unfolding replay_call
replay_step (call k) s = replay_call k s
replay_step (increased id) s = record s {
  nodes =
      change_where (λ r. r.id == id) (λ r. with_count ((r.backendrefcount + 1) % u16_mod) r)
        s.nodes;
}
replay_step (decreased id) s = record s {
  nodes =
      change_where (λ r. r.id == id)
        (λ r. with_count ((r.backendrefcount + u16_mod - 1) % u16_mod) r) s.nodes;
}

unfoldable pub replay_steps : {c d : GroupCore} → Steps Step c d → Directory → Directory
replay_steps here s = s
replay_steps (next h k) s = replay_step k (replay_steps h s)

-- What is left by runWorker after the steps that `run` makes.
unfoldable pub swept : Directory → Directory
swept s = record s {
  nodes = drop_where is_unreferenced s.nodes;
  types = drop_where is_disabled s.types;
}

-- What a history does to a directory.
unfoldable pub replay : {c d : GroupCore} → History Step c d → Directory → Directory
replay start s = s
replay (step h k) s = replay_step k (replay h s)
replay (work run timeout h k) s = swept (replay_steps k (replay h s))
