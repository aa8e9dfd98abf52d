-- ===== src/Node/Identity.antt =====
-- inode.cpp and core.cpp: how nodes are named and which of them count as local.
use libgscale.Prelude.{◌≡◌, ◌<◌, ◌⊎◌, true, none, some, Option, arith, length, bytes_eq_refl}
use libgscale.Words.{Bytes}
use libgscale.Core.{Uuid, nil_uuid, Core, new_core, get_instance, get_host_uuid}
use libgscale.Node.{inode_of_alias, inode_of_uuid, nil_node, is_local, get_alias, inode_eq}

-- Two constructions from the same non-empty alias give equal nodes, whatever the random
-- generator returns, and both show that alias.
inode_of_alias_stable :
    (named : Uuid → Bytes → Uuid) (r s : Uuid) (core : Core) (alias : Bytes) (show : Uuid → Bytes)
    → 0 < length alias
    → (inode_of_alias named r core alias ≡ inode_of_alias named s core alias)
      × (inode_eq (inode_of_alias named r core alias) (inode_of_alias named s core alias) ≡ true)
      × (get_alias show (inode_of_alias named r core alias) ≡ alias)
unfolding inode_of_alias inode_eq get_alias
inode_of_alias_stable named r s core alias show h =
    ground (arith, bytes_eq_refl (named (get_host_uuid core) alias))

-- Whenever a process asks for its Core, the instance has the nil host uuid, and the one kept for
-- the next call is the same. So a node that any process made, by alias or by uuid, is local to
-- every other process, and so is the nil node.
is_local_always :
    (inst other : Option Core) (named : Uuid → Bytes → Uuid) (r : Uuid) (alias : Bytes)
    → (inst ≡ none) ⊎ (inst ≡ some new_core)
    → (other ≡ none) ⊎ (other ≡ some new_core)
    → (get_host_uuid (get_instance inst).0 ≡ nil_uuid)
      × ((get_instance inst).1 ≡ some new_core)
      × (is_local (get_instance inst).0 (inode_of_alias named r (get_instance other).0 alias)
          ≡ true)
      × (is_local (get_instance inst).0 (inode_of_uuid (get_instance other).0 r) ≡ true)
      × (is_local (get_instance inst).0 nil_node ≡ true)
unfolding get_instance new_core get_host_uuid is_local inode_of_alias inode_of_uuid nil_node
is_local_always inst other named r alias h k = ground (arith, bytes_eq_refl nil_uuid)
