-- ===== src/Group.antt =====
-- group.cpp and group.hpp: the interface of a client. Each call goes on to the group's GroupCore;
-- back ends are made, and on failure deleted, by attachBackend<T>.
pub mod Owned
use libgscale.Prelude.{
  ℕ, Bool, Option, none, some, List, [], ◌∷◌, leb, length, if◌then◌else◌, ◌==◌, not, keep_if,
}
use libgscale.Words.{Bytes}
use libgscale.Core.{Uuid, Core}
use libgscale.LocalNode.{LocalNode}
use libgscale.Packet.{Packet}
use libgscale.GroupCore
use libgscale.GroupCore.{GroupCore, Error, Result, ok, err, new_group_core}

pub record Group : Type 0 where
  pub gcore : GroupCore

abbrev built : Result GroupCore → Option Group
built (ok c) = some (record { gcore = c })
built (err e) = none

-- Group::Group, which is declared throw(): an exception ends the process, which is `none`.
unfoldable pub new_group : ℕ → Bytes → Option Group
unfolding new_group_core
new_group group gname = if leb (length gname) 0 then none else built (new_group_core group gname)

abbrev kept : Group → Result GroupCore → Result Group
kept g (ok c) = ok (record g { gcore = c })
kept g (err e) = err e

-- Group::attachBackend and detachBackend
unfoldable pub attach_backend : (ℕ → Bool) → ℕ → Bytes → ℕ → Group → Result Group
attach_backend initialize errno type backend g =
    kept g (GroupCore.attach_backend initialize errno type backend g.gcore)

unfoldable pub detach_backend : Bytes → Group → Group
detach_backend type g = record g { gcore = GroupCore.detach_backend type g.gcore }

-- How attachBackend<T> ends: with the group, by the exception of the group's attachBackend, or, where
-- there is no memory for the object, in undefined behaviour: the handler for all other exceptions
-- makes one of a message and a code, whose file is NULL.
pub data Attached : Type 0 where
  attached : Group → Attached
  refused : Error → Attached
  undefined : Attached

abbrev finish : ℕ → List ℕ → Result Group → Attached × List ℕ
finish b live (ok g) = (attached g, b ∷ live)
finish b live (err e) = (refused e, keep_if (λ x. not (x == b)) (b ∷ live))

-- Group::attachBackend<T>; `made` is the object of `new`, and `live` the objects that were made and
-- not deleted. `type` is typeid(T).name().
unfoldable pub attach_new : (ℕ → Bool) → ℕ → Bytes → Option ℕ → List ℕ → Group → Attached × List ℕ
attach_new initialize errno type none live g = (undefined, live)
attach_new initialize errno type (some b) live g =
    finish b live (attach_backend initialize errno type b g)

-- Group::runWorker
unfoldable pub run_worker : (Option ℕ → GroupCore → GroupCore) → Option ℕ → Group → Group
run_worker run timeout g = record g { gcore = GroupCore.run_worker run timeout g.gcore }

-- Group::connect
unfoldable pub connect :
    (Uuid → Bytes → Uuid) → Uuid → Core → ℕ → ℕ → Bytes → ℕ → Group → Group × LocalNode
connect named random core service now nodealias cbs g =
    let done = GroupCore.connect named random core service now nodealias cbs g.gcore in
    (record g { gcore = done.0 }, done.1)

-- Group::connect without an alias
unfoldable pub connect_unnamed :
    (Uuid → Bytes → Uuid) → Uuid → Core → ℕ → ℕ → ℕ → Group → Group × LocalNode
connect_unnamed named random core service now cbs g = connect named random core service now [] cbs g

-- Group::disconnect
unfoldable pub disconnect : ℕ → LocalNode → Group → Group
disconnect now node g = record g { gcore = GroupCore.disconnect now node g.gcore }

abbrev written : Group → Option GroupCore → Option Group
written g none = none
written g (some c) = some (record g { gcore = c })

-- Group::write; `none` is undefined behaviour.
unfoldable pub write : Packet → Group → Option Group
write packet g = written g (GroupCore.write packet g.gcore)

-- Group::getEventDescriptor and getName
unfoldable pub get_event_descriptor : Group → ℕ
get_event_descriptor g = GroupCore.get_event_descriptor g.gcore

unfoldable pub get_name : Group → Bytes
get_name g = GroupCore.get_name g.gcore
