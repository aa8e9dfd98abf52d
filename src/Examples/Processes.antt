-- ===== src/Examples/Processes.antt =====
-- Runs of group.hpp, backend/shm.cpp and example/loopback/main.cpp.
use libgscale.Prelude.{
  ◌≡◌, refl, true, Option, none, some, List, [], ◌∷◌, bytes_eq, any_of, if◌then◌else◌,
}
use libgscale.Words.{Bytes}
use libgscale.Core.{Uuid}
use libgscale.GroupCore.{new_group_core, attach_backend}
use libgscale.MultiIndex.{insert}
use libgscale.GroupCore.Rows.{enable, new_backend_row}
use libgscale.Group
use libgscale.Group.{Group, attach_new, attached, new_group}
use libgscale.Group.Owned.{Life, made, accepted, IsOwned, Life-IsOwned}
use libgscale.SharedMemory.{threw, new_shared_memory, initialize}
use libgscale.ShmChat
use libgscale.ShmChat.{undefined, attaching}
use libgscale.ShmChat.Undefined.{main_undefined}
use libgscale.SharedMemory.Table.{table, table-IsLawful}
use libgscale.Chat.{Callbacks, Find, Event, read, available, unavailable}
use libgscale.Examples.{alice, bob, letter}
use libgscale.Examples.Groups.{empty}

abbrev new_client : Group
new_client = record { gcore = empty }

-- A back end of a type that the group does not have, with the object 7.
abbrev extended : Group
extended = record {
  gcore = record new_client.gcore {
    backends = record { backend = 7; type = 76 ∷ []; enabled = true; sendqueue = [] } ∷ [];
  };
}

extended-Life : Life extended (7 ∷ [])
unfolding new_group new_group_core attach_new Group.attach_backend attach_backend insert enable
    new_backend_row any_of
extended-Life =
    accepted (λ b. true) 0 (76 ∷ []) 7 new_client extended [] (7 ∷ [])
      (made 1 (103 ∷ []) new_client refl) refl refl

Life-IsOwned_example : IsOwned (7 ∷ []) extended.gcore.backends
Life-IsOwned_example = Life-IsOwned extended-Life

-- A process that gets the lock, in which a segment of another name was made.
main_undefined_example :
    (ShmChat.main table true 0 (115 ∷ []) (some 9) ((103 ∷ []) ∷ []) ≡ undefined)
    × ((g : Group)
        → (attaching table true 0 (115 ∷ []) (some 9) ((103 ∷ []) ∷ []) (some g) ≡ undefined)
          × (initialize table true 0 0 g.gcore new_shared_memory ((103 ∷ []) ∷ [])
              ≡ threw ((103 ∷ []) ∷ [])))
main_undefined_example =
    main_undefined table table-IsLawful true 0 (115 ∷ []) (some 9) ((103 ∷ []) ∷ [])

abbrev Place : Type 0
Place = Option (List (Bytes × Bytes) × Bytes × List (Bytes × Bytes))

abbrev behind : Bytes × Bytes → Place → Place
behind e none = none
behind e (some (before, m, after)) = some (e ∷ before, m, after)

-- The first element with a key.
abbrev first_with : Find
first_with k [] = none
first_with k ((j, m) ∷ t) =
    let rest = first_with k t in if bytes_eq j k then some ([], m, t) else behind (j, m) rest

abbrev text : Uuid → Bytes
text uuid = []

abbrev greeting : Callbacks
greeting = record { node2message = (98 ∷ 45 ∷ 62 ∷ 97 ∷ 108 ∷ [], 72 ∷ 105 ∷ []) ∷ [] }

abbrev events : List Event
events = available alice bob ∷ read letter ∷ unavailable bob alice ∷ []
