-- ===== src/Examples.antt =====
-- The data of the concrete runs, and the runs themselves by part of the program.
pub mod Nodes
pub mod Messages
pub mod Groups
pub mod Frames
pub mod Sessions
pub mod Interfaces
pub mod Processes
pub mod Lives
pub mod Programs
pub mod Networks
use libgscale.Prelude.{ℕ, List, [], ◌∷◌, ◌++◌, take, replicate}
use libgscale.Words.{Bytes}
use libgscale.Core.{Uuid, Core, nil_uuid, new_core}
use libgscale.Node.{INode}
use libgscale.Packet.{Packet}

abbrev pub sixteen : Uuid
sixteen = 0 ∷ 1 ∷ 2 ∷ 3 ∷ 4 ∷ 5 ∷ 6 ∷ 7 ∷ 8 ∷ 9 ∷ 10 ∷ 11 ∷ 12 ∷ 13 ∷ 14 ∷ 255 ∷ []

-- A name generator: the first sixteen bytes of the name, filled up with zeros.
abbrev pub named : Uuid → Bytes → Uuid
named base name = take 16 (name ++ nil_uuid)

abbrev pub alice : INode
alice = record { hostuuid = nil_uuid; nodeuuid = sixteen; alias = 97 ∷ 108 ∷ [] }

abbrev pub bob : INode
bob = record { hostuuid = nil_uuid; nodeuuid = replicate 16 7; alias = 98 ∷ [] }

abbrev pub letter : Packet
letter = record { sender = alice; receiver = bob; payload = 1 ∷ 2 ∷ 3 ∷ []; type = 3 }
