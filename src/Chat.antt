-- ===== src/Chat.antt =====
-- example/loopback/main.cpp: the callbacks of a client whose nodes answer one another. The output
-- to std::cout is left out; the text of a uuid is a parameter.
pub mod Ends
pub mod Program
use Prim.Native.String.{String}
use Prim.Native.Char.{code}
use libgscale.Prelude.{
  ℕ, Bool, true, false, Option, none, some, List, [], ◌∷◌, ◌++◌, bytes_eq, ltb, length,
  if◌then◌else◌,
}
use libgscale.Words.{Bytes}
use libgscale.Core.{Uuid}
use libgscale.Node.{INode, get_alias}
use libgscale.Packet.{Packet, new_packet, set_payload, get_sender, get_receiver}
use libgscale.Group
use libgscale.Group.{Group}

abbrev pub codes : String → Bytes
codes String.[] = []
codes (String.◌∷◌ c s) = code c ∷ codes s

-- The multimap `node2message`, as its entries in the order in which they were inserted.
pub record Callbacks : Type 0 where
  pub node2message : List (Bytes × Bytes)

-- LoopbackCallbacks::LoopbackCallbacks
unfoldable pub new_callbacks : Callbacks
new_callbacks = record {
  node2message =
      (codes "Carol->Carlos", codes "Hello node!")
      ∷ (codes "Carlos->Carol", codes "Greetings back to you!")
      ∷ (codes "Carol->Carlos", [])
      ∷ (codes "Carol->", codes "Hello node!")
      ∷ (codes "->Carol", codes "Hi, howre u?")
      ∷ (codes "Carol->", codes "Fine thx")
      ∷ (codes "->Carol", [])
      ∷ (codes "Carlos->", codes "Ehlo!")
      ∷ (codes "->Carlos", codes "Oh, nice, a second node to communicate, howre u?")
      ∷ (codes "Carlos->", codes "Great, things seem to work")
      ∷ (codes "->Carlos", codes "good to hear")
      ∷ (codes "Carlos->", [])
      ∷ (codes "Carol->Carlos", codes "ure leaving? too bad")
      ∷ (codes "Carlos->Carol", codes "maybe im back soon, bye")
      ∷ (codes "Carol->Carlos", codes "cya")
      ∷ (codes "Carlos->Carol", [])
      ∷ (codes "->Carlos", codes "hope to cya soon")
      ∷ (codes "Carlos->", codes "me too, bye")
      ∷ (codes "->Carlos", [])
      ∷ (codes "Carol->", codes "ure leaving too, omfg shall i handle the work all alone now?")
      ∷ (
        codes "->Carol",
        codes "im sure another node will be online soon, cause everything is working so great ^^",
      )
      ∷ (codes "Carol->", codes "me hopes, cya")
      ∷ (codes "->Carol", codes "cu")
      ∷ [];
}

-- An element that std::multimap::find gives: its message, and the elements before and behind it.
-- Which one of several with the key it gives is left to the library.
abbrev pub Find : Type 0
Find = Bytes → List (Bytes × Bytes) → Option (List (Bytes × Bytes) × Bytes × List (Bytes × Bytes))

-- What happens to a node, with the nodes that the call is about.
pub data Event : Type 0 where
  read : Packet → Event
  available unavailable : INode → INode → Event

module _ (text : Uuid → Bytes) (find : Find) where
  -- An alias, or nothing if it is the text of the node's uuid.
  abbrev pub own_alias : INode → Bytes
  own_alias n =
      let alias = get_alias text n in if bytes_eq alias (text n.nodeuuid) then [] else alias

  abbrev pub key : INode → INode → Bytes
  key src dst = own_alias dst ++ codes "->" ++ own_alias src

  abbrev pub answer_with :
      INode
      → INode
      → Callbacks
      → Option (List (Bytes × Bytes) × Bytes × List (Bytes × Bytes))
      → Option Packet × Callbacks
  answer_with src dst c none = (none, c)
  answer_with src dst c (some (before, message, after)) =
      let left : Callbacks = record { node2message = before ++ after } in
      if ltb 0 (length message)
      then (some (set_payload (new_packet dst src) message).0, left)
      else (none, left)

  -- The packet that handleCommunication writes, if any, and the messages that are left.
  unfoldable pub reply : INode → INode → Callbacks → Option Packet × Callbacks
  reply src dst c = answer_with src dst c (find (key src dst) c.node2message)

  abbrev pub with_group : Callbacks → Option Group → Option (Group × Callbacks)
  with_group c none = none
  with_group c (some g) = some (g, c)

  abbrev pub written : Group → Option Packet × Callbacks → Option (Group × Callbacks)
  written g (none, c) = some (g, c)
  written g (some packet, c) = with_group c (Group.write packet g)

  -- LoopbackCallbacks::handleCommunication; `none` is undefined behaviour.
  unfoldable pub handle_communication :
      INode → INode → Group × Callbacks → Option (Group × Callbacks)
  unfolding reply
  handle_communication src dst (g, c) = written g (reply src dst c)

  -- LoopbackCallbacks::OnRead, OnNodeAvailable and OnNodeUnavailable
  unfoldable pub on_event : Event → Group × Callbacks → Option (Group × Callbacks)
  unfolding handle_communication
  on_event (read packet) s = handle_communication (get_sender packet) (get_receiver packet) s
  on_event (available src dst) s = handle_communication src dst s
  on_event (unavailable src dst) s = handle_communication src dst s

  abbrev pub and_then :
      (Group × Callbacks → Option (Group × Callbacks))
      → Option (Group × Callbacks)
      → Option (Group × Callbacks)
  and_then f none = none
  and_then f (some s) = f s

  -- What happens to the nodes, one thing after another.
  unfoldable pub talk : List Event → Group × Callbacks → Option (Group × Callbacks)
  unfolding on_event
  talk [] s = some s
  talk (e ∷ es) s = and_then (talk es) (on_event e s)
