-- ===== src/Examples/Messages.antt =====
-- Runs of packet.cpp and exception.cpp.
use libgscale.Prelude.{◌≡◌, some, none, [], ◌∷◌, ◌++◌}
use libgscale.Node.Archive.{number}
use libgscale.Packet.{new_packet, save_packet, load_packet}
use libgscale.Packet.Meta.{load_packet-save_packet}
use libgscale.Exception.{Exception, characters, what, append}
use libgscale.Exception.Copies.{Streams, construct, copy, destroy, what_of, append_to, rethrow}
use libgscale.Exception.Rethrown.{rethrow-construct}
use libgscale.Examples.{alice, bob, letter}

load_packet-save_packet_example :
    load_packet (new_packet bob bob) (save_packet letter ++ number 5 ∷ [])
    ≡ some (
      record {
        sender = record bob { alias = alice.alias };
        receiver = record bob { alias = bob.alias };
        payload = [];
        type = 3;
      },
      number 5 ∷ [],
    )
unfolding new_packet
load_packet-save_packet_example =
    load_packet-save_packet letter (new_packet bob bob) (number 5 ∷ [])

abbrev failure : Exception
failure = record {
  line = 7;
  file = 102 ∷ [];
  code = 22;
  errn = 2;
  smessage = 104 ∷ 105 ∷ [];
  message = [];
}

-- One stream was made and deleted before, and one is alive.
abbrev heap : Streams
heap = none ∷ some (7 ∷ []) ∷ []

rethrow-construct_example :
    (what_of (construct failure heap).0 (construct failure heap).1 ≡ some (what failure))
    × (characters (what failure) ≡ none)
    × ((after : Streams) × (append_to
            (copy (construct failure heap).0)
            (33 ∷ [])
            (construct failure heap).1
          ≡ some after)
        × (what_of (construct failure heap).0 after ≡ some (what (append failure (33 ∷ []))))
        × (what_of (copy (construct failure heap).0) after
            ≡ some (what (append failure (33 ∷ [])))))
    × ((left : Streams) × (rethrow (construct failure heap).0 (construct failure heap).1
          ≡ some (copy (construct failure heap).0, left))
        × (what_of (copy (construct failure heap).0) left ≡ none)
        × (append_to (copy (construct failure heap).0) (33 ∷ []) left ≡ none)
        × (destroy (copy (construct failure heap).0) left ≡ none))
rethrow-construct_example = rethrow-construct failure heap (33 ∷ [])
