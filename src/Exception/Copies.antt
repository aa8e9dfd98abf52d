-- ===== src/Exception/Copies.antt =====
-- exception.cpp: exceptions on the heap. The std::stringstream is an object of its own, to which an
-- exception has a pointer; the copy of an exception that `throw` makes is memberwise.
use libgscale.Prelude.{ℕ, Option, none, some, List, [], ◌∷◌, ◌++◌, length, get_or, set}
use libgscale.Words.{Bytes}
use libgscale.Exception.{Exception, Pointer, what}
use libgscale.Node.Archive.{◌>>=◌}

-- The streams that were made, by address; a deleted one is `none`.
abbrev pub Streams : Type 0
Streams = List (Option Bytes)

-- An exception's object, with the address of its stream. The `smessage` of the fields is not used.
pub record Object : Type 0 where
  pub fields : Exception
  pub smessage : ℕ

-- `new std::stringstream`, with the text that a constructor wrote to it.
unfoldable pub construct : Exception → Streams → Object × Streams
construct e heap = (record { fields = e; smessage = length heap }, heap ++ some e.smessage ∷ [])

-- The implicit copy constructor.
unfoldable pub copy : Object → Object
copy x = record { fields = x.fields; smessage = x.smessage }

-- The text of a stream; `none` is a read of one that was deleted.
abbrev pub stream_at : Streams → ℕ → Option Bytes
stream_at heap a = get_or heap a none

-- Exception::~Exception; `none` is a second deletion.
unfoldable pub destroy : Object → Streams → Option Streams
destroy x heap = elim (stream_at heap x.smessage) [
  | none ↦ none
  | some text ↦ some (set heap x.smessage none)
]

-- Exception::what and operator<<, through the pointer; `none` is a read of a deleted stream.
unfoldable pub what_of : Object → Streams → Option Pointer
unfolding what
what_of x heap = elim (stream_at heap x.smessage) [
  | none ↦ none
  | some text ↦ some (what (record x.fields { smessage = text }))
]

unfoldable pub append_to : Object → Bytes → Streams → Option Streams
append_to x r heap = elim (stream_at heap x.smessage) [
  | none ↦ none
  | some text ↦ some (set heap x.smessage (some (text ++ r)))
]

-- `catch(GScale::Exception &g){ throw g; }`: the caller gets a copy, and the caught object is
-- destroyed when the handler is left.
unfoldable pub rethrow : Object → Streams → Option (Object × Streams)
unfolding copy destroy
rethrow x heap = do left ← destroy x heap; some (copy x, left)
