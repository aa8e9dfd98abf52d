-- ===== src/Exception/Rethrown.antt =====
-- exception.cpp: what is left of an exception that was thrown on.
use libgscale.Prelude.{
  ℕ, zero, suc, ◌<◌, ◌≡◌, refl, Option, none, some, [], ◌∷◌, ◌++◌, arith, length, length-append,
  get_or, set,
}
use libgscale.Words.{Bytes}
use libgscale.Exception.{Exception, characters, what, append}
use libgscale.Exception.Copies.{Streams, construct, copy, destroy, what_of, append_to, rethrow}

get_or-append :
    (heap : Streams) (text : Option Bytes) → get_or (heap ++ text ∷ []) (length heap) none ≡ text
get_or-append [] text = refl
get_or-append (x ∷ heap) text = get_or-append heap text

get_or-set :
    (heap : Streams) (a : ℕ) (text : Option Bytes)
    → a < length heap
    → get_or (set heap a text) a none ≡ text
get_or-set [] a text h = absurd (omega arith)
get_or-set (x ∷ heap) zero text h = refl
get_or-set (x ∷ heap) (suc a) text h = get_or-set heap a text (omega arith)

-- An exception and the copy of it that `throw` makes write to one stream: what is inserted through
-- the copy is in the string that `what` makes of either. That string is destroyed as `what` returns, so
-- reading it is undefined. After an exception was caught and thrown on, calling `what` of the one that
-- the caller gets is itself undefined, and so is inserting into it, and destroying it.
pub rethrow-construct :
    (e : Exception) (heap : Streams) (r : Bytes)
    → let x = (construct e heap).0 in
      let made = (construct e heap).1 in
      (what_of x made ≡ some (what e))
      × (characters (what e) ≡ none)
      × ((after : Streams) × (append_to (copy x) r made ≡ some after)
          × (what_of x after ≡ some (what (append e r)))
          × (what_of (copy x) after ≡ some (what (append e r))))
      × ((left : Streams) × (rethrow x made ≡ some (copy x, left))
          × (what_of (copy x) left ≡ none)
          × (append_to (copy x) r left ≡ none)
          × (destroy (copy x) left ≡ none))
unfolding construct copy what_of append_to rethrow what append characters
rethrow-construct e heap r =
    let made : Streams = heap ++ some e.smessage ∷ [] in
    let a = length heap in
    let inside : a < length made = omega (arith, length-append heap (some e.smessage ∷ [])) in
    let found : get_or made a none ≡ some e.smessage = get_or-append heap (some e.smessage) in
    let after : Streams = set made a (some (e.smessage ++ r)) in
    let left : Streams = set made a none in
    let longer : get_or after a none ≡ some (e.smessage ++ r) =
      get_or-set made a (some (e.smessage ++ r)) inside in
    let gone : get_or left a none ≡ none = get_or-set made a none inside in
    (
      rw (what_of, found) refl,
      refl,
      (after, rw (append_to, found) refl, rw (what_of, longer) refl, rw (what_of, longer) refl),
      (
        left,
        rw (rethrow, destroy, found) refl,
        rw (what_of, gone) refl,
        rw (append_to, gone) refl,
        rw (destroy, gone) refl,
      ),
    )
