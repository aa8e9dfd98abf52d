-- ===== src/Exception/Message.antt =====
-- exception.cpp: what an exception reports.
use mathlib.Core.List.{append_assoc, append-nil}
use libgscale.Prelude.{
  ℕ, ◌<◌, ◌≡◌, refl, ap, sym, ◌∙◌, true, none, some, List, [], ◌∷◌, ◌++◌, arith, length,
}
use libgscale.Words.{Bytes}
use libgscale.Exception.{
  Exception, Host, init, exception_of_code, exception_of_string, exception_of_cstring, append, what,
  dangling, get_error_code, get_native_error,
}

-- A sequence of insertions by `<<`.
abbrev pub append_all : Exception → List Bytes → Exception
append_all e [] = e
append_all e (r ∷ rs) = append_all (append e r) rs

abbrev pub concat : List Bytes → Bytes
concat [] = []
concat (r ∷ rs) = r ++ concat rs

abbrev pub suffix : Bytes
suffix = b' ' ∷ b'[' ∷ b' ' ∷ b' ' ∷ b']' ∷ b' ' ∷ []

append_all_lem :
    (e : Exception) (rs : List Bytes)
    → append_all e rs ≡ record e { smessage = e.smessage ++ concat rs }
unfolding append
append_all_lem e [] = ap (λ s. record e { smessage = s }) (sym (append-nil e.smessage))
append_all_lem e (r ∷ rs) =
    append_all_lem (append e r) rs
    ∙ ap (λ s. record e { smessage = s }) (append_assoc e.smessage r (concat rs))

what_lem : (e : Exception) → e.message ≡ [] → what e ≡ dangling (e.smessage ++ suffix)
unfolding what
what_lem e h = rw (h, append-nil) (ap dangling (append_assoc e.smessage _ _))

init_lem :
    (host : Host) (m : Bytes) (code : ℕ) (file : Bytes) (line : ℕ) (e : Exception)
    → 0 < length m
    → exception_of_string host m code file line ≡ some e
    → e ≡ record {
      line = line;
      file = file;
      code = code;
      errn = host.errno;
      smessage = m;
      message = [];
    }
unfolding exception_of_string init
init_lem host m code file line e h k = ground arith

-- With memory and a non-empty message, the string that `what` makes of an exception made from a string
-- has the message, then all that was inserted by `<<` in order, then an empty bracket; its code, errno, file and line
-- are those of the construction.
what-append_all :
    (host : Host) (m : Bytes) (code : ℕ) (file : Bytes) (line : ℕ) (rs : List Bytes) (e : Exception)
    → 0 < length m
    → exception_of_string host m code file line ≡ some e
    → (what (append_all e rs) ≡ dangling ((m ++ concat rs) ++ suffix))
      × (get_error_code (append_all e rs) ≡ code)
      × (get_native_error (append_all e rs) ≡ host.errno)
      × ((append_all e rs).file ≡ file)
      × ((append_all e rs).line ≡ line)
unfolding get_error_code get_native_error
what-append_all host m code file line rs e h k =
    rw (append_all_lem e rs, init_lem host m code file line e h k)
      (what_lem _ refl, refl, refl, refl, refl)

-- Without a file name, as in `Exception()`, the construction from a code is undefined for every
-- code, line and host; with one and with memory it has the text of errno and is otherwise as
-- given.
exception_of_code_cases :
    (host : Host) (code line : ℕ) (file : Bytes)
    → host.has_memory ≡ true
    → (exception_of_code host code none line ≡ none)
      × (exception_of_cstring host none code (some file) line ≡ none)
      × (exception_of_code host code (some file) line
          ≡ some (record {
            line = line;
            file = file;
            code = code;
            errn = host.errno;
            smessage = host.strerror host.errno;
            message = [];
          }))
unfolding exception_of_code exception_of_cstring init
exception_of_code_cases host code line file h = ground arith
