-- ===== src/Exception.antt =====
-- exception.cpp and exception.hpp. `none` as a result of a constructor stands for undefined
-- behaviour: std::string(NULL), or a read of `smessage` that was never set.
pub mod Message
pub mod Copies
pub mod Rethrown
use libgscale.Prelude.{
  ℕ, Bool, true, false, Option, none, some, List, [], ◌∷◌, ◌++◌, length, ltb, if◌then◌else◌,
}
use libgscale.Words.{Bytes}
use libgscale.Node.Archive.{◌>>=◌}

-- The std::stringstream behind `smessage` is the text that was written to it.
pub record Exception : Type 0 where
  pub line : ℕ
  pub file : Bytes
  pub code : ℕ
  pub errn : ℕ
  pub smessage : Bytes
  pub message : Bytes

-- What the constructors meet: `errno`, whether `new std::stringstream` succeeds, and the text that
-- strerror_r leaves in the buffer.
pub record Host : Type 0 where
  pub errno : ℕ
  pub has_memory : Bool
  pub strerror : ℕ → Bytes

-- Exception::line, file and code as setters.
unfoldable pub set_line : Exception → ℕ → Exception
set_line e line = record e { line = line }

unfoldable pub set_file : Exception → Bytes → Exception
set_file e file = record e { file = file }

-- Exception::file(const char *file)
unfoldable pub set_file_cstring : Exception → Option Bytes → Option Exception
unfolding set_file
set_file_cstring e file = do name ← file; some (set_file e name)

unfoldable pub set_code : Exception → ℕ → Exception
set_code e code = record e { code = code }

-- Exception::init. Without memory the pointer `smessage` stays unset and is read next.
unfoldable pub init : Host → Bytes → ℕ → Bytes → ℕ → Option Exception
unfolding set_line set_file set_code
init host message code file line =
    if host.has_memory
    then some (
        set_line
          (set_file
            (set_code
              (record {
                line = 0;
                file = [];
                code = 0;
                errn = host.errno;
                smessage = if ltb 0 (length message) then message else host.strerror host.errno;
                message = [];
              })
              code)
            file)
          line)
    else none

-- Exception::Exception(code, file, line); `file` is a char pointer, NULL if not given.
unfoldable pub exception_of_code : Host → ℕ → Option Bytes → ℕ → Option Exception
exception_of_code host code file line = do name ← file; init host [] code name line

-- Exception::Exception(const char *message, code, file, line)
unfoldable pub exception_of_cstring : Host → Option Bytes → ℕ → Option Bytes → ℕ → Option Exception
exception_of_cstring host message code file line = do
  text ← message
  name ← file
  init host text code name line

-- Exception::Exception(const std::string message, code, const std::string file, line)
unfoldable pub exception_of_string : Host → Bytes → ℕ → Bytes → ℕ → Option Exception
exception_of_string host message code file line = init host message code file line

-- operator<<, for a value that is written as the given text.
unfoldable pub append : Exception → Bytes → Exception
append e r = record e { smessage = e.smessage ++ r }

-- A pointer to the characters of a temporary std::string that was destroyed, and the text that it had.
pub data Pointer : Type 0 where
  dangling : Bytes → Pointer

-- Reading the characters; `none` is undefined behaviour.
unfoldable pub characters : Pointer → Option Bytes
characters (dangling text) = none

-- Exception::what; the string is a temporary of the return statement.
unfoldable pub what : Exception → Pointer
what e =
    dangling (e.smessage ++ (b' ' ∷ b'[' ∷ b' ' ∷ []) ++ e.message ++ (b' ' ∷ b']' ∷ b' ' ∷ []))

-- Exception::code, file and line as getters.
unfoldable pub get_code : Exception → ℕ
get_code e = e.code

unfoldable pub get_file : Exception → Bytes
get_file e = e.file

unfoldable pub get_line : Exception → ℕ
get_line e = e.line

-- Exception::get_native_error
unfoldable pub get_native_error : Exception → ℕ
get_native_error e = e.errn

-- Exception::get_error_code
unfoldable pub get_error_code : Exception → ℕ
get_error_code e = e.code
