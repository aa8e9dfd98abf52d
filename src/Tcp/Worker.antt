-- ===== src/Tcp/Worker.antt =====
-- tcp.cpp, TCP::Worker.
use libgscale.Prelude.{Bool, true, false, [], ◌∷◌, if◌then◌else◌}
use libgscale.Core.{Core}
use libgscale.Tcp.{Tcp, Attempt, begin, receiving, waiting, bind_or_connect}

-- How Worker ends: behind io_service::poll, or by the exception of a socket.
pub data Worked : Type 0 where
  polled failed : Tcp → Worked

-- How io_service::poll of the back end's service ends: with the back end, by the exception of one of
-- the handlers that it runs, in the undefined behaviour of one, or not at all, as one does not return.
pub data Poll : Type 0 where
  served : Tcp → Poll
  thrown undefined endless : Poll

-- Opening the multicast sockets, and whether that came to its end: `opened_v4` and `opened_v6` say
-- whether all goes well up to the first receive, and from there to the second.
abbrev pub open_sockets : Bool → Bool → Tcp → Tcp × Bool
open_sockets false opened_v6 t = (t, false)
open_sockets true false t = (begin (receiving false ∷ []) t, false)
open_sockets true true t = (begin (receiving false ∷ receiving true ∷ []) t, true)

abbrev pub start_worker : Core → Attempt → (Tcp → Tcp) → Tcp × Bool → Worked
start_worker core a poll (t, false) = failed t
start_worker core a poll (t, true) =
    polled (poll (begin (waiting ∷ []) (record (bind_or_connect core a t) { initialized = true })))

-- TCP::Worker; `poll` is io_service::poll, where that returns.
unfoldable pub worker : Core → Bool → Bool → Attempt → (Tcp → Tcp) → Tcp → Worked
worker core opened_v4 opened_v6 a poll t =
    if t.initialized
    then polled (poll t)
    else start_worker core a poll (open_sockets opened_v4 opened_v6 t)
