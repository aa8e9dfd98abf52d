-- ===== src/NetworkChat.antt =====
-- example/tcp/main.cpp: the program. Its callbacks, which only print, are not called, since it connects
-- no node. The name of the type TCP and the service are parameters.
pub mod Rounds
use libgscale.Prelude.{ℕ, zero, suc, Option, none, some}
use libgscale.Words.{Bytes}
use libgscale.Group.{new_group}
use libgscale.Tcp
use libgscale.Tcp.{new_tcp}
use libgscale.Service.{tcp, Process, Ran, finished, undefined, and_then, run_worker}
use libgscale.Chat.{codes}
use libgscale.Chat.Program.{begun}

module _ (type_name : Bytes) (run : ℕ → Process → Ran) where
  -- `while(1)`, as far as a number of rounds; each has the same fuel.
  unfoldable pub rounds : ℕ → ℕ → Process → Ran
  rounds fuel zero w = finished w
  rounds fuel (suc n) w = and_then (rounds fuel n) (run_worker run fuel w)

  abbrev from : ℕ → ℕ → Option Process → Ran
  from fuel n none = undefined
  from fuel n (some w) = rounds fuel n w

  -- main
  unfoldable pub main : ℕ → ℕ → Ran
  unfolding new_group
  main fuel n = from fuel n (
      begun type_name (tcp (Tcp.initialize 0 0 new_tcp))
        (new_group 0 (codes "networkchat-example")))
