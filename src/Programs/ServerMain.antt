-- ===== src/Programs/ServerMain.antt =====
-- examples/socket/server.c: a service that is run until the user quits, and is terminated then, all
-- through the interface of daemons. `release` is the end of the server, TecTCPServer_done, on what
-- stands behind the daemon; the ends of the other objects, which the daemon does not reach, are left
-- to their parts.
use tecc.Base.{Bool, Option, none, some, if◌then◌else◌}
use tecc.Base.Int.{ℤ}
use tecc.Base.Run.{Run, ok, ◌>>=◌}
use tecc.Worker.Defs.{is_zero}
use tecc.Daemon.Defs.{Object, run, terminate, wait_until_terminated, done}

module _ {Sys Self : Type 0} (release : Self → Run Self) where
  -- The server is released before the daemon.
  unfoldable pub clean_up : Sys → ℤ → Object Sys Self → Run (Option (ℤ × Object Sys Self))
  clean_up cleaning error o = do
    s ← release o.self
    o' ← done cleaning (record o { self = s })
    ok (some (error, o'))

  -- What the termination returns is not looked at. A wait for a signal that nobody sets has no end.
  unfoldable pub end_server :
      Sys → ℤ → Option (ℤ × Object Sys Self) → Run (Option (ℤ × Object Sys Self))
  end_server cleaning error none = ok none
  end_server cleaning error (some (_, o)) = do
    over ← wait_until_terminated o
    if over then clean_up cleaning error o else ok none

  -- `quit` says whether the user ever does.
  unfoldable pub serve : Bool → Sys → Sys → ℤ → Object Sys Self → Run (Option (ℤ × Object Sys Self))
  serve quit ending cleaning error o =
      if quit then (terminate ending o >>= λ r. end_server cleaning error r) else ok none

  unfoldable pub check_start :
      Bool → Sys → Sys → Option (ℤ × Object Sys Self) → Run (Option (ℤ × Object Sys Self))
  check_start quit ending cleaning none = ok none
  check_start quit ending cleaning (some (error, o)) =
      if is_zero error then serve quit ending cleaning error o else clean_up cleaning error o

  -- What the program returns, and the object then.
  unfoldable pub server_main :
      Bool → Sys → Sys → Sys → Object Sys Self → Run (Option (ℤ × Object Sys Self))
  server_main quit running ending cleaning o = do
    r ← run running o
    check_start quit ending cleaning r
