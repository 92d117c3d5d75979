-- ===== src/Programs/RequestMain.antt =====
-- examples/worker/request.c: a worker that is asked for the temperature of a gauge and terminated, all
-- through the interface of daemons. The request and the reply are the caller's: the program is given
-- their places.
use tecc.Base.{Option, none, some, if◌then◌else◌}
use tecc.Base.Int.{ℤ}
use tecc.Base.Heap.{Ptr}
use tecc.Base.Run.{Run, ok, ◌>>=◌}
use tecc.Worker.Defs.{is_zero}
use tecc.Daemon.Defs.{Object, run, rpc, terminate, wait_until_running, wait_until_terminated, done}

module _ {Sys Self : Type 0} where
  -- The error of the answer, which is printed.
  unfoldable pub analyzed : Option (ℤ × Object Sys Self) → Option (Option ℤ × Object Sys Self)
  analyzed none = none
  analyzed (some (error, o)) = some (some error, o)

  unfoldable pub query_gauge :
      Sys → Object Sys Self → Ptr → Ptr → Run (Option (Option ℤ × Object Sys Self))
  query_gauge asking o request reply = rpc asking o request reply >>= λ r. ok (analyzed r)

  -- A wait for a signal that nobody sets has no end.
  unfoldable pub query_running :
      Sys → Object Sys Self → Ptr → Ptr → Run (Option (Option ℤ × Object Sys Self))
  query_running asking o request reply = do
    up ← wait_until_running o
    if up then query_gauge asking o request reply else ok none

  -- Nothing is asked after a run that failed, and the program goes on.
  unfoldable pub check_run :
      Sys → Ptr → Ptr → Option (ℤ × Object Sys Self) → Run (Option (Option ℤ × Object Sys Self))
  check_run asking request reply none = ok none
  check_run asking request reply (some (error, o)) =
      if is_zero error then query_running asking o request reply else ok (some (none, o))

  -- After the termination.
  unfoldable pub end_request :
      Sys → Option ℤ → Option (ℤ × Object Sys Self) → Run (Option (Option ℤ × ℤ × Object Sys Self))
  end_request cleaning answer none = ok none
  end_request cleaning answer (some (error, o)) = do
    over ← wait_until_terminated o
    if over then (done cleaning o >>= λ o'. ok (some (answer, error, o'))) else ok none

  unfoldable pub terminate_request :
      Sys
      → Sys
      → Option (Option ℤ × Object Sys Self)
      → Run (Option (Option ℤ × ℤ × Object Sys Self))
  terminate_request ending cleaning none = ok none
  terminate_request ending cleaning (some (answer, o)) =
      terminate ending o >>= λ r. end_request cleaning answer r

  -- What is printed of the answer, what the program returns, and the worker then.
  unfoldable pub request_main :
      Sys
      → Sys
      → Sys
      → Sys
      → Object Sys Self
      → Ptr
      → Ptr
      → Run (Option (Option ℤ × ℤ × Object Sys Self))
  request_main running asking ending cleaning o request reply = do
    r ← run running o
    a ← check_run asking request reply r
    terminate_request ending cleaning a
