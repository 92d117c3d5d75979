-- ===== src/Worker/Starting.antt =====
-- TecWorker_run_ where the thread cannot initialize.
use tecc.Base.{◌≡◌, refl, true, false, Option, none, some}
use tecc.Base.Int.{ℤ, pos}
use tecc.Base.Run.{Run, ok, ◌>>=◌}
use tecc.Worker.Messages.{Store}
use tecc.Worker.Defs.{Worker, is_zero, call_hook, initialize, leave, joined_on_error, run}

module _ {World : Type 0} where
  passed_over :
      (w : Worker World)
      → is_zero w.error ≡ false
      → leave w ≡ ok (record w { sig_terminated = true })
  unfolding leave call_hook
  passed_over w e = over w.on_exit
    where
      over :
          (h : Option (Store World → Run (ℤ × Store World)))
          → (call_hook h w >>= λ w'. ok (record w' { sig_terminated = true }))
            ≡ ok (record w { sig_terminated = true })
      over none = refl
      over (some f) = rw e

  initialize_steps :
      (w : Worker World) (f : Store World → Run (ℤ × Store World)) {err : ℤ} {s : Store World}
      → is_zero w.error ≡ true
      → w.on_init ≡ some f
      → f w.store ≡ ok (err, s)
      → initialize w ≡ ok (record w { error = err; store = s; sig_running = true })
  unfolding initialize call_hook
  initialize_steps w f fine hook fails = rw (hook, fine, fails)

  joined_steps :
      (w : Worker World)
      → is_zero w.error ≡ false
      → joined_on_error w ≡ ok (w.error, record w { sig_terminated = true; joinable = false })
  unfolding joined_on_error
  joined_steps w bad = rw (bad, passed_over w bad)

  -- TecWorker_run_ of a worker whose on_init returns an error, with the lock and the thread granted, returns that
  -- error: the thread has ended and was joined, both signals are set, and neither a message was
  -- taken nor on_exit called.
  pub run-failed :
      (w : Worker World) (f : Store World → Run (ℤ × Store World)) {err : ℤ} {s : Store World}
      → is_zero w.error ≡ true
      → w.on_init ≡ some f
      → f w.store ≡ ok (err, s)
      → is_zero err ≡ false
      → run (pos 0) (pos 0) w
        ≡ ok (
          err,
          record w {
            error = err;
            store = s;
            sig_running = true;
            sig_terminated = true;
            joinable = false;
          },
        )
  unfolding run is_zero
  run-failed w f {err} {s} fine hook fails bad =
      let started = record w { error = err; store = s; sig_running = true; joinable = true } in
      rw (
        initialize_steps (record w { joinable = true }) f fine hook fails,
        joined_steps started bad,
      )
