-- ===== src/Programs/Ends.antt =====
-- What the program of examples/worker/worker.c makes of its worker.
use tecc.Base.{
  if_true, ℕ, ◌<◌, ◌≡◌, refl, ◌∙◌, true, false, Option, none, some, [], ◌∷◌, arith, ◌==◌,
}
use tecc.Base.Int.{ℤ, pos}
use tecc.Base.Heap.{Ptr, null, IsFresh, given}
use tecc.Base.Run.{Run, ok, ◌>>=◌, Returns}
use tecc.Map.Defs as MapDefs
use tecc.Map.Table.{Buckets, IsTable}
use tecc.Map.Clearing.{done-empty}
use tecc.Queue.Defs.{Queue, push}
use tecc.Queue.Defs as QueueDefs
use tecc.Queue.Line.{IsQueue, owns}
use tecc.Queue.Methods.{push-IsQueue, done-freed}
use tecc.Worker.Messages.{Store, Code}
use tecc.Worker.Defs.{
  Worker, is_zero, send, call_hook, initialize, leave, joined_on_error, terminate,
}
use tecc.Worker.Defs as Defs
use tecc.Worker.Serving.{has_null, dispatch_all, ended, terminate-dispatch_all}
use tecc.Worker.Daemons.{Answers, functions}
use tecc.Daemon.Defs.{Daemon, Object, returned}
use tecc.Daemon.Defs as DaemonDefs
use tecc.Programs.WorkerMain.{Script, end_worker, use_worker, check_run, worker_main}

-- The system grants the lock and the thread; the nodes of the messages stand at `a`, `b` and `c`.
abbrev pub granted : ℕ → Ptr → Answers
granted fuel p = record {
  locked = pos 0;
  created = pos 0;
  node = p;
  rpc = null;
  sig_ready = null;
  fuel = fuel;
}

abbrev pub script : ℕ → Ptr → Ptr → Ptr → Script Answers
script fuel a b c = record {
  running = granted fuel null;
  first = granted fuel a;
  second = granted fuel b;
  ending = granted fuel c;
  cleaning = granted fuel null;
}

module _ {World : Type 0} (code : Code World) where
  abbrev pub behind : Worker World → Object Answers (Worker World)
  behind w = record { daemon = functions code; self = w }

  abbrev pub cleaned : Worker World → Object Answers (Worker World)
  cleaned w = record { daemon = record (functions code) { done = none }; self = w }

  pub run_steps :
      (w : Worker World)
      → is_zero w.error ≡ true
      → w.on_init ≡ none
      → Defs.run (pos 0) (pos 0) w ≡ ok (w.error, record w { joinable = true; sig_running = true })
  unfolding Defs.run is_zero initialize call_hook joined_on_error
  run_steps w fine no_hook = rw (no_hook, fine)

  send_steps :
      (w : Worker World) (p msg : Ptr) (q : Queue)
      → push w.queue p msg ≡ ok q
      → send w p msg ≡ ok (record w { queue = q })
  unfolding send
  send_steps w p msg q run = rw run

  ended_steps :
      (w : Worker World) (q : Queue) (s : Store World) (f : Store World → Run (ℤ × Store World))
      {err : ℤ} {s' : Store World}
      → is_zero w.error ≡ true
      → w.on_exit ≡ some f
      → f s ≡ ok (err, s')
      → ended code w q s
        ≡ ok (
            some (
              err,
              record w {
                error = err;
                sig_terminated = true;
                queue = q;
                joinable = false;
                store = s';
              },
            ))
  unfolding ended leave call_hook
  ended_steps w q s f fine hook exits = rw (hook, fine, exits)

  pub done_steps :
      (fuel : ℕ) (w : Worker World) (q : Queue) (m : MapDefs.Map)
      → QueueDefs.done fuel w.queue ≡ ok q
      → MapDefs.done w.callbacks ≡ ok m
      → Defs.done fuel w ≡ ok (record w { queue = q; callbacks = m; joinable = false })
  unfolding Defs.done
  done_steps fuel w q m run run' = rw (run, run')

  main_steps :
      (fuel : ℕ) (a b c p str : Ptr) (w w₁ : Worker World) (err : ℤ)
      → Defs.run (pos 0) (pos 0) w ≡ ok (err, w₁)
      → is_zero err ≡ true
      → worker_main (script fuel a b c) (behind w) p str
        ≡ use_worker (script fuel a b c) (behind w₁) p str
  unfolding worker_main check_run DaemonDefs.run returned functions given
  main_steps fuel a b c p str w w₁ err run fine = rw (run, fine)

  end_steps :
      (fuel : ℕ) (a b c : Ptr) (w₄ w₅ : Worker World) (err : ℤ)
      → w₄.sig_terminated ≡ true
      → Defs.done fuel w₄ ≡ ok w₅
      → end_worker (script fuel a b c) (some (err, behind w₄)) ≡ ok (some (err, cleaned w₅))
  unfolding end_worker DaemonDefs.wait_until_terminated DaemonDefs.done functions given
  end_steps fuel a b c w₄ w₅ err over clean = if_true w₄.sig_terminated _ _ over ∙ rw clean

  messages_steps :
      (fuel : ℕ) (a b c p str : Ptr) (w₁ w₂ w₃ w₄ : Worker World) (err : ℤ)
      → w₁.sig_running ≡ true
      → send w₁ a p ≡ ok w₂
      → send w₂ b str ≡ ok w₃
      → terminate fuel code w₃ c ≡ ok (some (err, w₄))
      → use_worker (script fuel a b c) (behind w₁) p str
        ≡ end_worker (script fuel a b c) (some (err, behind w₄))
  unfolding use_worker DaemonDefs.wait_until_running DaemonDefs.send DaemonDefs.terminate returned
      functions given
  messages_steps fuel a b c p str w₁ w₂ w₃ w₄ err up first second ends =
      if_true w₁.sig_running _ _ up ∙ rw (first, second, ends)

  -- The program on a worker as its registrations leave it, without an error, with an empty queue, a
  -- well-formed table of callbacks, no `on_init` and an `on_exit` that ends, given the lock, the
  -- thread, two messages that are none but NULL, and three different fresh nodes for them and the
  -- NULL, where dispatching the two ends, and more than two units of fuel: it ends, returns what
  -- `on_exit` returns, and the two messages were dispatched in the order of the calls, before
  -- `on_exit` was called. The thread has ended, no node of the queue or the table is left, and
  -- TecDaemon_done is forgotten.
  pub worker_main-dispatch_all :
      (fuel : ℕ) (w : Worker World) {cells : Buckets} {a b c : Ptr} (p str : Ptr)
      (f : Store World → Run (ℤ × Store World)) {err : ℤ} {s s' : Store World}
      → 2 < fuel
      → is_zero w.error ≡ true
      → w.sig_terminated ≡ false
      → w.on_init ≡ none
      → w.on_exit ≡ some f
      → IsQueue w.queue []
      → IsTable w.callbacks cells
      → IsFresh w.queue.heap a
      → IsFresh w.queue.heap b
      → IsFresh w.queue.heap c
      → (b == a) ≡ false
      → (c == a) ≡ false
      → (c == b) ≡ false
      → (p == null) ≡ false
      → (str == null) ≡ false
      → dispatch_all code w.callbacks w.store (p ∷ str ∷ []) ≡ ok s
      → f s ≡ ok (err, s')
      → Returns (worker_main (script fuel a b c) (behind w) p str) λ r.
        (w' : Worker World) × (r ≡ some (err, cleaned w'))
        × (w'.store ≡ s')
        × (w'.sig_terminated ≡ true)
        × ((n : Ptr) → w'.queue.heap n ≡ none)
        × ((n : Ptr) → w'.callbacks.heap n ≡ none)
  unfolding owns has_null
  worker_main-dispatch_all fuel w {a} {b} {c} p str f {err} {s} {s'} enough fine on no_hook hook
        empty table fresh₁ fresh₂ fresh₃ ba ca cb filled₁ filled₂ run exits =
      let w₁ = record w { joinable = true; sig_running = true } in
      let (q₁, pushed₁, t₁) = push-IsQueue p empty fresh₁ in
      let fresh₂' : IsFresh q₁.heap b = record {
        not_null = fresh₂.not_null;
        unused = t₁.owned b (ground arith);
      } in
      let (q₂, pushed₂, t₂) = push-IsQueue str t₁ fresh₂' in
      let fresh₃' : IsFresh q₂.heap c = record {
        not_null = fresh₃.not_null;
        unused = t₂.owned c (ground arith);
      } in
      let w₂ = record w₁ { queue = q₁ } in
      let w₃ = record w₁ { queue = q₂ } in
      let (q₃, t₃, ends) =
        terminate-dispatch_all code fuel w₃ t₂ (ground arith) fresh₃' enough fine on in
      let w₄ = record w₃ {
        error = err;
        sig_terminated = true;
        queue = q₃;
        joinable = false;
        store = s';
      } in
      let (q₄, freed, no_node) = done-freed fuel t₃ (omega arith) in
      let (m, emptied, (no_cell, _, _, _)) = done-empty table in
      let w₅ = record w₄ { queue = q₄; callbacks = m } in
      (
        some (err, cleaned w₅),
        main_steps fuel a b c p str w w₁ w.error (run_steps w fine no_hook) fine
            ∙ messages_steps fuel a b c p str w₁ w₂ w₃ w₄ err refl (send_steps w₁ a p q₁ pushed₁)
                (send_steps w₂ b str q₂ pushed₂)
                (ends
                  ∙ after_dispatch (ended code w₃ q₃) run (ended_steps w₃ q₃ s f fine hook exits))
            ∙ end_steps fuel a b c w₄ w₅ err refl (done_steps fuel w₄ q₄ m freed emptied),
        (w₅, refl, refl, refl, no_node, no_cell),
      )
    where
      after_dispatch :
          {r : Run (Store World)} {s : Store World}
          (next : Store World → Run (Option (ℤ × Worker World))) {o : Option (ℤ × Worker World)}
          → r ≡ ok s
          → next s ≡ ok o
          → (r >>= next) ≡ ok o
      after_dispatch next e e' = rw e e'
