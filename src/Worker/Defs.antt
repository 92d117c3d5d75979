-- ===== src/Worker/Defs.antt =====
-- tecc_worker.c and tecc_worker.h: a thread that takes messages from its queue. The handlers are the
-- default ones. What a callback sends or registers is a call of its own.
use tecc.Base.{ℕ, zero, suc, Bool, true, false, ◌&&◌, Option, none, some, ◌==◌, if◌then◌else◌}
use tecc.Base.Int.{ℤ, pos, negsuc}
use tecc.Base.Heap.{Ptr, null, load, fill}
use tecc.Base.Run.{Run, ok, out_of_fuel, ◌>>=◌}
use tecc.Map.Defs.{Key, Map, put_value}
use tecc.Map.Defs as MapDefs
use tecc.Queue.Defs.{Queue, push, pop}
use tecc.Queue.Defs as QueueDefs
use tecc.Worker.Messages.{Store, Code, rpc_init, as_rpc, dispatch}

-- Code that is called when the thread starts or exits; `none` is NULL.
abbrev pub Hook : Type 0 → Type 0
Hook World = Option (Store World → Run (ℤ × Store World))

-- `joinable` is TecThread_ok of the thread.
pub record Worker (World : Type 0) : Type 0 where
  pub hash_table_size : ℕ
  pub error : ℤ
  pub sig_running : Bool
  pub sig_terminated : Bool
  pub queue : Queue
  pub callbacks : Map
  pub on_init : Hook World
  pub on_exit : Hook World
  pub joinable : Bool
  pub store : Store World

-- What the system grants to TecWorker_init: the signals, the queue, the block of the table, the
-- mutex.
pub record Granted : Type 0 where
  pub sig_running : Bool
  pub sig_terminated : Bool
  pub queue : Bool
  pub callbacks : Bool
  pub lock : Bool

unfoldable pub is_zero : ℤ → Bool
is_zero (pos n) = n == 0
is_zero (negsuc n) = false

module _ {World : Type 0} where
  -- Whether a worker was made, and the worker. What comes after a failure is not done.
  unfoldable pub init : Granted → Worker World → ℕ → Bool × Worker World
  init g w size =
      let signals = g.sig_running && g.sig_terminated in
      let table = MapDefs.init w.callbacks g.callbacks size in
      (
        signals && g.queue && table.0 && g.lock,
        record w {
          hash_table_size = size;
          error = pos 0;
          sig_running = if g.sig_running then false else w.sig_running;
          sig_terminated = if signals then false else w.sig_terminated;
          queue = if signals && g.queue then QueueDefs.init w.queue else w.queue;
          callbacks = if signals && g.queue then table.1 else w.callbacks;
          on_init = none;
          on_exit = none;
        },
      )

  -- `p` is what malloc returns for a new node of the table.
  unfoldable pub register : Worker World → Ptr → Key → Ptr → Run (Worker World)
  register w p func_name callback = do
    r ← put_value w.callbacks p func_name callback
    ok (record w { callbacks = r.1 })

  -- `p` is what malloc returns for a node of the queue.
  unfoldable pub send : Worker World → Ptr → Ptr → Run (Worker World)
  send w p msg = do q ← push w.queue p msg; ok (record w { queue = q })

  unfoldable pub call_hook : Hook World → Worker World → Run (Worker World)
  call_hook none w = ok w
  call_hook (some f) w =
      if is_zero w.error
      then (f w.store >>= λ r. ok (record w { error = r.0; store = r.1 }))
      else ok w

  -- The start of the thread, until `sig_running` is set.
  unfoldable pub initialize : Worker World → Run (Worker World)
  initialize w = do w' ← call_hook w.on_init w; ok (record w' { sig_running = true })

  -- The end of the thread.
  unfoldable pub leave : Worker World → Run (Worker World)
  leave w = do w' ← call_hook w.on_exit w; ok (record w' { sig_terminated = true })

  -- The message that was taken is dispatched, if it is none but NULL.
  unfoldable pub process : Code World → Worker World → Ptr → Run (Worker World)
  process code w msg =
      if msg == null
      then ok w
      else do s ← dispatch code w.callbacks w.store msg; ok (record w { store = s })

  unfoldable pub taken :
      Code World → Worker World → Option (ℕ × Queue) → Run (Option (Ptr × Worker World))
  taken code w none = ok none
  taken code w (some (msg, q)) = do
    w' ← process code (record w { queue = q }) msg
    ok (some (msg, w'))

  -- One turn of the loop: the message and the worker after it, or `none` while the queue is empty.
  unfoldable pub turn : Code World → Worker World → Run (Option (Ptr × Worker World))
  turn code w = do r ← pop w.queue; taken code w r

  -- After a turn: NULL ends the loop, and so does an empty queue that no one will fill.
  unfoldable pub proceed :
      (Worker World → Run (Option (Worker World)))
      → Option (Ptr × Worker World)
      → Run (Option (Worker World))
  proceed next none = ok none
  proceed next (some (msg, w)) = if msg == null then ok (some w) else next w

  -- The loop where nobody else sends; `none` where it waits for ever. `fuel` bounds the turns.
  unfoldable pub message_loop : ℕ → Code World → Worker World → Run (Option (Worker World))
  message_loop zero code w = out_of_fuel
  message_loop (suc fuel) code w = do r ← turn code w; proceed (λ w'. message_loop fuel code w') r

  -- The thread leaves after its loop.
  unfoldable pub leave_after : Option (Worker World) → Run (Option (Worker World))
  leave_after none = ok none
  leave_after (some w) = do w' ← leave w; ok (some w')

  -- The thread from the loop on; it is passed over after a failed initialization.
  unfoldable pub finish : ℕ → Code World → Worker World → Run (Option (Worker World))
  finish fuel code w =
      if is_zero w.error
      then (message_loop fuel code w >>= λ r. leave_after r)
      else leave_after (some w)

  unfoldable pub worker_func : ℕ → Code World → Worker World → Run (Option (Worker World))
  worker_func fuel code w = do w' ← initialize w; finish fuel code w'

  -- The end of TecWorker_run_: the thread is joined if it failed to initialize.
  unfoldable pub joined_on_error : Worker World → Run (ℤ × Worker World)
  joined_on_error w =
      if is_zero w.error
      then ok (w.error, w)
      else (leave w >>= λ w'. ok (w'.error, record w' { joinable = false }))

  -- TecWorker_run_, from what the lock and the creation of the thread return.
  unfoldable pub run : ℤ → ℤ → Worker World → Run (ℤ × Worker World)
  run locked created w =
      if is_zero locked
      then (if is_zero created
          then (initialize (record w { joinable = true }) >>= λ w'. joined_on_error w')
          else ok (created, record w { joinable = false }))
      else ok (locked, w)

  -- The end of TecWorker_terminate_, from what the thread left; `none` where it waits for ever.
  unfoldable pub joined : Option (Worker World) → Option (ℤ × Worker World)
  joined none = none
  joined (some w) = some (w.error, record w { joinable = false })

  -- The wait for `sig_terminated`: the thread goes on to its end.
  unfoldable pub wait_terminated : ℕ → Code World → Worker World → Run (Option (Worker World))
  wait_terminated fuel code w = if w.sig_terminated then ok (some w) else finish fuel code w

  -- TecWorker_terminate_ of a worker whose thread runs its loop or failed to initialize. `p` is
  -- what malloc returns.
  unfoldable pub terminate : ℕ → Code World → Worker World → Ptr → Run (Option (ℤ × Worker World))
  terminate fuel code w p = do w' ← send w p null; r ← wait_terminated fuel code w'; ok (joined r)

  -- TecWorker_rpc_ until it waits: `p` and `sig` are the places of its variables, `node` is what
  -- malloc returns for a node of the queue.
  unfoldable pub ask : Worker World → Ptr → Ptr → Ptr → Ptr → Ptr → Run (Worker World)
  ask w p sig node request reply = do
    g ← fill w.store.signals sig false
    h ← fill w.store.msgs p (rpc_init request reply sig)
    send (record w { store = record (w.store) { msgs = h; signals = g } }) node p

  -- What TecWorker_rpc_ returns when `sig_ready` is set.
  unfoldable pub result : Worker World → Ptr → Run ℤ
  result w p = do m ← load w.store.msgs p; r ← as_rpc m; ok r.error

  -- The release of the queue and the table; the thread has ended. `fuel` bounds the nodes.
  unfoldable pub done : ℕ → Worker World → Run (Worker World)
  done fuel w = do
    q ← QueueDefs.done fuel w.queue
    m ← MapDefs.done w.callbacks
    ok (record w { queue = q; callbacks = m; joinable = false })
