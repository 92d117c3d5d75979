-- ===== src/Worker/Order.antt =====
-- A worker in a program: its thread goes through its phases, while other threads send messages,
-- register callbacks, and ask it to terminate.
use mathlib.Core.Path.{subst}
use tecc.Base.{
  ℕ, ◌≡◌, inl, inr, refl, sym, ap, ◌∙◌, true, false, none, some, List, [], ◌∷◌, ◌++◌, ◌==◌,
  if◌then◌else◌, Bool-cases, ==_iff, arith,
}
use tecc.Base.Heap.{Ptr, null, IsFresh}
use tecc.Base.Run.{ok}
use tecc.Map.Defs.{Key}
use tecc.Queue.Defs.{Queue}
use tecc.Queue.Calls.{Calls, begin, pushed, popped, Fifo, Calls-Fifo}
use tecc.Worker.Messages.{Code}
use tecc.Worker.Defs.{Worker, Hook, Granted, is_zero, init, register, send, initialize, leave, turn}
use tecc.Worker.Serving.{has_null}
use tecc.Worker.Steps.{initialize_lem, leave_lem, register_lem, send_lem, turn_lem, init_lem}

pub data Phase : Type 0 where
  starting looping leaving over : Phase

-- Where the thread goes after its initialization, and after a turn of the loop.
abbrev pub after_start : {World : Type 0} → Worker World → Phase
after_start w = if is_zero w.error then looping else leaving

abbrev pub after_turn : Ptr → Phase
after_turn msg = if msg == null then leaving else looping

-- What was sent to the worker, what its thread took from the queue, where the thread is, and the
-- worker. `first` is the memory that TecWorker_init makes a worker of.
pub data Trace {World : Type 0} (code : Code World) (first : Worker World)
    : List ℕ → List ℕ → Phase → Worker World → Type 0 where
  created :
      {w : Worker World} (g : Granted) (size : ℕ)
      → init g first size ≡ (true, w)
      → Trace code first [] [] starting w
  sets_hooks :
      {ins outs : List ℕ} {w : Worker World} (on_init on_exit : Hook World)
      → Trace code first ins outs starting w
      → Trace code first ins outs starting (record w { on_init = on_init; on_exit = on_exit })
  registers :
      {ins outs : List ℕ} {phase : Phase} {w w' : Worker World} (p : Ptr) (tag : Key)
      (callback : Ptr)
      → Trace code first ins outs phase w
      → register w p tag callback ≡ ok w'
      → Trace code first ins outs phase w'
  sends :
      {ins outs : List ℕ} {phase : Phase} {w w' : Worker World} (p msg : Ptr)
      → Trace code first ins outs phase w
      → IsFresh w.queue.heap p
      → send w p msg ≡ ok w'
      → Trace code first (ins ++ (msg ∷ [])) outs phase w'
  starts :
      {ins outs : List ℕ} {w w' : Worker World}
      → Trace code first ins outs starting w
      → initialize w ≡ ok w'
      → Trace code first ins outs (after_start w') w'
  turns :
      {ins outs : List ℕ} {w w' : Worker World} (msg : Ptr)
      → Trace code first ins outs looping w
      → turn code w ≡ ok (some (msg, w'))
      → Trace code first ins (outs ++ (msg ∷ [])) (after_turn msg) w'
  leaves :
      {ins outs : List ℕ} {w w' : Worker World}
      → Trace code first ins outs leaving w
      → leave w ≡ ok w'
      → Trace code first ins outs over w'

-- Why the thread left the loop: it took NULL after messages that are none, or it never entered.
pub data Stop (outs : List ℕ) : Type 0 where
  null_taken :
      (handled : List ℕ) → has_null handled ≡ false → outs ≡ handled ++ (null ∷ []) → Stop outs
  not_started : outs ≡ [] → Stop outs

-- What holds of the signals and the messages taken, by the phase.
pub data Stage {World : Type 0} (outs : List ℕ) (w : Worker World) : Phase → Type 0 where
  idle : outs ≡ [] → w.sig_running ≡ false → w.sig_terminated ≡ false → Stage outs w starting
  serves :
      has_null outs ≡ false → w.sig_running ≡ true → w.sig_terminated ≡ false → Stage outs w looping
  stops : Stop outs → w.sig_running ≡ true → w.sig_terminated ≡ false → Stage outs w leaving
  ends : Stop outs → w.sig_running ≡ true → w.sig_terminated ≡ true → Stage outs w over

has_null-append :
    (ps : List ℕ) (p : Ptr)
    → has_null ps ≡ false
    → (p == null) ≡ false
    → has_null (ps ++ (p ∷ [])) ≡ false
unfolding has_null
has_null-append [] p plain e = rw e
has_null-append (q ∷ ps) p plain e = ground (arith, has_null-append ps p)

none_taken : has_null [] ≡ false
unfolding has_null
none_taken = refl

module _ {World : Type 0} where
  -- A stage is kept by what leaves the signals alone.
  Stage-same :
      {outs : List ℕ} {phase : Phase} {w w' : Worker World}
      → w'.sig_running ≡ w.sig_running
      → w'.sig_terminated ≡ w.sig_terminated
      → Stage outs w phase
      → Stage outs w' phase
  Stage-same r t (idle none_out on off) = idle none_out (r ∙ on) (t ∙ off)
  Stage-same r t (serves plain on off) = serves plain (r ∙ on) (t ∙ off)
  Stage-same r t (stops stop on off) = stops stop (r ∙ on) (t ∙ off)
  Stage-same r t (ends stop on off) = ends stop (r ∙ on) (t ∙ off)

  started :
      {outs : List ℕ} {w w' : Worker World}
      → Stage outs w starting
      → initialize w ≡ ok w'
      → Stage outs w' (after_start w')
  started {w} {w'} (idle none_out on off) run =
      let (_, running, terminated) = initialize_lem w run in
      elim (Bool-cases (is_zero w'.error)) [
        | inl e ↦ rw e (serves (rw none_out none_taken) running (terminated ∙ off))
        | inr e ↦ rw e (stops (not_started none_out) running (terminated ∙ off))
      ]

  turned :
      (code : Code World) {outs : List ℕ} {w w' : Worker World} (msg : Ptr)
      → Stage outs w looping
      → turn code w ≡ ok (some (msg, w'))
      → Stage (outs ++ (msg ∷ [])) w' (after_turn msg)
  turned code {outs} {w} msg (serves plain on off) run =
      let (_, running, terminated) = turn_lem code w msg run in
      elim (Bool-cases (msg == null)) [
        | inl e ↦
            let last : outs ++ (msg ∷ []) ≡ outs ++ (null ∷ []) =
              ap (λ (x : ℕ). outs ++ (x ∷ [])) ((==_iff msg null).0 e) in
            rw e (stops (null_taken outs plain last) (running ∙ on) (terminated ∙ off))
        | inr e ↦ rw e (serves (has_null-append outs msg plain e) (running ∙ on) (terminated ∙ off))
      ]

  left :
      {outs : List ℕ} {w w' : Worker World}
      → Stage outs w leaving
      → leave w ≡ ok w'
      → Stage outs w' over
  left {w} (stops stop on off) run =
      let (_, running, terminated) = leave_lem w run in ends stop (running ∙ on) terminated

module _ {World : Type 0} {code : Code World} {first : Worker World} where
  -- The calls of the queue in a trace.
  Trace-Calls :
      {ins outs : List ℕ} {phase : Phase} {w : Worker World}
      → Trace code first ins outs phase w
      → Calls first.queue ins outs w.queue
  Trace-Calls (created {w} g size e) =
      let (queue, _, _) = init_lem g first size e in
      subst (λ (q : Queue). Calls first.queue [] [] q) (sym queue) begin
  Trace-Calls (sets_hooks on_init on_exit t) = Trace-Calls t
  Trace-Calls (registers {ins} {outs} {w} p tag callback t run) =
      subst (λ (q : Queue). Calls first.queue ins outs q)
        (sym (register_lem w p tag callback run).queue) (Trace-Calls t)
  Trace-Calls (sends {w} p msg t fresh run) =
      let (run', _, _) = send_lem w p msg run in pushed p msg (Trace-Calls t) fresh run'
  Trace-Calls (starts {ins} {outs} {w} t run) =
      let (queue, _, _) = initialize_lem w run in
      subst (λ (q : Queue). Calls first.queue ins outs q) (sym queue) (Trace-Calls t)
  Trace-Calls (turns {w} msg t run) =
      let (run', _, _) = turn_lem code w msg run in popped msg (Trace-Calls t) run'
  Trace-Calls (leaves {ins} {outs} {w} t run) =
      let (queue, _, _) = leave_lem w run in
      subst (λ (q : Queue). Calls first.queue ins outs q) (sym queue) (Trace-Calls t)

  Trace-Stage :
      {ins outs : List ℕ} {phase : Phase} {w : Worker World}
      → Trace code first ins outs phase w
      → Stage outs w phase
  Trace-Stage (created {w} g size e) =
      let (_, on, off) = init_lem g first size e in idle refl on off
  Trace-Stage (sets_hooks on_init on_exit t) = Stage-same refl refl (Trace-Stage t)
  Trace-Stage (registers {w} p tag callback t run) =
      let same = register_lem w p tag callback run in
      Stage-same same.running same.terminated (Trace-Stage t)
  Trace-Stage (sends {w} p msg t fresh run) =
      let (_, running, terminated) = send_lem w p msg run in
      Stage-same running terminated (Trace-Stage t)
  Trace-Stage (starts t run) = started (Trace-Stage t) run
  Trace-Stage (turns msg t run) = turned code msg (Trace-Stage t) run
  Trace-Stage (leaves t run) = left (Trace-Stage t) run

  -- Whatever the other threads do, the thread of a worker whose queue was made in unused memory
  -- takes the messages in the order in which they were sent, each once. While it is in its loop it
  -- took no NULL; when it left, it had taken one NULL, and that last, or it took nothing.
  -- `sig_running` is set just if the thread has gone through its initialization, `sig_terminated`
  -- just if it has left.
  pub Trace-Fifo :
      {ins outs : List ℕ} {phase : Phase} {w : Worker World}
      → ((a : Ptr) → first.queue.heap a ≡ none)
      → Trace code first ins outs phase w
      → Fifo ins outs w.queue × Stage outs w phase
  Trace-Fifo unused t = (Calls-Fifo unused (Trace-Calls t), Trace-Stage t)
