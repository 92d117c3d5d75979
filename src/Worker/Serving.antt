-- ===== src/Worker/Serving.antt =====
-- The message loop against the messages of the queue, one after the other.
use tecc.Base.{
  ℕ, zero, suc, ◌<◌, ◌≡◌, inl, inr, refl, ◌∙◌, Bool, true, false, ◌||◌, Option, some, List, [], ◌∷◌,
  ◌++◌, arith, ◌==◌, length,
}
use tecc.Base.Int.{ℤ}
use tecc.Base.Heap.{Ptr, null, IsFresh}
use tecc.Base.Run.{Run, ok, fault, out_of_fuel, ◌>>=◌, Run-cases, bind_assoc}
use tecc.Map.Defs.{Map}
use tecc.Queue.Defs.{Queue, pop, push}
use tecc.Queue.Line.{Cells, objects, IsQueue}
use tecc.Queue.Methods.{pop-IsQueue, push-IsQueue}
use tecc.Worker.Messages.{Store, Code, dispatch}
use tecc.Worker.Defs.{
  Worker, is_zero, send, process, taken, turn, proceed, message_loop, leave_after, leave, finish,
  joined, wait_terminated, terminate,
}

unfoldable pub has_null : List ℕ → Bool
has_null [] = false
has_null (p ∷ ps) = (p == null) || has_null ps

module _ {World : Type 0} (code : Code World) where
  -- The messages are dispatched one after the other.
  unfoldable pub dispatch_all : Map → Store World → List Ptr → Run (Store World)
  dispatch_all callbacks s [] = ok s
  dispatch_all callbacks s (p ∷ ps) =
      dispatch code callbacks s p >>= λ s'. dispatch_all callbacks s' ps

  pub turn_steps :
      (w : Worker World) (x : ℕ) (q : Queue)
      → pop w.queue ≡ ok (some (x, q))
      → turn code w ≡ (process code (record w { queue = q }) x >>= λ w'. ok (some (x, w')))
  unfolding turn taken
  turn_steps w x q run = rw run

  process-null : (w : Worker World) (x : ℕ) → (x == null) ≡ true → process code w x ≡ ok w
  unfolding process
  process-null w x e = rw e

  process-some :
      (w : Worker World) (x : ℕ)
      → (x == null) ≡ false
      → process code w x
        ≡ (dispatch code w.callbacks w.store x >>= λ s. ok (record w { store = s }))
  unfolding process
  process-some w x e = rw e

  null_steps :
      (fuel : ℕ) (w : Worker World) (x : ℕ) (q : Queue)
      → pop w.queue ≡ ok (some (x, q))
      → (x == null) ≡ true
      → message_loop (suc fuel) code w ≡ ok (some (record w { queue = q }))
  unfolding message_loop proceed
  null_steps fuel w x q run e =
      rw (turn_steps w x q run, process-null (record w { queue = q }) x e, e)

  next_steps :
      (fuel : ℕ) (w : Worker World) (x : ℕ) (q : Queue)
      (r : Store World → Run (Option (Worker World)))
      → pop w.queue ≡ ok (some (x, q))
      → (x == null) ≡ false
      → ((s : Store World) → message_loop fuel code (record w { queue = q; store = s }) ≡ r s)
      → message_loop (suc fuel) code w ≡ (dispatch code w.callbacks w.store x >>= r)
  unfolding message_loop proceed
  next_steps fuel w x q r run e rest =
      rw (turn_steps w x q run, process-some (record w { queue = q }) x e)
        (elim (Run-cases (dispatch code w.callbacks w.store x)) [
          | inl e' ↦ rw e'
          | inr (inl e') ↦ rw e'
          | inr (inr (s, e')) ↦ rw (e', e) (rest s)
        ])

  -- The loop over a queue with a NULL behind other messages: the worker that it leaves has
  -- dispatched them in order.
  pub message_loop_lem :
      (fuel : ℕ) (cells : Cells) (n : Ptr) (rest : Cells) {q₀ : Queue}
      → IsQueue q₀ (cells ++ ((n, null) ∷ rest))
      → has_null (objects cells) ≡ false
      → length cells < fuel
      → (q : Queue) × IsQueue q rest
        × ((w : Worker World) (s : Store World)
            → message_loop fuel code (record w { queue = q₀; store = s }) ≡ (
                dispatch_all w.callbacks s (objects cells) >>= λ s'.
                ok (some (record w { queue = q; store = s' }))))
  unfolding has_null dispatch_all
  message_loop_lem zero cells n rest t plain enough = absurd (omega arith)
  message_loop_lem (suc fuel) [] n rest {q₀} t plain enough =
      let (q, run, t') = pop-IsQueue t in
      (q, t', λ w s. null_steps fuel (record w { queue = q₀; store = s }) null q run refl)
  message_loop_lem (suc fuel) ((p, x) ∷ cells) n rest {q₀} t plain enough =
      let (q₁, run, t₁) = pop-IsQueue t in
      let filled : (x == null) ≡ false = ground arith in
      let others : has_null (objects cells) ≡ false = ground arith in
      let (q, t', loop) = message_loop_lem fuel cells n rest t₁ others (omega arith) in
      (
        q,
        t',
        λ w s.
            next_steps fuel (record w { queue = q₀; store = s }) x q₁ _ run filled (λ s'. loop w s')
            ∙ bind_assoc (dispatch code w.callbacks s x) _ _,
      )

  -- What comes after the loop of a thread that is to end.
  unfoldable pub ended : Worker World → Queue → Store World → Run (Option (ℤ × Worker World))
  ended w q s = do
    w' ← leave (record w { queue = q; store = s })
    ok (some (w'.error, record w' { joinable = false }))

  wait_steps :
      (fuel : ℕ) (w : Worker World)
      → is_zero w.error ≡ true
      → w.sig_terminated ≡ false
      → wait_terminated fuel code w ≡ (message_loop fuel code w >>= λ r. leave_after r)
  unfolding wait_terminated finish
  wait_steps fuel w fine on = rw (on, fine)

  joined_steps :
      (w : Worker World) (q : Queue) (r : Run (Store World))
      → (r
          >>= (λ s. ok (some (record w { queue = q; store = s })))
          >>= (λ a. leave_after a)
          >>= (λ a. ok (joined a)))
        ≡ (r >>= λ s. ended w q s)
  unfolding leave_after ended joined
  joined_steps w q r = elim (Run-cases r) [
    | inl e ↦ rw e
    | inr (inl e) ↦ rw e
    | inr (inr (s, e)) ↦ rw e (left (leave (record w { queue = q; store = s })))
  ]
    where
      left :
          (r : Run (Worker World))
          → (r >>= (λ w'. ok (some w')) >>= λ a. ok (joined a))
            ≡ (r >>= λ w'. ok (some (w'.error, record w' { joinable = false })))
      left out_of_fuel = refl
      left fault = refl
      left (ok w') = refl

  terminate_steps :
      (fuel : ℕ) (w : Worker World) (p : Ptr) (q₀ q : Queue) (r : Run (Store World))
      → is_zero w.error ≡ true
      → w.sig_terminated ≡ false
      → push w.queue p null ≡ ok q₀
      → message_loop fuel code (record w { queue = q₀ })
        ≡ (r >>= λ s. ok (some (record w { queue = q; store = s })))
      → terminate fuel code w p ≡ (r >>= λ s. ended w q s)
  unfolding terminate send
  terminate_steps fuel w p q₀ q r fine on pushed loop =
      rw (pushed, wait_steps fuel (record w { queue = q₀ }) fine on, loop) (joined_steps w q r)

  -- `TecWorker_terminate_` of a worker without an error whose thread runs, with no NULL among the
  -- messages of its queue and nothing sent any more, given more fuel than messages: it dispatches
  -- the messages of its queue in order, all of them, and leaves with the queue empty. Where
  -- dispatching faults or does not end, so does the call.
  pub terminate-dispatch_all :
      (fuel : ℕ) (w : Worker World) {cells : Cells} {p : Ptr}
      → IsQueue w.queue cells
      → has_null (objects cells) ≡ false
      → IsFresh w.queue.heap p
      → length cells < fuel
      → is_zero w.error ≡ true
      → w.sig_terminated ≡ false
      → (q : Queue) × IsQueue q []
        × (terminate fuel code w p
            ≡ (dispatch_all w.callbacks w.store (objects cells) >>= λ s. ended w q s))
  terminate-dispatch_all fuel w {cells} {p} t plain fresh enough fine on =
      let (q₀, pushed, t₀) = push-IsQueue null t fresh in
      let (q, t', loop) = message_loop_lem fuel cells p [] t₀ plain enough in
      (q, t', terminate_steps fuel w p q₀ q _ fine on pushed (loop w w.store))
