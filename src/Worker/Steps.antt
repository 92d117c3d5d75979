-- ===== src/Worker/Steps.antt =====
-- What the steps of a worker do to its queue and its signals.
use mathlib.Core.Path.{subst}
use mathlib.Core.Bool.{true≢false}
use tecc.Base.{
  ℕ, ◌≡◌, inl, inr, refl, sym, ap, ◌∙◌, Bool, true, false, ◌&&◌, Option, none, some, ◌==◌,
  Bool-cases,
}
use tecc.Base.Heap.{Ptr, null}
use tecc.Base.Run.{Run, ok, fault, out_of_fuel, ◌>>=◌}
use tecc.Map.Defs.{Key}
use tecc.Map.Defs as MapDefs
use tecc.Queue.Defs.{Queue, push, pop}
use tecc.Queue.Defs as QueueDefs
use tecc.Worker.Messages.{Code, dispatch}
use tecc.Worker.Defs.{
  Worker, Hook, Granted, is_zero, init, register, send, call_hook, initialize, leave, process,
  taken, turn,
}

ok-inj : {A : Type 0} {a b : A} → ok a ≡ ok b → a ≡ b
ok-inj e = cc

-- A run whose result is changed by `f` gave a result.
after :
    {A B : Type 0} {b : B} (r : Run A) (f : A → B)
    → (r >>= λ a. ok (f a)) ≡ ok b
    → (a : A) × (r ≡ ok a) × (f a ≡ b)
after {B} out_of_fuel f e = absurd (stuck e)
  where
    stuck : {b : B} → out_of_fuel ≡ ok b → ⊥
    stuck e = cc
after {B} fault f e = absurd (stuck e)
  where
    stuck : {b : B} → fault ≡ ok b → ⊥
    stuck e = cc
after (ok a) f e = (a, refl, ok-inj e)

&&-both : (a b : Bool) → (a && b) ≡ true → (a ≡ true) × (b ≡ true)
&&-both true b e = (refl, e)
&&-both false b e = (e, absurd (true≢false (sym e)))

-- The parts of a worker that a call leaves alone.
pub record Same {World : Type 0} (w w' : Worker World) : Type 0 where
  pub queue : w'.queue ≡ w.queue
  pub running : w'.sig_running ≡ w.sig_running
  pub terminated : w'.sig_terminated ≡ w.sig_terminated

module _ {World : Type 0} where
  Same-refl : (w : Worker World) → Same w w
  Same-refl w = record { queue = refl; running = refl; terminated = refl }

  Same-after : {w w₁ w₂ : Worker World} → w₁ ≡ w₂ → Same w w₁ → Same w w₂
  Same-after {w} e t = subst (λ (x : Worker World). Same w x) e t

  hook_lem :
      (w : Worker World) {w' : Worker World} (h : Hook World) → call_hook h w ≡ ok w' → Same w w'
  unfolding call_hook
  hook_lem w none e = Same-after (ok-inj e) (Same-refl w)
  hook_lem w {w'} (some f) e = elim (Bool-cases (is_zero w.error)) [
    | inl z ↦
        let (r, _, same) =
          after (f w.store) (λ r. record w { error = r.0; store = r.1 }) (rw z at e) in
        Same-after same (record { queue = refl; running = refl; terminated = refl })
    | inr z ↦ let e' : ok w ≡ ok w' = rw z at e in Same-after (ok-inj e') (Same-refl w)
  ]

  pub initialize_lem :
      (w : Worker World) {w' : Worker World}
      → initialize w ≡ ok w'
      → (w'.queue ≡ w.queue) × (w'.sig_running ≡ true) × (w'.sig_terminated ≡ w.sig_terminated)
  unfolding initialize
  initialize_lem w e =
      let (w₁, run, same) =
        after (call_hook w.on_init w) (λ w₁. record w₁ { sig_running = true }) e in
      let t = hook_lem w w.on_init run in
      (
        ap (λ (x : Worker World). x.queue) (sym same) ∙ t.queue,
        ap (λ (x : Worker World). x.sig_running) (sym same),
        ap (λ (x : Worker World). x.sig_terminated) (sym same) ∙ t.terminated,
      )

  pub leave_lem :
      (w : Worker World) {w' : Worker World}
      → leave w ≡ ok w'
      → (w'.queue ≡ w.queue) × (w'.sig_running ≡ w.sig_running) × (w'.sig_terminated ≡ true)
  unfolding leave
  leave_lem w e =
      let (w₁, run, same) =
        after (call_hook w.on_exit w) (λ w₁. record w₁ { sig_terminated = true }) e in
      let t = hook_lem w w.on_exit run in
      (
        ap (λ (x : Worker World). x.queue) (sym same) ∙ t.queue,
        ap (λ (x : Worker World). x.sig_running) (sym same) ∙ t.running,
        ap (λ (x : Worker World). x.sig_terminated) (sym same),
      )

  pub register_lem :
      (w : Worker World) {w' : Worker World} (p : Ptr) (tag : Key) (callback : Ptr)
      → register w p tag callback ≡ ok w'
      → Same w w'
  unfolding register
  register_lem w p tag callback e =
      let (r, _, same) =
        after (MapDefs.put_value w.callbacks p tag callback) (λ r. record w { callbacks = r.1 })
          e in
      Same-after same (record { queue = refl; running = refl; terminated = refl })

  -- The push of a send.
  pub send_lem :
      (w : Worker World) {w' : Worker World} (p msg : Ptr)
      → send w p msg ≡ ok w'
      → (push w.queue p msg ≡ ok w'.queue)
        × (w'.sig_running ≡ w.sig_running)
        × (w'.sig_terminated ≡ w.sig_terminated)
  unfolding send
  send_lem w p msg e =
      let (q, run, same) = after (push w.queue p msg) (λ q. record w { queue = q }) e in
      (
        run ∙ ap (λ (x : Worker World). ok x.queue) same,
        ap (λ (x : Worker World). x.sig_running) (sym same),
        ap (λ (x : Worker World). x.sig_terminated) (sym same),
      )

  process_lem :
      (code : Code World) (w : Worker World) {w' : Worker World} (msg : Ptr)
      → process code w msg ≡ ok w'
      → Same w w'
  unfolding process
  process_lem code w {w'} msg e = elim (Bool-cases (msg == null)) [
    | inl z ↦ let e' : ok w ≡ ok w' = rw z at e in Same-after (ok-inj e') (Same-refl w)
    | inr z ↦
        let (s, _, same) =
          after (dispatch code w.callbacks w.store msg) (λ s. record w { store = s }) (rw z at e) in
        Same-after same (record { queue = refl; running = refl; terminated = refl })
  ]

  taken_lem :
      (code : Code World) (w : Worker World) {w' : Worker World} (msg : Ptr)
      (r : Option (ℕ × Queue))
      → taken code w r ≡ ok (some (msg, w'))
      → (r ≡ some (msg, w'.queue))
        × (w'.sig_running ≡ w.sig_running)
        × (w'.sig_terminated ≡ w.sig_terminated)
  unfolding taken
  taken_lem code w msg none e = absurd (differ (ok-inj e))
    where
      differ : {x : Ptr × Worker World} → none ≡ some x → ⊥
      differ e = cc
  taken_lem code w {w'} msg (some (x, q)) e =
      let next : Worker World → Option (Ptr × Worker World) = λ w₁. some (x, w₁) in
      let (w₁, run, same) = after (process code (record w { queue = q }) x) next e in
      let t = process_lem code (record w { queue = q }) x run in
      let both : (x, w₁) ≡ (msg, w') = some-inj same in
      (
        ap (λ (y : Ptr × Worker World). some (y.0, q)) both
            ∙ ap (λ (z : Queue). some (msg, z))
                (sym t.queue ∙ ap (λ (y : Ptr × Worker World). y.1.queue) both),
        ap (λ (y : Ptr × Worker World). y.1.sig_running) (sym both) ∙ t.running,
        ap (λ (y : Ptr × Worker World). y.1.sig_terminated) (sym both) ∙ t.terminated,
      )
    where
      some-inj : {a b : Ptr × Worker World} → some a ≡ some b → a ≡ b
      some-inj e = cc

  popped_one :
      (code : Code World) (w : Worker World) {w' : Worker World} (msg : Ptr)
      (r : Run (Option (ℕ × Queue)))
      → ◌≡◌ {A = Run (Option (Ptr × Worker World))}
          (r >>= λ o. taken code w o)
          (ok (some (msg, w')))
      → (r ≡ ok (some (msg, w'.queue)))
        × (w'.sig_running ≡ w.sig_running)
        × (w'.sig_terminated ≡ w.sig_terminated)
  popped_one code w {w'} msg out_of_fuel e = absurd (stuck e)
    where
      stuck : {o : Option (Ptr × Worker World)} → out_of_fuel ≡ ok o → ⊥
      stuck e = cc
  popped_one code w {w'} msg fault e = absurd (stuck e)
    where
      stuck : {o : Option (Ptr × Worker World)} → fault ≡ ok o → ⊥
      stuck e = cc
  popped_one code w msg (ok o) e =
      let (same, running, terminated) = taken_lem code w msg o e in
      (ap ok same, running, terminated)

  pub turn_lem :
      (code : Code World) (w : Worker World) {w' : Worker World} (msg : Ptr)
      → turn code w ≡ ok (some (msg, w'))
      → (pop w.queue ≡ ok (some (msg, w'.queue)))
        × (w'.sig_running ≡ w.sig_running)
        × (w'.sig_terminated ≡ w.sig_terminated)
  unfolding turn
  turn_lem code w msg e = popped_one code w msg (pop w.queue) e

  pub init_lem :
      (g : Granted) (first : Worker World) (size : ℕ) {w : Worker World}
      → init g first size ≡ (true, w)
      → (w.queue ≡ QueueDefs.init first.queue)
        × (w.sig_running ≡ false)
        × (w.sig_terminated ≡ false)
  unfolding init
  init_lem g first size {w} e =
      let signals_made = g.sig_running && g.sig_terminated in
      let table = (MapDefs.init first.callbacks g.callbacks size).0 in
      let (most, _) =
        &&-both (signals_made && g.queue && table) g.lock
          (ap (λ (x : Bool × Worker World). x.0) e) in
      let (more, _) = &&-both (signals_made && g.queue) table most in
      let (signals, queue) = &&-both signals_made g.queue more in
      let (running, _) = &&-both g.sig_running g.sig_terminated signals in
      let same = ap (λ (x : Bool × Worker World). x.1) e in
      (
        ap (λ (x : Worker World). x.queue) (sym same) ∙ rw (signals, queue),
        ap (λ (x : Worker World). x.sig_running) (sym same) ∙ rw running,
        ap (λ (x : Worker World). x.sig_terminated) (sym same) ∙ rw signals,
      )
