-- ===== src/Signal/Waking.antt =====
-- No thread sleeps through a signal that was set.
use mathlib.Core.Bool.{true≢false}
use tecc.Base.{
  ℕ, zero, suc, ◌≡◌, refl, sym, ap, ◌∙◌, true, false, some, inl, inr, Bool-cases, ==_iff,
}
use mathlib.Core.Path.{subst}
use tecc.Signal.Defs.{
  Pc, idle, locking, testing, calling, asleep, woken, unlocking, waited, stored, broadcasting,
  releasing, has_set, timed_locking, timed_testing, timed_calling, timed_asleep, timed_woken,
  timed_out, misusing, einval, Signal, init, move, wake, lock, unlock, broadcast, WaitStep,
  WaitForStep, SetStep, Steps, begins, waiting, waiting_for, setting,
}
use tecc.Signal.Defs
use tecc.Signal.Moves.{
  holds, rests, will_wake, was_told, Inv, at_move, Sound-Inv, some-inj, some_signal-inj, move-Inv,
  lock-Inv, unlock-Inv,
}

no : {A : Type 0} → false ≡ true → A
no h = absurd (true≢false (sym h))

-- To find the signal unset under the mutex, before falling asleep.
stays-Inv :
    {s : Signal} {t : ℕ} {old : Pc} (p : Pc)
    → Inv s
    → s.pc t ≡ old
    → s.value ≡ false
    → holds old ≡ true
    → was_told p ≡ false
    → Inv (move s t p)
unfolding holds rests will_wake was_told
stays-Inv {s} {t} p inv at off held told = Sound-Inv inv (record {
  mine = λ h. inv.exclusive t (ap holds at ∙ held);
  others = λ u ne h. h;
  grows = λ h. h;
  told = λ h. absurd (true≢false (sym h ∙ told));
  wakes = λ on. absurd (true≢false (sym on ∙ off));
})

WaitStep-Inv : {s : Signal} (t : ℕ) {s' : Signal} → Inv s → WaitStep s t s' → Inv s'
unfolding holds rests will_wake was_told
WaitStep-Inv t inv (Defs.WaitStep.finds_set at e) =
    move-Inv inv (waited 0) at (λ h. e) (refl, refl) refl
WaitStep-Inv t inv (Defs.WaitStep.finds_unset at e) =
    move-Inv inv locking at (λ h. no h) (refl, refl) refl
WaitStep-Inv t inv (Defs.WaitStep.locks at e) = lock-Inv inv testing at (λ h. no h) (refl, refl) e
WaitStep-Inv t inv (Defs.WaitStep.lock_fails e at) =
    move-Inv inv (waited (suc e)) at (λ h. no h) (refl, refl) refl
WaitStep-Inv t inv (Defs.WaitStep.leaves_loop at e) =
    move-Inv inv (unlocking 0) at (λ h. e) (refl, refl) refl
WaitStep-Inv t inv (Defs.WaitStep.stays_in_loop at e) = stays-Inv calling inv at e refl refl
WaitStep-Inv t inv (Defs.WaitStep.sleeps at) =
    unlock-Inv inv asleep at (λ h. no h) (refl, refl) refl refl
WaitStep-Inv t inv (Defs.WaitStep.wait_fails e at) =
    move-Inv inv (unlocking (suc e)) at (λ h. no h) (refl, refl) refl
WaitStep-Inv t inv (Defs.WaitStep.wakes at) = move-Inv inv woken at (λ h. no h) (refl, refl) refl
WaitStep-Inv t inv (Defs.WaitStep.locks_again at e) =
    lock-Inv inv testing at (λ h. no h) (refl, refl) e
WaitStep-Inv t inv (Defs.WaitStep.unlocks zero at) =
    unlock-Inv inv (waited 0) at (λ h. inv.truthful t (ap was_told at)) (refl, refl) refl refl
WaitStep-Inv t inv (Defs.WaitStep.unlocks (suc e) at) =
    unlock-Inv inv (waited (suc e)) at (λ h. no h) (refl, refl) refl refl
WaitStep-Inv t inv (Defs.WaitStep.is_back e at) = move-Inv inv idle at (λ h. no h) (refl, refl) refl

WaitForStep-Inv : {s : Signal} (t : ℕ) {s' : Signal} → Inv s → WaitForStep s t s' → Inv s'
unfolding holds rests will_wake was_told
WaitForStep-Inv t inv (Defs.WaitForStep.finds_set at e) =
    move-Inv inv (waited 0) at (λ h. e) (refl, refl) refl
WaitForStep-Inv t inv (Defs.WaitForStep.finds_no_time clock timeout at e bad) =
    move-Inv inv (waited einval) at (λ h. no h) (refl, refl) refl
WaitForStep-Inv t inv (Defs.WaitForStep.finds_unset clock timeout ts at e end) =
    move-Inv inv (timed_locking ts) at (λ h. no h) (refl, refl) refl
WaitForStep-Inv t inv (Defs.WaitForStep.locks ts at e) =
    lock-Inv inv (timed_testing ts) at (λ h. no h) (refl, refl) e
WaitForStep-Inv t inv (Defs.WaitForStep.lock_fails ts at) =
    move-Inv inv misusing at (λ h. no h) (refl, refl) refl
WaitForStep-Inv t inv (Defs.WaitForStep.leaves_loop ts at e) =
    move-Inv inv (unlocking 0) at (λ h. e) (refl, refl) refl
WaitForStep-Inv t inv (Defs.WaitForStep.stays_in_loop ts at e) =
    stays-Inv (timed_calling ts) inv at e refl refl
WaitForStep-Inv t inv (Defs.WaitForStep.sleeps ts at) =
    unlock-Inv inv (timed_asleep ts) at (λ h. no h) (refl, refl) refl refl
WaitForStep-Inv t inv (Defs.WaitForStep.wait_fails ts e at) =
    move-Inv inv (unlocking (suc e)) at (λ h. no h) (refl, refl) refl
WaitForStep-Inv t inv (Defs.WaitForStep.wakes ts at) =
    move-Inv inv (timed_woken ts) at (λ h. no h) (refl, refl) refl
WaitForStep-Inv t inv (Defs.WaitForStep.locks_again ts at e) =
    lock-Inv inv (timed_testing ts) at (λ h. no h) (refl, refl) e
WaitForStep-Inv t inv (Defs.WaitForStep.times_out ts e at) =
    move-Inv inv (timed_out e) at (λ h. no h) (refl, refl) refl
WaitForStep-Inv t inv (Defs.WaitForStep.locks_late e at free) =
    lock-Inv inv (unlocking (suc e)) at (λ h. no h) (refl, refl) free

-- Who is woken up neither rests nor gains anything else.
wake_lem :
    (p : Pc)
    → (holds (wake p) ≡ holds p)
      × (was_told (wake p) ≡ was_told p)
      × (rests (wake p) ≡ true → holds p ≡ true)
unfolding holds was_told rests wake
wake_lem idle = (refl, refl, λ h. no h)
wake_lem locking = (refl, refl, λ h. no h)
wake_lem testing = (refl, refl, λ h. no h)
wake_lem calling = (refl, refl, λ h. refl)
wake_lem asleep = (refl, refl, λ h. no h)
wake_lem woken = (refl, refl, λ h. no h)
wake_lem (unlocking e) = (refl, refl, λ h. refl)
wake_lem (waited e) = (refl, refl, λ h. no h)
wake_lem (timed_locking ts) = (refl, refl, λ h. no h)
wake_lem (timed_testing ts) = (refl, refl, λ h. no h)
wake_lem (timed_calling ts) = (refl, refl, λ h. refl)
wake_lem (timed_asleep ts) = (refl, refl, λ h. no h)
wake_lem (timed_woken ts) = (refl, refl, λ h. no h)
wake_lem (timed_out e) = (refl, refl, λ h. no h)
wake_lem misusing = (refl, refl, λ h. no h)
wake_lem stored = (refl, refl, λ h. no h)
wake_lem broadcasting = (refl, refl, λ h. no h)
wake_lem releasing = (refl, refl, λ h. no h)
wake_lem has_set = (refl, refl, λ h. no h)

-- The broadcast leaves nobody asleep: who is about to sleep would hold the mutex.
broadcast-Inv : {s : Signal} {t : ℕ} → Inv s → s.pc t ≡ broadcasting → Inv (broadcast s t releasing)
unfolding broadcast holds was_told rests move
broadcast-Inv {s} {t} inv at =
    let woken_up = record s { pc = λ u. wake (s.pc u) } in
    let mine : s.owner ≡ some t = inv.exclusive t (ap holds at) in
    record {
      exclusive =
          at_move woken_up t releasing (λ u q. holds q ≡ true → s.owner ≡ some u) (λ h. mine)
            (λ u ne h. inv.exclusive u (sym (wake_lem (s.pc u)).0 ∙ h));
      wakers = λ on u rested. absurd (
          at_move woken_up t releasing (λ u q. rests q ≡ true → ⊥) (λ h. no h)
            (λ u ne h. true≢false (
              sym
                ((==_iff u t).1 (some-inj (sym (inv.exclusive u ((wake_lem (s.pc u)).2 h)) ∙ mine)))
              ∙ ne))
            u rested);
      truthful =
          at_move woken_up t releasing (λ u q. was_told q ≡ true → s.value ≡ true) (λ h. no h)
            (λ u ne h. inv.truthful u (sym (wake_lem (s.pc u)).1 ∙ h));
    }

SetStep-Inv : {s : Signal} (t : ℕ) {s' : Signal} → Inv s → SetStep s t s' → Inv s'
unfolding holds rests will_wake was_told
SetStep-Inv t inv (Defs.SetStep.stores at) = Sound-Inv inv (record {
  mine = λ h. no h;
  others = λ u ne h. h;
  grows = λ h. refl;
  told = λ h. refl;
  wakes = λ on. inr refl;
})
SetStep-Inv t inv (Defs.SetStep.locks at e) =
    lock-Inv inv broadcasting at (λ h. no h) (refl, refl) e
SetStep-Inv t inv (Defs.SetStep.broadcasts at) = broadcast-Inv inv at
SetStep-Inv t inv (Defs.SetStep.unlocks at) =
    unlock-Inv inv has_set at (λ h. no h) (refl, refl) refl refl
SetStep-Inv t inv (Defs.SetStep.is_back at) = move-Inv inv idle at (λ h. no h) (refl, refl) refl

Steps-Inv : {s : Signal} → Steps s → Inv s
unfolding holds rests was_told init
Steps-Inv (begins e) =
    subst Inv (some_signal-inj e)
      (record { exclusive = λ t h. no h; wakers = λ on t h. no h; truthful = λ t h. no h })
Steps-Inv (waiting t steps step) = WaitStep-Inv t (Steps-Inv steps) step
Steps-Inv (waiting_for t steps step) = WaitForStep-Inv t (Steps-Inv steps) step
Steps-Inv (setting t steps step) = SetStep-Inv t (Steps-Inv steps) step

-- Whatever the interleaving of any number of threads: once the signal is set and no
-- TecSignal_set is between its store and its broadcast, no thread is asleep in TecSignal_wait
-- or TecSignal_wait_for, or about to fall asleep. At most one thread is between its lock and its unlock, and a wait
-- that returned 0 did so because the signal was set.
pub Steps-rests :
    {s : Signal}
    → Steps s
    → (s.value ≡ true → ((u : ℕ) → will_wake (s.pc u) ≡ false) → (t : ℕ) → rests (s.pc t) ≡ false)
      × ((t u : ℕ) → holds (s.pc t) ≡ true → holds (s.pc u) ≡ true → t ≡ u)
      × ((t : ℕ) → s.pc t ≡ waited 0 → s.value ≡ true)
unfolding was_told
Steps-rests {s} steps =
    let inv = Steps-Inv steps in
    (
      λ on none_left t. elim (Bool-cases (rests (s.pc t))) [
        | inl h ↦ let (u, w) = inv.wakers on t h in absurd (true≢false (sym w ∙ none_left u))
        | inr h ↦ h
      ],
      λ t u h h'. some-inj (sym (inv.exclusive t h) ∙ inv.exclusive u h'),
      λ t e. inv.truthful t (ap was_told e),
    )
