-- ===== src/Examples/Signals.antt =====
-- tecc_signal.c at a signal with two threads.
use tecc.Base.{ℕ, ◌≡◌, ◌⊎◌, refl, true, false, ◌&&◌, none, ◌==◌}
use tecc.Base.Run.{Returns}
use tecc.Signal.Defs.{
  Signal, made, init, move, wake, lock, unlock, broadcast, locking, testing, calling, asleep,
  waited, stored, broadcasting, releasing, Steps, begins, waiting, setting,
}
use tecc.Signal.Defs.{WaitStep as Wait, SetStep as Set}
use tecc.Signal.Moves.{holds, rests, will_wake}
use tecc.Signal.Waking.{Steps-rests}
use tecc.Threads.Defs.{System, Thread}
use tecc.Signal.Objects.{Objects, init_objects, done_objects}
use tecc.Signal.Lifetime.{Same, init_objects-done_objects}

program : Unit {0}
unfolding init move wake lock unlock broadcast holds rests will_wake
program = tt

-- Thread 1 waits and falls asleep, thread 2 sets the signal and broadcasts.
abbrev waiter_asleep : Signal
waiter_asleep = unlock (move (lock (move made 1 locking) 1 testing) 1 calling) 1 asleep

abbrev woken_up : Signal
woken_up =
    broadcast (lock (move (record waiter_asleep { value = true }) 2 stored) 2 broadcasting) 2
      releasing

woken_up-Steps : Steps woken_up
unfolding program
woken_up-Steps =
    setting 2
      (setting 2
        (setting 2
          (waiting 1
            (waiting 1
              (waiting 1 (waiting 1 (begins refl) (Wait.finds_unset refl refl))
                (Wait.locks refl refl))
              (Wait.stays_in_loop refl refl))
            (Wait.sleeps refl))
          (Set.stores refl))
        (Set.locks refl refl))
      (Set.broadcasts refl)

Steps-rests_example :
    (woken_up.value ≡ true
      → ((u : ℕ) → will_wake (woken_up.pc u) ≡ false)
      → (t : ℕ) → rests (woken_up.pc t) ≡ false)
    × ((t u : ℕ) → holds (woken_up.pc t) ≡ true → holds (woken_up.pc u) ≡ true → t ≡ u)
    × ((t : ℕ) → woken_up.pc t ≡ waited 0 → woken_up.value ≡ true)
Steps-rests_example = Steps-rests woken_up-Steps

-- Thread 1 may be back while thread 2 has yet to lock the mutex.
abbrev early : Signal
early = move (move (record made { value = true }) 2 stored) 1 (waited 0)

early-Steps : Steps early
unfolding program
early-Steps = waiting 1 (setting 2 (begins refl) (Set.stores refl)) (Wait.finds_set refl refl)

abbrev bare_system : System
bare_system = record { mutexes = λ _. none; conds = λ _. none; threads = λ _. none }

abbrev raw_signal : Objects
raw_signal = record { mtx = record { result = 5; m = 8 }; cnd = record { result = 5; c = 64 } }

init_objects-done_objects_example : Returns (init_objects 0 0 raw_signal bare_system) λ i.
    (((0 == 0 && 0 == 0) ≡ true)
      × (i.0 ≡ true)
      × Returns (done_objects 0 i.1 i.2) (λ d. Same d.1 bare_system))
    ⊎ (((0 == 0 && 0 == 0) ≡ false) × (i.0 ≡ false) × Same i.2 bare_system)
init_objects-done_objects_example =
    init_objects-done_objects 0 0 0 raw_signal bare_system
      (record { not_null = refl; unused = refl }) (record { not_null = refl; unused = refl })

abbrev raw_thread : Thread
raw_thread = record { result = 0; t = 3 }
