-- ===== src/Signal/Moves.antt =====
-- What holds of a signal after any steps, and the moves of a thread that keep it.
use mathlib.Core.Bool.{true≢false}
use tecc.Base.{
  ℕ, zero, arith, ◌≡◌, ◌⊎◌, refl, sym, ap, ◌∙◌, Bool, true, false, Option, none, some, ◌==◌,
  if◌then◌else◌, inl, inr, Bool-cases, ==_iff,
}
use mathlib.Core.Path.{subst}
use tecc.Signal.Defs.{
  Pc, testing, calling, asleep, timed_testing, timed_calling, timed_asleep, unlocking, waited,
  stored, broadcasting, releasing, Signal, move, lock, unlock,
}

-- The thread holds the mutex.
unfoldable pub holds : Pc → Bool
holds testing = true
holds calling = true
holds (timed_testing ts) = true
holds (timed_calling ts) = true
holds (unlocking e) = true
holds broadcasting = true
holds releasing = true
holds _ = false

-- The thread sleeps, or is about to.
unfoldable pub rests : Pc → Bool
rests calling = true
rests asleep = true
rests (timed_calling ts) = true
rests (timed_asleep ts) = true
rests _ = false

-- The thread will broadcast.
unfoldable pub will_wake : Pc → Bool
will_wake stored = true
will_wake broadcasting = true
will_wake _ = false

-- The thread was told that the signal is set.
unfoldable pub was_told : Pc → Bool
was_told (unlocking zero) = true
was_told (waited zero) = true
was_told _ = false

-- What holds after any steps.
pub record Inv (s : Signal) : Type 0 where
  pub exclusive : (t : ℕ) → holds (s.pc t) ≡ true → s.owner ≡ some t
  pub wakers :
      s.value ≡ true → (t : ℕ) → rests (s.pc t) ≡ true → (u : ℕ) × (will_wake (s.pc u) ≡ true)
  pub truthful : (t : ℕ) → was_told (s.pc t) ≡ true → s.value ≡ true

-- A property of the places of all threads, after thread `t` moved.
pub at_move :
    (s : Signal) (t : ℕ) (p : Pc) (P : ℕ → Pc → Type 0)
    → P t p
    → ((u : ℕ) → (u == t) ≡ false → P u (s.pc u))
    → (u : ℕ) → P u ((move s t p).pc u)
unfolding move
at_move s t p P here there u = elim (Bool-cases (u == t)) [
  | inl e ↦ rw ((==_iff u t).0 e) (subst (λ (q : Pc). P t q) (self t) here)
  | inr e ↦ rw e (there u e)
]
  where
    self : (t : ℕ) → p ≡ (if t == t then p else s.pc t)
    self t = ground arith

-- What a step of thread `t` to `p` must respect.
pub record Sound (s : Signal) (t : ℕ) (value : Bool) (owner : Option ℕ) (p : Pc) : Type 0 where
  pub mine : holds p ≡ true → owner ≡ some t
  pub others : (u : ℕ) → (u == t) ≡ false → s.owner ≡ some u → owner ≡ some u
  pub grows : s.value ≡ true → value ≡ true
  pub told : was_told p ≡ true → value ≡ true
  pub wakes :
      value ≡ true
      → ((s.value ≡ true)
          × (rests p ≡ true → rests (s.pc t) ≡ true)
          × (will_wake (s.pc t) ≡ true → will_wake p ≡ true))
        ⊎ (will_wake p ≡ true)

module _ {s : Signal} {t : ℕ} {value : Bool} {owner : Option ℕ} {p : Pc} (inv : Inv s)
    (x : Sound s t value owner p) where
  abbrev held : Signal
  held = record s { value = value; owner = owner }

  abbrev after : Signal
  after = move held t p

  wakers-after :
      value ≡ true → (u : ℕ) → rests (after.pc u) ≡ true → (v : ℕ) × (will_wake (after.pc v) ≡ true)
  wakers-after e u rested = elim (x.wakes e) [
    | inl (on, r, w) ↦
        let before : (u : ℕ) → rests (after.pc u) ≡ true → rests (s.pc u) ≡ true =
          at_move held t p (λ u q. rests q ≡ true → rests (s.pc u) ≡ true) r (λ u ne h. h) in
        let later : (u : ℕ) → will_wake (s.pc u) ≡ true → will_wake (after.pc u) ≡ true =
          at_move held t p (λ u q. will_wake (s.pc u) ≡ true → will_wake q ≡ true) w
            (λ u ne h. h) in
        let (v, there) = inv.wakers on u (before u rested) in (v, later v there)
    | inr w ↦ (
      t,
      at_move held t p (λ u q. (u == t) ≡ true → will_wake q ≡ true) (λ h. w)
          (λ u ne h. absurd (true≢false (sym h ∙ ne))) t (ground arith),
    )
  ]

  pub Sound-Inv : Inv after
  unfolding move
  Sound-Inv = record {
    exclusive =
        at_move held t p (λ u q. holds q ≡ true → owner ≡ some u) x.mine
          (λ u ne h. x.others u ne (inv.exclusive u h));
    wakers = wakers-after;
    truthful =
        at_move held t p (λ u q. was_told q ≡ true → value ≡ true) x.told
          (λ u ne h. x.grows (inv.truthful u h));
  }

pub some_signal-inj : {a b : Signal} → some a ≡ some b → a ≡ b
some_signal-inj e = cc

pub some-inj : {a b : ℕ} → some a ≡ some b → a ≡ b
some-inj e = cc

none≢some : {a : ℕ} → none ≡ some a → ⊥
none≢some e = cc

abbrev implies : Bool → Bool → Bool
implies a b = if a then b else true

implied : (a b : Bool) → implies a b ≡ true → a ≡ true → b ≡ true
implied true b e h = e
implied false b e h = absurd (true≢false (sym h))

-- The move from `old` to `p` makes no sleeper and takes no thread from those that will wake others.
abbrev Keeps : Pc → Pc → Type 0
Keeps old p =
    (implies (rests p) (rests old) ≡ true) × (implies (will_wake old) (will_wake p) ≡ true)

module _ {s : Signal} {t : ℕ} (inv : Inv s) {old : Pc} (p : Pc) (at : s.pc t ≡ old)
    (told : was_told p ≡ true → s.value ≡ true) (keeps : Keeps old p) where
  kept :
      (s.value ≡ true)
      → (s.value ≡ true)
        × (rests p ≡ true → rests (s.pc t) ≡ true)
        × (will_wake (s.pc t) ≡ true → will_wake p ≡ true)
  kept on = (
    on,
    (λ h. ap rests at ∙ implied (rests p) (rests old) keeps.0 h),
    (λ h. implied (will_wake old) (will_wake p) keeps.1 (sym (ap will_wake at) ∙ h)),
  )

  pub move-Inv : implies (holds p) (holds old) ≡ true → Inv (move s t p)
  move-Inv held = Sound-Inv inv (record {
    mine = λ h. inv.exclusive t (ap holds at ∙ implied (holds p) (holds old) held h);
    others = λ u ne h. h;
    grows = λ h. h;
    told = told;
    wakes = λ on. inl (kept on);
  })

  pub lock-Inv : s.owner ≡ none → Inv (lock s t p)
  unfolding lock
  lock-Inv free = Sound-Inv inv (record {
    mine = λ h. refl;
    others = λ u ne h. absurd (none≢some (sym free ∙ h));
    grows = λ h. h;
    told = told;
    wakes = λ on. inl (kept on);
  })

  pub unlock-Inv : holds old ≡ true → holds p ≡ false → Inv (unlock s t p)
  unfolding unlock
  unlock-Inv held gone = Sound-Inv inv (record {
    mine = λ h. absurd (true≢false (sym h ∙ gone));
    others = λ u ne h. absurd (true≢false (sym (other u h) ∙ ne));
    grows = λ h. h;
    told = told;
    wakes = λ on. inl (kept on);
  })
    where
      other : (u : ℕ) → s.owner ≡ some u → (u == t) ≡ true
      other u h = (==_iff u t).1 (some-inj (sym h ∙ inv.exclusive t (ap holds at ∙ held)))
