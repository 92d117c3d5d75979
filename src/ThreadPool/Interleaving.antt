-- ===== src/ThreadPool/Interleaving.antt =====
-- `TecThrPool_done`, whichever way the threads take turns while it waits for them.
use tecc.Base.{◌≡◌, List, [], ◌∷◌}
use tecc.Base.Run.{Run, ◌>>=◌}
use tecc.ThreadPool.Defs.{Task, Memory, Code, call}

-- The tasks of two lists in turns, those of each in their order.
pub data Shuffle : List Task → List Task → List Task → Type 0 where
  ended : Shuffle [] [] []
  left : {ts us vs : List Task} (t : Task) → Shuffle ts us vs → Shuffle (t ∷ ts) us (t ∷ vs)
  right : {ts us vs : List Task} (u : Task) → Shuffle ts us vs → Shuffle ts (u ∷ us) (u ∷ vs)

-- The tasks of all threads in turns, those of each in their order.
pub data Interleaved : List (List Task) → List Task → Type 0 where
  no_thread : Interleaved [] []
  thread :
      {tss : List (List Task)} {us vs : List Task} (ts : List Task)
      → Interleaved tss us
      → Shuffle ts us vs
      → Interleaved (ts ∷ tss) vs

module _ {World : Type 0} (code : Code World) where
  -- One task has the same effect before and after the other.
  abbrev pub Commute : Task → Task → Type 0
  Commute t u =
      (mem : Memory World)
      → (call code t mem >>= λ m. call code u m) ≡ (call code u mem >>= λ m. call code t m)

  abbrev pub CommuteWith : List Task → Task → Type 0
  CommuteWith [] u = Unit
  CommuteWith (t ∷ ts) u = Commute t u × CommuteWith ts u

  abbrev pub CommuteAll : List Task → List Task → Type 0
  CommuteAll ts [] = Unit
  CommuteAll ts (u ∷ us) = CommuteWith ts u × CommuteAll ts us

  abbrev pub CommuteEach : List Task → List (List Task) → Type 0
  CommuteEach ts [] = Unit
  CommuteEach ts (us ∷ tss) = CommuteAll ts us × CommuteEach ts tss

  -- Tasks of different threads commute.
  abbrev pub Independent : List (List Task) → Type 0
  Independent [] = Unit
  Independent (ts ∷ tss) = CommuteEach ts tss × Independent tss
