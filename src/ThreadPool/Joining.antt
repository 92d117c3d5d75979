-- ===== src/ThreadPool/Joining.antt =====
-- What TecThrPool_done leaves, however the threads take turns while it waits for them.
use mathlib.Core.Path.{subst}
use mathlib.Core.Bool.{true≢false}
use tecc.Base.{
  ℕ, ◌≡◌, inl, inr, refl, sym, ap, ◌∙◌, false, Option, none, some, List, [], ◌∷◌, ◌++◌, ◌==◌,
  append-nil,
}
use tecc.Base.Heap.{Ptr, null, IsFresh}
use tecc.Base.Run.{Run, ok, fault, out_of_fuel, ◌>>=◌, Returns}
use tecc.Queue.Defs.{Queue, push}
use tecc.Queue.Line.{Cells, IsQueue}
use tecc.Queue.Methods.{push-IsQueue, pop-IsQueue, pop_waits}
use tecc.Arena.Defs.{release}
use tecc.Arena.Pool.{without, IsPool}
use tecc.Arena.Releasing.{release-IsPool}
use tecc.ThreadPool.Defs.{Task, TaskNode, Memory, Code, call, turn, taken}
use tecc.ThreadPool.Running.{Lined, Lined-moved, run_all, turn-null, turn_calls}
use tecc.ThreadPool.Closing.{
  TurnIn, here, there, Closing, finishes, skips, tells, works, joins, others, Picks, first, later,
  InTurns, over, takes, Works, AllWork,
}

ok-inj : {A : Type 0} {a b : A} → ok a ≡ ok b → a ≡ b
ok-inj e = cc

some-inj : {A : Type 0} {a b : A} → some a ≡ some b → a ≡ b
some-inj e = cc

none≢some : {A : Type 0} {a : A} → none ≡ some a → ⊥
none≢some e = cc

bound-ok :
    {A B : Type 0} (m : Run A) (f : A → B) {b : B}
    → (m >>= λ a. ok (f a)) ≡ ok b
    → Returns m (λ a. f a ≡ b)
bound-ok out_of_fuel f e = cc
bound-ok fault f e = cc
bound-ok (ok a) f e = (a, refl, ok-inj e)

module _ {World : Type 0} (code : Code World) where
  -- What a turn of a thread with a task gives.
  abbrev After :
      TaskNode → Cells → Task → List Task → Memory World → Ptr × TaskNode × Memory World → Type 0
  After node behind t ts mem r =
      ((r.0 == null) ≡ false)
      × (r.1.joinable ≡ node.joinable)
      × Works behind r.1 ts
      × (call code t mem ≡ ok r.2)

  turn-Works :
      {behind : Cells} {node : TaskNode} {t : Task} {ts : List Task} (mem : Memory World)
      (r : Ptr × TaskNode × Memory World)
      → Works behind node (t ∷ ts)
      → turn code node mem ≡ ok (some r)
      → After node behind t ts mem r
  turn-Works {behind} {node} {t} {ts} mem r w run = taken_first w.cells w.line w.pool w.tasks
    where
      taken_first :
          (cells : Cells) {live frees : List ℕ}
          → IsQueue node.q (cells ++ behind)
          → IsPool node.arena live frees
          → Lined node.arena node.tasks live cells (t ∷ ts)
          → After node behind t ts mem r
      taken_first [] line pool l = absurd l
      taken_first ((p, x) ∷ cells) {live} line pool (i, at_slot, inside, given, l) =
          let (q, popped, line') = pop-IsQueue line in
          let (a, freed, (frees', pool', same, size)) = release-IsPool i pool inside in
          let freed_here : release node.arena x ≡ ok a = rw at_slot freed in
          let node₁ : TaskNode = record node { q = q; arena = a } in
          let (m, called, e) =
            bound-ok (call code t mem) (λ m. some (x, node₁, m))
              (sym (turn_calls code node q x t a mem popped given freed_here) ∙ run) in
          let left : Works behind node₁ ts = record {
            cells = cells;
            live = without i live;
            frees = frees';
            line = line';
            pool = pool';
            tasks = Lined-moved node.arena a node.tasks (without i live) cells ts same size l;
          } in
          subst (λ (r : Ptr × TaskNode × Memory World). After node behind t ts mem r) (some-inj e)
            (given.not_null, refl, left, called)

  turn_waits :
      (node : TaskNode) (mem : Memory World) → IsQueue node.q [] → turn code node mem ≡ ok none
  unfolding turn taken
  turn_waits node mem line = rw (pop_waits line)

  idle_turn :
      {node : TaskNode} (mem : Memory World) (r : Ptr × TaskNode × Memory World)
      → Works [] node []
      → turn code node mem ≡ ok (some r)
      → ⊥
  idle_turn {node} mem r w run = no_task w.cells w.live w.line w.tasks
    where
      no_task :
          (cells : Cells) (live : List ℕ)
          → IsQueue node.q (cells ++ [])
          → Lined node.arena node.tasks live cells []
          → ⊥
      no_task [] live line l = none≢some (ok-inj (sym (turn_waits node mem line) ∙ run))
      no_task (c ∷ cells) live line l = l

  turn_last :
      {node : TaskNode} (mem : Memory World) (n : Ptr) (r : Ptr × TaskNode × Memory World)
      → Works ((n, null) ∷ []) node []
      → turn code node mem ≡ ok (some r)
      → (null ≡ r.0) × (mem ≡ r.2)
  turn_last {node} mem n r w run = told w.cells w.live w.line w.tasks
    where
      told :
          (cells : Cells) (live : List ℕ)
          → IsQueue node.q (cells ++ ((n, null) ∷ []))
          → Lined node.arena node.tasks live cells []
          → (null ≡ r.0) × (mem ≡ r.2)
      told (c ∷ cells) live line l = absurd l
      told [] live line l =
          let (q, popped, _) = pop-IsQueue line in
          let e = some-inj (ok-inj (sym (turn-null code node q mem popped) ∙ run)) in
          (ap (λ x. x.0) e, ap (λ x. x.2) e)

  -- A turn among the threads that are not waited for takes the first task of one of them.
  turned :
      {nodes nodes' : List TaskNode} {mem mem' : Memory World} {tss : List (List Task)}
      → TurnIn code nodes mem nodes' mem'
      → AllWork nodes tss
      → (t : Task) × (tss' : List (List Task)) × Picks tss t tss'
        × AllWork nodes' tss'
        × (call code t mem ≡ ok mem')
  turned {tss = []} (here task up run) all = absurd all
  turned {tss = []} (there node turn) all = absurd all
  turned {tss = ts ∷ tss} (here task up run) (inr (down, e), all) =
      absurd (true≢false (sym up ∙ down))
  turned {mem} {tss = [] ∷ tss} (here task up run) (inl (_, w), all) =
      absurd (idle_turn mem _ w run)
  turned {mem} {tss = (t ∷ ts) ∷ tss} (here task up run) (inl (joinable, w), all) =
      let (_, same, w', called) = turn-Works mem _ w run in
      (t, ts ∷ tss, first t ts, (inl (same ∙ joinable, w'), all), called)
  turned {tss = ts ∷ tss} (there node turn) (one, all) =
      let (t, tss', picks, all', called) = turned turn all in
      (t, ts ∷ tss', later ts picks, (one, all'), called)

  skip_none :
      {tss : List (List Task)} {turns : List Task} → InTurns tss turns → InTurns ([] ∷ tss) turns
  skip_none (over all) = over (refl, all)
  skip_none (takes picks rest) = takes (later [] picks) (skip_none rest)

  -- The thread that is waited for has tasks and a NULL behind them.
  abbrev IsTold : Option TaskNode → List Task → Type 0
  IsTold none ts = ts ≡ []
  IsTold (some node) ts = (n : Ptr) × Works ((n, null) ∷ []) node ts

  abbrev freed : Memory World → Run (Memory World)
  freed mem = ok (record mem { buffers = none; payloads = none })

  abbrev Outcome : List (List Task) → Memory World → Memory World → Type 0
  Outcome tss mem mem' =
      (turns : List Task) × InTurns tss turns × ((run_all code turns mem >>= freed) ≡ ok mem')

  told_lem :
      {node node' : TaskNode} {ts : List Task} {n : Ptr}
      → IsFresh node.q.heap n
      → Works [] node ts
      → (push node.q n null >>= λ q. ok (record node { q = q })) ≡ ok node'
      → IsTold (some node') ts
  told_lem {node} {ts} {n} fresh w run =
      let line : IsQueue node.q w.cells =
        subst (λ (cells : Cells). IsQueue node.q cells) (append-nil w.cells) w.line in
      let (q, pushed, line') = push-IsQueue null line fresh in
      let (q', pushed', e) = bound-ok (push node.q n null) (λ q. record node { q = q }) run in
      let same : record node { q = q } ≡ _ =
        ap (λ (q : Queue). record node { q = q }) (ok-inj (sym pushed ∙ pushed')) ∙ e in
      subst (λ (node : TaskNode). IsTold (some node) ts) same
        (
          n,
          record {
            cells = w.cells;
            live = w.live;
            frees = w.frees;
            line = line';
            pool = w.pool;
            tasks = w.tasks;
          },
        )

  taken_turn :
      {tss tss' : List (List Task)} (t : Task) (mem mem₁ mem' : Memory World)
      → Picks tss t tss'
      → call code t mem ≡ ok mem₁
      → Outcome tss' mem₁ mem'
      → Outcome tss mem mem'
  unfolding run_all
  taken_turn t mem mem₁ mem' picks called (turns, rest, run) =
      (t ∷ turns, takes picks rest, rw called run)

  skipped :
      {tss : List (List Task)} (mem mem' : Memory World)
      → Outcome tss mem mem'
      → Outcome ([] ∷ tss) mem mem'
  skipped mem mem' (turns, rest, run) = (turns, skip_none rest, run)

  closing_lem :
      {waited : Option TaskNode} {nodes : List TaskNode} {mem mem' : Memory World} {us : List Task}
      {tss : List (List Task)}
      → Closing code waited nodes mem mem'
      → IsTold waited us
      → AllWork nodes tss
      → Outcome (us ∷ tss) mem mem'
  unfolding run_all
  closing_lem {tss = []} finishes told all = ([], over (told, tt), refl)
  closing_lem {tss = ts ∷ tss} finishes told all = absurd all
  closing_lem {tss = []} (skips fuel down cleared rest) told all = absurd all
  closing_lem {tss = ts ∷ tss} (skips fuel down cleared rest) told (inl (up, w), all) =
      absurd (true≢false (sym up ∙ down))
  closing_lem {mem} {mem'} {us} {tss = ts ∷ tss} (skips fuel down cleared rest) told
        (inr (_, none_there), all) =
      subst (λ (us : List Task). Outcome (us ∷ ts ∷ tss) mem mem') (sym told)
        (subst (λ (ts : List Task). Outcome ([] ∷ ts ∷ tss) mem mem') (sym none_there)
          (skipped _ _ (closing_lem rest refl all)))
  closing_lem {tss = []} (tells n up fresh run rest) told all = absurd all
  closing_lem {mem} {mem'} {us} {tss = ts ∷ tss} (tells n up fresh run rest) told
        (inl (_, w), all) =
      subst (λ (us : List Task). Outcome (us ∷ ts ∷ tss) mem mem') (sym told)
        (skipped _ _ (closing_lem rest (told_lem fresh w run) all))
  closing_lem {tss = ts ∷ tss} (tells n up fresh run rest) told (inr (down, _), all) =
      absurd (true≢false (sym up ∙ down))
  closing_lem {mem} {us = []} (works task run some_task rest) (n, w) all =
      absurd (true≢false (ap (λ (x : Ptr). x == null) (turn_last mem n _ w run).0 ∙ some_task))
  closing_lem {mem} {us = u ∷ us} (works task run some_task rest) (n, w) all =
      let (_, _, w', called) = turn-Works mem _ w run in
      taken_turn u _ _ _ (first u us) called (closing_lem rest (n, w') all)
  closing_lem {mem} {us = u ∷ us} (joins fuel run cleared rest) (n, w) all =
      let (some_task, _, _, _) = turn-Works mem _ w run in absurd (true≢false some_task)
  closing_lem {mem} {mem'} {us = []} {tss} (joins fuel run cleared rest) (n, w) all =
      subst (λ (m : Memory World). Outcome ([] ∷ tss) m mem') (sym (turn_last mem n _ w run).1)
        (closing_lem rest refl all)
  closing_lem {us} (others turn rest) told all =
      let (t, tss', picks, all', called) = turned turn all in
      taken_turn t _ _ _ (later us picks) called (closing_lem rest told all')

  none_told :
      {tss : List (List Task)} {turns : List Task} → InTurns ([] ∷ tss) turns → InTurns tss turns
  none_told (over (_, all)) = over all
  none_told (takes (later [] picks) rest) = takes picks (none_told rest)

-- A call of TecThrPool_done of a pool whose threads have well-formed queues and arenas and a slot in
-- use for each task that waits, and of which the threads that were created take turns in any way
-- while it tells one after the other to end and waits for it, a turn with its task being one step:
-- if it ends, the tasks that waited for these threads were called, all of them, each once and those
-- of a thread in the order of its queue, one after the other in the order in which they were taken,
-- and both arenas are freed. The tasks of threads that were not created were not called.
pub Closing-InTurns :
    {World : Type 0} (code : Code World) {nodes : List TaskNode} {tss : List (List Task)}
    {mem mem' : Memory World}
    → Closing code none nodes mem mem'
    → AllWork nodes tss
    → (turns : List Task) × InTurns tss turns
      × ((run_all code turns mem >>= λ m. ok (record m { buffers = none; payloads = none }))
          ≡ ok mem')
Closing-InTurns code closing all =
    let (turns, in_turns, run) = closing_lem code closing refl all in
    (turns, none_told code in_turns, run)
