-- ===== src/Examples/Queues.antt =====
-- tecc_queue.c at concrete queues.
use tecc.Base.{ℕ, ◌≡◌, refl, none, some, List, [], ◌∷◌, ◌++◌, arith, ◌==◌, if◌then◌else◌}
use tecc.Base.Heap.{null, Heap, put, given, load, fill, store, free}
use tecc.Base.Run.{ok}
use tecc.Queue.Defs.{Node, Queue, init, link_tail, push, pop, free_nodes, done}
use tecc.Queue.Line.{Cells, node, owns, single, cons, IsQueue}
use tecc.Queue.Calls.{Calls, begin, pushed, popped, Fifo, Calls-Fifo, Calls-pop}

program : Unit {0}
unfolding init link_tail push pop free_nodes done put given load fill store free owns
program = tt

abbrev nothing : Queue
nothing = record { heap = λ _. none; head = 0; tail = 0 }

abbrev nodes : Heap Node
nodes p = if p == 8 then some (node 10 16) else (if p == 16 then some (node 20 null) else none)

-- 10 at address 8, and 20 at address 16.
abbrev two : Queue
two = record { heap = nodes; head = 8; tail = 16 }

abbrev two_cells : Cells
two_cells = (8, 10) ∷ (16, 20) ∷ []

two-IsQueue : IsQueue two two_cells
unfolding program
two-IsQueue = record {
  line =
      cons (record { not_null = refl; holds = refl }) refl
        (single (record { not_null = refl; holds = refl }));
  owned = λ a out. ground arith;
}

abbrev one : Queue
one = record { heap = put nothing.heap 8 (some (node 10 null)); head = 8; tail = 8 }

one_pushed : Calls nothing (10 ∷ []) [] one
unfolding program
one_pushed = pushed 8 10 begin (record { not_null = refl; unused = refl }) refl

one_popped :
    Calls nothing (10 ∷ []) (10 ∷ []) (record { heap = put one.heap 8 none; head = 0; tail = 0 })
unfolding program
one_popped = popped 10 one_pushed refl

Calls-Fifo_example :
    Fifo (10 ∷ []) (10 ∷ []) (record { heap = put one.heap 8 none; head = 0; tail = 0 })
Calls-Fifo_example = Calls-Fifo (λ a. refl) one_popped

Calls-pop_example :
    (x : ℕ) × (rest : List ℕ) × ((10 ∷ []) ≡ (x ∷ []) ++ rest)
    × ((q' : Queue) × (pop one ≡ ok (some (x, q'))))
Calls-pop_example = Calls-pop (λ a. refl) one_pushed (omega arith)
