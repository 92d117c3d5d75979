-- ===== src/ThreadPool/Starting.antt =====
-- `TecThrPool_run`.
use tecc.Base.{
  ℕ, suc, ◌≡◌, refl, ap, ◌∙◌, Bool, true, false, ◌&&◌, List, [], ◌∷◌, arith, map, length, replicate,
}
use mathlib.Core.Path.{ap₂}
use tecc.ThreadPool.Defs.{TaskNode, Pool}
use tecc.ThreadPool.Threads.{node_run, run_nodes, run}

abbrev joinable_of : TaskNode → Bool
joinable_of node = node.joinable

abbrev pub all_created : List Bool → Bool
all_created [] = true
all_created (c ∷ created) = c && all_created created

-- The threads up to the first that the system refuses.
abbrev pub up_to_first : List Bool → List Bool
up_to_first [] = []
up_to_first (true ∷ created) = true ∷ up_to_first created
up_to_first (false ∷ created) = false ∷ replicate (length created) false

-- No thread of the nodes was created yet.
abbrev pub NoneJoinable : List TaskNode → Type 0
NoneJoinable [] = Unit
NoneJoinable (node ∷ nodes) = (node.joinable ≡ false) × NoneJoinable nodes

replicate-false :
    (nodes : List TaskNode)
    → NoneJoinable nodes
    → map joinable_of nodes ≡ replicate (length nodes) false
replicate-false [] none = refl
replicate-false (node ∷ nodes) (e, none) = ap₂ ◌∷◌ e (replicate-false nodes none)

suc-inj : {m n : ℕ} → suc m ≡ suc n → m ≡ n
suc-inj e = omega arith

run_nodes_lem :
    (created : List Bool) (nodes : List TaskNode)
    → length created ≡ length nodes
    → NoneJoinable nodes
    → ((run_nodes created nodes).0 ≡ all_created created)
      × (map joinable_of (run_nodes created nodes).1 ≡ up_to_first created)
unfolding run_nodes node_run
run_nodes_lem [] [] e none = (refl, refl)
run_nodes_lem [] (node ∷ nodes) e none = absurd (omega arith)
run_nodes_lem (c ∷ created) [] e none = absurd (omega arith)
run_nodes_lem (true ∷ created) (node ∷ nodes) e none =
    let (done, joinable) = run_nodes_lem created nodes (suc-inj e) none.1 in
    (done, ap (◌∷◌ true) joinable)
run_nodes_lem (false ∷ created) (node ∷ nodes) e none = (
  refl,
  ap (◌∷◌ false) (replicate-false nodes none.1 ∙ ap (λ (n : ℕ). replicate n false) (omega arith)),
)

-- TecThrPool_run of a pool none of whose threads was created: it returns true exactly where the system
-- creates all of them. It stops at the first that is refused: those before it run, and are joined
-- when the pool ends, those behind it were not asked for.
pub run_lem :
    (created : List Bool) (self : Pool)
    → length created ≡ length self.nodes
    → NoneJoinable self.nodes
    → ((run created self).0 ≡ all_created created)
      × (map (λ node. node.joinable) (run created self).1.nodes ≡ up_to_first created)
unfolding run
run_lem created self e none = run_nodes_lem created self.nodes e none
