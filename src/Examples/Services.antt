-- ===== src/Examples/Services.antt =====
-- tecc_service_worker.c at a small service.
use tecc.Base.{ℕ, ◌+◌, ◌≡◌, refl, true, false, none, some, [], ◌∷◌, arith, ◌==◌, if◌then◌else◌}
use tecc.Base.Int.{pos}
use tecc.Base.Heap.{null}
use tecc.Base.Run.{Run, ok, Returns}
use tecc.Map.Table.{IsTable}
use tecc.Map.Clearing.{init-IsTable}
use tecc.Map.Defs.{Map}
use tecc.Map.Defs as MapDefs
use tecc.Queue.Defs.{Queue}
use tecc.Queue.Defs as QueueDefs
use tecc.Queue.Line.{IsQueue}
use tecc.Queue.Methods.{init_at}
use tecc.Worker.Messages.{Store, Code}
use tecc.Worker.Defs.{Worker, Granted, is_zero, run, terminate}
use tecc.Worker.Defs as WorkerDefs
use tecc.Worker.Serving.{has_null, dispatch_all}
use tecc.ServiceWorker.Defs.{Service, ServiceState, on_init, on_exit, init}
use tecc.ServiceWorker.Running.{terminate-shutdown}
use tecc.Programs.ServerMain.{server_main}
use tecc.Programs.Ends.{granted}
use tecc.Programs.Serving.{released, behind, cleaned, Outcome, server_main-shutdown}

program : Unit {0}
unfolding MapDefs.init QueueDefs.init WorkerDefs.init init on_init on_exit is_zero has_null
    dispatch_all
program = tt

-- A service that counts: it starts unless it counts 3, and a shutdown counts on.
abbrev counting : Service ℕ
counting = record {
  start = λ n. ok (if n == 3 then pos 5 else pos 0, n);
  shutdown = λ n. ok (n + 1);
}

abbrev nothing : Queue
nothing = record { heap = λ _. none; head = 0; tail = 0 }

abbrev no_table : Map
no_table = record { heap = λ _. none; nodes = []; size = 0; capacity = 0 }

abbrev state : ℕ → ServiceState ℕ
state n = record {
  service = n;
  error = pos 0;
  sig_started = false;
  sig_stopped = false;
  joinable = false;
}

abbrev store_of : ℕ → Store (ServiceState ℕ)
store_of n = record { msgs = λ _. none; signals = λ _. none; world = state n }

abbrev idle : ℕ → Worker (ServiceState ℕ)
idle n = record {
  hash_table_size = 1;
  error = pos 0;
  sig_running = false;
  sig_terminated = false;
  queue = nothing;
  callbacks = record no_table { nodes = 0 ∷ []; capacity = 1 };
  on_init = on_init counting (pos 0);
  on_exit = on_exit counting (pos 0);
  joinable = false;
  store = store_of n;
}

abbrev all : Granted
all = record {
  sig_running = true;
  sig_terminated = true;
  queue = true;
  callbacks = true;
  lock = true;
}

init_test :
    init all true true counting
      (pos 0)
      (pos 0)
      (record (idle 3) { callbacks = no_table; on_init = none; on_exit = none })
      1
    ≡ (true, idle 3)
unfolding program
init_test = refl

abbrev quiet : Code (ServiceState ℕ)
quiet = record { callback = λ c p s. ok s; destructor = λ d p s. ok s }

abbrev idle_ended : Queue → Worker (ServiceState ℕ)
idle_ended q = record (idle 1) {
  queue = q;
  store = record (store_of 1) {
    world = record (state 1) { service = 2; sig_stopped = true; joinable = false };
  };
  sig_terminated = true;
  joinable = false;
}

terminate-shutdown_example :
    (q : Queue) × IsQueue q [] × (terminate 2 quiet (idle 1) 8 ≡ ok (some (pos 0, idle_ended q)))
unfolding program
terminate-shutdown_example =
    terminate-shutdown counting quiet 2 (idle 1) 8 (init_at nothing (λ a. refl)) refl
      (record { not_null = refl; unused = refl }) (omega arith) refl refl refl refl refl

idle-IsTable : IsTable (idle 1).callbacks (λ _. [])
unfolding program
idle-IsTable = (init-IsTable no_table 1 (λ a. refl)).1

-- The release counts on by 10.
abbrev freeing : ℕ → Run ℕ
freeing n = ok (n + 10)

server_main-shutdown_example :
    Returns
      (server_main
        (released counting freeing quiet)
        true
        (granted 2 null)
        (granted 2 8)
        (granted 2 null)
        (behind counting freeing quiet (idle 1)))
      λ r.
        (w' : Worker (ServiceState ℕ)) × (r ≡ some (pos 0, cleaned counting freeing quiet w'))
        × Outcome counting freeing quiet (pos 0) 11 12 w'.store.world.service
        × (w'.sig_terminated ≡ true)
        × ((n : ℕ) → w'.queue.heap n ≡ none)
        × ((n : ℕ) → w'.callbacks.heap n ≡ none)
unfolding program
server_main-shutdown_example =
    server_main-shutdown counting freeing quiet 2 8 (idle 1) (omega arith) refl refl refl refl
      (init_at nothing (λ a. refl)) idle-IsTable (record { not_null = refl; unused = refl }) refl
      refl refl refl
