-- ===== src/Examples/Daemons.antt =====
-- tecc_daemon.h, examples/worker/worker.c and examples/worker/request.c at concrete workers.
use tecc.Base.{◌≡◌, refl, true, none, some, arith, ◌==◌, if◌then◌else◌}
use tecc.Base.Int.{ℤ, pos}
use tecc.Base.Heap.{Ptr, null, given, put, load, fill, free}
use tecc.Base.Run.{Run, ok, Returns}
use tecc.Map.Defs.{fnv_1a_loop, fnv_1a_64, same_key, slot, root_at, find_in_bucket, find_node, get}
use tecc.Map.Table.{view}
use tecc.Map.Cells.{find}
use tecc.Queue.Defs as QueueDefs
use tecc.Queue.Methods.{init_at}
use tecc.Worker.Messages.{Store, destruct, msg_free, set_signal, call_back, on_msg, dispatch}
use tecc.Worker.Defs.{Worker, is_zero}
use tecc.Worker.Serving.{dispatch_all}
use tecc.Worker.Daemons.{Answers, functions}
use tecc.Programs.WorkerMain.{worker_main}
use tecc.Programs.RequestMain.{request_main}
use tecc.Programs.Requesting.{request_main-rpc}
use tecc.Programs.Ends.{granted, script, behind, cleaned, worker_main-dispatch_all}
use tecc.Worker.Asking.{HandledFor}
use tecc.Examples.Maps.{pair, pair-IsTable}
use tecc.Examples.Workers.{
  World, recording, recording-KeepsRpc, letter, nothing, table-IsTable, memory, made,
}

steps : Unit {0}
unfolding view find fnv_1a_loop fnv_1a_64 same_key slot root_at find_in_bucket find_node get put
    load fill free destruct msg_free set_signal call_back on_msg dispatch dispatch_all
steps = tt

-- A call that is granted all it asks for.
abbrev answers : Answers
answers = record { locked = pos 0; created = pos 0; node = 8; rpc = 200; sig_ready = 300; fuel = 2 }

-- A worker that has the callback 10 for the tag of the letter.
abbrev answering : Worker World
answering = record made { callbacks = pair }

request_main-rpc_example :
    Returns
      (request_main
        (granted 2 null)
        answers
        (granted 2 16)
        (granted 2 null)
        (behind recording answering)
        100
        0)
      λ r.
        (w' : Worker World) × (h : HandledFor recording memory 200 300 100 0 10 w'.store) × (r
          ≡ some (some h.rpc_after.error, pos 0, cleaned recording w'))
        × (w'.sig_terminated ≡ true)
        × ((n : Ptr) → w'.queue.heap n ≡ none)
        × ((n : Ptr) → w'.callbacks.heap n ≡ none)
unfolding QueueDefs.init is_zero steps
request_main-rpc_example =
    request_main-rpc recording 2 answers answering 16 0 letter (omega arith) (omega arith) refl refl
      refl refl (init_at nothing (λ a. refl)) pair-IsTable (recording-KeepsRpc 200)
      (record { not_null = refl; unused = refl }) (record { not_null = refl; unused = refl })
      (record { not_null = refl; unused = refl }) (record { not_null = refl; holds = refl }) refl

abbrev quitting : Store World → Run (ℤ × Store World)
quitting s = ok (pos 1234, s)

-- Two messages stand at 100 and 101.
abbrev both : Store World
both = record memory {
  msgs = λ p. if p == 100 then some letter else if p == 101 then some letter else none;
}

abbrev ready : Worker World
ready = record made { on_exit = some quitting; store = both }

abbrev after_both : Store World
after_both = record both { msgs = put (put both.msgs 100 none) 101 none }

worker_main-dispatch_all_example :
    Returns (worker_main (script 3 8 16 24) (behind recording ready) 100 101) λ r.
      (w' : Worker World) × (r
        ≡ some
            (pos 1234, record { daemon = record (functions recording) { done = none }; self = w' }))
      × (w'.store ≡ after_both)
      × (w'.sig_terminated ≡ true)
      × ((n : Ptr) → w'.queue.heap n ≡ none)
      × ((n : Ptr) → w'.callbacks.heap n ≡ none)
unfolding steps QueueDefs.init is_zero given
worker_main-dispatch_all_example =
    worker_main-dispatch_all recording 3 ready {a = 8} {b = 16} {c = 24} 100 101 quitting
      {s' = after_both} (omega arith) refl refl refl refl (init_at nothing (λ a. refl))
      table-IsTable (record { not_null = refl; unused = refl })
      (record { not_null = refl; unused = refl }) (record { not_null = refl; unused = refl }) refl
      refl refl refl refl refl refl
