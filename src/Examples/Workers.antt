-- ===== src/Examples/Workers.antt =====
-- tecc_worker.c at concrete workers.
use tecc.Base.{ℕ, ◌≡◌, refl, true, false, none, some, List, [], ◌∷◌, arith, ◌==◌, if◌then◌else◌}
use tecc.Base.Int.{pos}
use tecc.Base.Heap.{Ptr, null, put, given, load, fill, store, free}
use tecc.Base.Run.{ok, ◌>>=◌}
use tecc.Map.Defs.{
  Key, Map, fnv_1a_loop, fnv_1a_64, same_key, slot, root_at, find_in_bucket, find_node, get,
}
use tecc.Map.Defs as MapDefs
use tecc.Map.Table.{IsTable, view}
use tecc.Map.Clearing.{init-IsTable}
use tecc.Queue.Defs.{Queue, link_tail, push, pop}
use tecc.Queue.Defs as QueueDefs
use tecc.Queue.Line.{IsQueue, node, single, owns}
use tecc.Queue.Calls.{Fifo}
use tecc.Worker.Messages.{
  other, Msg, Store, Code, rpc_init, as_rpc, destruct, msg_free, set_signal, call_back, on_msg,
  set_error, request_tag, answer, set_ready, on_rpc, dispatch,
}
use tecc.Worker.Defs.{
  Worker, Granted, is_zero, init, register, send, call_hook, initialize, leave, process, taken,
  turn, proceed, message_loop, leave_after, finish, joined_on_error, run, joined, wait_terminated,
  terminate, ask, result,
}
use tecc.Worker.Serving.{has_null, dispatch_all, ended, terminate-dispatch_all}
use tecc.Worker.Order.{starting, Trace, created, sends, Stage, Trace-Fifo}
use tecc.Worker.Handling.{KeepsMsg}
use tecc.Worker.Requests.{KeepsRpc}

program : Unit {0}
unfolding fnv_1a_loop fnv_1a_64 same_key slot root_at find_in_bucket find_node get MapDefs.init
    link_tail push pop QueueDefs.init owns put given load fill store free rpc_init as_rpc destruct
    msg_free set_signal call_back on_msg set_error request_tag answer set_ready on_rpc dispatch
    is_zero init register send call_hook initialize leave process taken turn proceed message_loop
    leave_after finish joined_on_error run joined wait_terminated terminate ask result has_null
    dispatch_all ended view
program = tt

-- A program that keeps a list of the messages that reached a callback.
abbrev pub World : Type 0
World = List ℕ

abbrev pub recording : Code World
recording = record {
  callback = λ c p s. ok (record s { world = p ∷ s.world });
  destructor = λ d p s. ok s;
}

abbrev pub nothing : Queue
nothing = record { heap = λ _. none; head = 0; tail = 0 }

abbrev no_table : Map
no_table = record { heap = λ _. none; nodes = []; size = 0; capacity = 0 }

abbrev pub letter : Msg
letter = record { tag = 97 ∷ []; done = null; body = other }

-- A message stands at 100.
abbrev pub memory : Store World
memory = record {
  msgs = λ p. if p == 100 then some letter else none;
  signals = λ _. none;
  world = [];
}

abbrev raw : Worker World
raw = record {
  hash_table_size = 7;
  error = pos 7;
  sig_running = true;
  sig_terminated = true;
  queue = nothing;
  callbacks = no_table;
  on_init = none;
  on_exit = none;
  joinable = false;
  store = memory;
}

abbrev all : Granted
all = record {
  sig_running = true;
  sig_terminated = true;
  queue = true;
  callbacks = true;
  lock = true;
}

abbrev table : Map
table = record { heap = λ _. none; nodes = null ∷ []; size = 0; capacity = 1 }

abbrev pub made : Worker World
made = record raw {
  hash_table_size = 1;
  error = pos 0;
  sig_running = false;
  sig_terminated = false;
  callbacks = table;
}

made_test : init all raw 1 ≡ (true, made)
unfolding program
made_test = refl

pub table-IsTable : IsTable table (λ _. [])
unfolding program
table-IsTable = (init-IsTable no_table 1 (λ a. refl)).1

-- The message of 100 waits in the queue.
abbrev sent : Worker World
sent = record made {
  queue = record { heap = put nothing.heap 8 (some (node 100 null)); head = 8; tail = 8 };
}

sent-IsQueue : IsQueue sent.queue ((8, 100) ∷ [])
unfolding program
sent-IsQueue = record {
  line = single (record { not_null = refl; holds = refl });
  owned = λ a out. ground arith;
}

sent-Trace : Trace recording raw (100 ∷ []) [] starting sent
unfolding program
sent-Trace = sends 8 100 (created all 1 refl) (record { not_null = refl; unused = refl }) refl

Trace-Fifo_example : Fifo (100 ∷ []) [] sent.queue × Stage [] sent starting
Trace-Fifo_example = Trace-Fifo (λ a. refl) sent-Trace

-- The message is handled and freed before the thread ends.
terminate_test :
    (terminate 3 recording sent 16 >>= λ r. ok (elim r [ none ↦ pos 9 | some (err, w) ↦ err ]))
    ≡ ok (pos 0)
unfolding program
terminate_test = refl

terminate-dispatch_all_example :
    (q : Queue) × IsQueue q []
    × (terminate 3 recording sent 16 ≡ (
        dispatch_all recording sent.callbacks sent.store (100 ∷ []) >>= λ s.
        ended recording sent q s))
unfolding program
terminate-dispatch_all_example =
    terminate-dispatch_all recording 3 sent {p = 16} sent-IsQueue refl
      (record { not_null = refl; unused = refl }) (omega arith) refl refl

recording-KeepsMsg : (p : Ptr) → KeepsMsg recording p
recording-KeepsMsg p s callback t =
    (_, refl, record { msg = t.msg; here = t.here; no_destructor = t.no_destructor })

pub recording-KeepsRpc : (p : Ptr) → KeepsRpc recording p
recording-KeepsRpc p s callback r t sig =
    (_, refl, (r, record { msg = t.msg; here = t.here; is_rpc = t.is_rpc }, refl, sig))
