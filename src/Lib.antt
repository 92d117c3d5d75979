-- ===== src/Lib.antt =====
-- tecc, a C library: a growable buffer, a hash table, a queue, an arena, worker threads, a thread
-- pool, and TCP services on top of them. The containers stand alone; a worker owns a queue of
-- messages, a service runs in a worker, and TCP server and client are services. The thread pool
-- gives each task a buffer and a payload. Workers and service workers are called through a table of
-- functions, the daemon. This development covers the containers, the socket, the TCP client and
-- server, the time, the threads, the signal, the thread pool, the daemon, the worker and the
-- service worker, and three example programs.
--
-- Base holds what the parts share: Booleans on numbers (Base/Tests), lists (Base/Lists), signed
-- integers (Base/Int), the codes of characters (Base/Codes), runs that may fault or exceed the fuel
-- (Base/Run), and memory that holds nodes by address (Base/Heap). A fault is undefined behaviour of
-- the C code: a division by 0, an access outside a block, through NULL or of freed memory.
--
-- Buffer is tecc_buffer.c and tecc_buffer.h. Buffer/Bytes is memcpy and access to a block;
-- Buffer/Defs has the structure and the functions: `write` is TecBuffer_write, `read` is
-- TecBuffer_read, `seek` is TecBuffer_seek, `puts` is TecBuffer_puts, `ensure_capacity` and
-- `realloc_buffer` have their names, `init` is TecBuffer_init_ and `done` is TecBuffer_done;
-- Buffer/Hex has TecBuffer_as_hex, Buffer/Table TecBuffer_as_table and Buffer/Json TecBuffer_json;
-- sprintf and snprintf are parameters of the last two. A block is a list of bytes of the length of
-- its capacity; bytes that were never written are 0. Whether an allocation succeeds is a function
-- of its size in `Env`, together with the registered error handler. The proofs stand in
-- Buffer/Growth and Buffer/Limits (capacity), Buffer/Writing (write), Buffer/Access (read, seek),
-- Buffer/Overrun (writes that fault), Buffer/Text (puts), Buffer/Lifetime (init, done),
-- Buffer/HexText, Buffer/Printing and Buffer/Dump (hexadecimal text), and Buffer/Cells, Buffer/Rows
-- and Buffer/Tabling (the table).
--
-- Map is tecc_map.c and tecc_map.h. Map/Defs has the table and its nodes in a heap: `put_value` is
-- TecMap_set, `get` is TecMap_get, `remove` is TecMap_remove, `clear` is TecMap_clear, and the
-- others have the names of the source. The address that malloc returns for a new node is an
-- argument. A key is the bytes of its string, without the null byte at its end: the table keeps the
-- caller's pointer, and the model takes it that the string does not change while it is a key. A
-- value is a pointer, which the table never follows. Map/Cells and Map/Chain say what a bucket in
-- the heap stands for, Map/Links changes its links, Map/Table puts the buckets together (`IsTable`,
-- `view`), and Map/Methods, Map/Writing, Map/Removal and Map/Clearing take up the functions.
-- Map/Iter has the iterator and the loop that tecc_map.h shows, Map/Pairs the pairs of a table, and
-- Map/Visit says what the loop visits.
--
-- Queue is tecc_queue.c and tecc_queue.h. Queue/Defs has TecQueue_init, TecQueue_push, TecQueue_pop
-- and TecQueue_done under the last word of their names. A call holds the mutex, so that calls of
-- several threads come one after the other; a pop of an empty queue returns nothing, which stands
-- for the wait on the condition variable. What the signal wakes up is not modelled. Queue/Line says
-- which list the nodes stand for, Queue/Methods takes up the functions, and Queue/Calls sequences
-- of calls.
--
-- Arena is tecc_arena.c and tecc_arena.h. Arena/Defs has TecArena_init, TecArena_allocate,
-- TecArena_release and TecArena_done under the last word of their names. The memory gives the first
-- word of each element: its flags while it is in use, and the link of the free list while it is
-- not. An element is taken to be as large as a pointer at least. Arena/Pool says which slots are in
-- use and which are free, Arena/Slots what a change of a slot does, and Arena/Methods,
-- Arena/Releasing, Arena/Creation and Arena/Ending take up the functions.
--
-- Socket is tecc_socket.c and tecc_socket.h. Socket/Os has the system calls: the operating system
-- is a record of functions that answer a call from the log of the calls before it, so that nothing
-- is said of its answers but where a theorem has a hypothesis on them. Socket/Defs has the
-- parameters, the socket, TecSocket_init_, TecSocket_init_server, TecSocket_close and
-- TecSocket_done_, and Socket/Methods the other functions under the last words of their names:
-- `open_socket` is TecSocket_open, `read_loop` is TecSocket_read. Errors keep what they come from
-- in place of a number. The block of a buffer is copied with the buffer: of the two sockets that
-- share the server's block, what one reads is written out before the other reads. Socket/Counts
-- counts the descriptors and address lists of a log that were taken and given back, Socket/Balance
-- and Socket/Traffic say what each function does to them, Socket/Session takes up sequences of
-- calls, Socket/Accepting accepted clients and the writes, and Socket/Transfer the loop of reads.
--
-- TcpClient is tecc_tcp_client.c and tecc_tcp_client.h: `start` and `stop` are its start_ and
-- shutdown_, and the others have the names of the source. The mutex of a transfer makes it one
-- step. TcpClient/Lifecycle follows a client from its start to its end, TcpClient/Exchange what it
-- sends and receives.
--
-- TcpServer is tecc_tcp_server.c and tecc_tcp_server.h, for a server without a log: `start` and
-- `stop` are its start_ and shutdown_, `poll` is poll_ and `round` one round of its loop. The
-- handler of clients is a parameter, and so is what each test of the flag `running` sees.
-- TcpServer/Clients follows a client from its acceptance to its end, TcpServer/Lifecycle the
-- server. It is the server with no thread pool; of shutdown_, `stop` leaves out the flag that it
-- clears and its wait for the end of the loop, which the tests of the flag stand for.
--
-- Time is tecc_time.c and tecc_time.h: Time/Defs has the conversions between time points, seconds
-- with nanoseconds and the calendar, over a long long whose overflow is a fault; timespec_get,
-- gmtime_r and nanosleep are parameters. Time/Conversion and Time/Units have the proofs.
--
-- Threads is tecc_threads.h over POSIX threads: Threads/Defs has the macros that make and destroy
-- threads, mutexes and condition variables, over a system that keeps which of them exist;
-- Threads/Pairs takes up pairs of calls.
--
-- Signal is tecc_signal.c and tecc_signal.h. Signal/Defs has TecSignal_set and TecSignal_wait as
-- steps of any number of threads: each thread has a place in its code, and each step is one access
-- to the value, the mutex or the condition variable. Signal/Moves has an invariant and the moves
-- that keep it, and Signal/Waking says who may be asleep. `WaitForStep` has the steps of
-- TecSignal_wait_for, whose deadline is computed by `deadline` and taken up by Signal/Timing.
-- Signal/Objects has TecSignal_init and TecSignal_done, Signal/Lifetime their proofs. In the other
-- parts a signal is a flag that is set, and a wait for it is the point where its caller goes on.
--
-- ThreadPool is tecc_thread_pool.c and tecc_thread_pool.h: ThreadPool/Defs has TecThrPool_init and
-- TecThrPool_enqueue under the last word of their names, and `turn`, one round of the loop of
-- task_func. What malloc and calloc return is an argument, and the functions of tasks are a
-- parameter. The index of the next thread is an int of 32 bits, which wraps around. Calls of
-- enqueue come one after the other. ThreadPool/Payload is about the pieces of the payload arena,
-- ThreadPool/Enqueue about enqueue. ThreadPool/Threads has TecThrPool_run and TecThrPool_done with
-- the loop `task_loop` of a thread; ThreadPool/Starting, ThreadPool/Running and ThreadPool/Ending
-- take them up. While TecThrPool_done waits for one thread the others work too, which `nodes_done`
-- takes up when it comes to them; ThreadPool/Interleaving compares this with the threads taking
-- turns in any other way, for tasks of different threads that commute. ThreadPool/Closing has
-- TecThrPool_done as a relation, with the turns of all threads in any order between the steps of
-- its loop, and ThreadPool/Joining its proofs. A turn with its task is one step in all of these.
--
-- Daemon is tecc_daemon.h: Daemon/Defs has the table of functions in front of an object,
-- TecDaemon_init and the macros that call through the table, under the last words of their names.
-- The system's answers during a call are an argument of each function.
--
-- Worker is tecc_worker.c and tecc_worker.h, with tecc_message.h, tecc_rpc.c and tecc_rpc.h in
-- Worker/Messages: messages and signals in memory, and the handlers on_msg, on_rpc and dispatch. A
-- callback is a pointer; what the code there does is the parameter `Code`. Worker/Defs has the
-- worker and its functions: `turn` is one round of the loop of worker_func, `initialize` and
-- `leave` what it does before and after the loop, `run`, `terminate`, `send` and `done` are the
-- functions of the daemon, `ask` and `result` the two halves of TecWorker_rpc_, and `register` is
-- TecWorker_register_. The proofs: Worker/Serving (the loop against the messages of the queue),
-- Worker/Steps and Worker/Order (any interleaving of the thread with other threads that send,
-- register and terminate; what a callback sends or registers is such a call too), Worker/Starting
-- (failed starts), Worker/Handling and Worker/Requests (the handlers), Worker/Asking (requests from
-- other threads). Worker/Daemons puts the worker behind a daemon and has TecWorker_rpc_ as a whole,
-- Worker/Waiting its proofs.
--
-- ServiceWorker is tecc_service.c, tecc_service.h, tecc_service_worker.c and tecc_service_worker.h:
-- a worker whose hooks start and stop a service. What a service does is a parameter, `Service`; the
-- part of its start after the signal, such as the polling of the TCP server, runs beside the
-- worker. ServiceWorker/Defs has the two threads, the hooks and TecServiceWorker_init_,
-- ServiceWorker/Running what becomes of the service, and ServiceWorker/Daemons
-- TecServiceWorker_done_ and the table of functions.
--
-- Programs is examples/worker/worker.c in Programs/WorkerMain, examples/worker/request.c in
-- Programs/RequestMain and examples/socket/server.c in Programs/ServerMain, each from its run of
-- the worker on: they put the daemon, the worker and the service worker, the queue and the table of
-- callbacks together. Programs/Ends, Programs/Requesting and Programs/Serving say what becomes of
-- them.
--
-- Examples runs the functions and applies the theorems.
--
-- Fuel: the search of a bucket, its deletion and the loop of an iterator are given one more than
-- the number of nodes in the table, which is enough since a bucket of a well-formed table holds no
-- more nodes than the table; the release of a queue has its fuel as an argument, and more than its
-- nodes are enough. The loop of ensure_capacity, which raises a capacity by blocks until it reaches
-- the old one, is given one more than the old capacity, which is enough for a positive block size.
-- The sums and products of ensure_capacity and the hash wrap around at 64 bits, and the lengths of
-- strings that TecBuffer_puts and TecSocket_write_str keep in an int are cut to 32 bits; the other
-- sizes of the source are natural numbers, and the theorems on the buffer say how much room they
-- take it that there is.
--
-- The loop of TecSocket_read ends when the peer closes or a read fails, which is up to the system:
-- its fuel is one more than the number of chunks that come. The rounds of the TCP server end when
-- its flag is cleared: the fuel is one more than the clients accepted until then.
--
-- The message loop of a worker waits for as long as nobody sends: `message_loop` and `terminate`
-- have as fuel the number of turns, and one more than the messages that wait are enough.
--
-- A request through the daemon is answered by one turn of the worker, so that two units of fuel are
-- enough. `task_loop` and `nodes_done` have the fuel of the turns that a thread of the pool takes
-- until it gets NULL: more than the tasks of its queue are enough. The cells of TecBuffer_as_table
-- are given one more than the start and the length of the text together, which is enough since each
-- round takes up a place before the start or two characters.
--
-- Not modelled: locks of TecSignal_set that fail; the log of the TCP server, and its start_ where a
-- thread pool is attached, with the hand-over of clients to the pool; the back link of a service to its
-- owner; dispatchers and handlers of a worker that replace the default ones; the variant of
-- tecc_threads.h over standard C threads, and its locks and waits, which the parts that use them
-- take up; tecc_trace, which prints; tecc_def.h and tecc_memory.h; the other example programs.
pub mod Base
pub mod Buffer
pub mod Map
pub mod Queue
pub mod Arena
pub mod Time
pub mod Threads
pub mod Socket
pub mod TcpClient
pub mod TcpServer
pub mod Signal
pub mod ThreadPool
pub mod Daemon
pub mod Worker
pub mod ServiceWorker
pub mod Programs
pub mod Examples
