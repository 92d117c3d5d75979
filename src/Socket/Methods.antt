-- ===== src/Socket/Methods.antt =====
-- tecc_socket.c: the functions that open, connect, accept and transfer.
use tecc.Base.{
  ℕ, zero, suc, ◌&&◌, Option, none, some, List, [], ◌∷◌, ◌++◌, ◌==◌, if◌then◌else◌, length, take,
}
use tecc.Base.Heap.{Ptr, null}
use tecc.Base.Run.{out_of_fuel}
use tecc.Buffer.Bytes.{memcpy, peek}
use tecc.Buffer.Defs.{Buffer, Env}
use tecc.Buffer.Defs
use tecc.Socket.Os.{
  Outcome, failed, gives, Peer, ip4, ip6, other_family, Os, Io, ◌>>=◌, pure, lift, Query,
  getaddrinfo, sys_socket, sys_connect, sys_bind, sys_listen, sys_accept, setsockopt, getpeername,
  sys_read, sys_write,
}
use tecc.Socket.Defs.{
  Platform, Err, no_error, bad_fd, refused, unsupported, io, system, unresolved, is_ok, Params,
  Socket, is_valid, is_server, init, close,
}

-- The end of `get_socket_info`, from the answer of getpeername.
unfoldable pub set_peer : Socket → Outcome Peer → Err × Socket
set_peer s (failed e) = (system e, record s { port = none })
set_peer s (gives (ip4 addr port)) = (no_error, record s { addr = addr; port = some port })
set_peer s (gives (ip6 addr port)) = (no_error, record s { addr = addr; port = some port })
set_peer s (gives other_family) = (unsupported, record s { port = none })

unfoldable pub get_socket_info : Os → Socket → Io (Err × Socket)
get_socket_info os s = do o ← getpeername os s.fd; pure (set_peer s o)

-- The addresses `info` are kept with the descriptor, and lost where there is none.
unfoldable pub set_fd : Socket → Ptr → Outcome ℕ → Err × Socket
set_fd s info (failed e) = (system e, s)
set_fd s info (gives fd) = (no_error, record s { fd = some fd; pai = info })

unfoldable pub open_at : Os → Socket → Outcome Ptr → Io (Err × Socket)
open_at os s (failed e) = pure (unresolved e, s)
open_at os s (gives info) = do o ← sys_socket os info; pure (set_fd s info o)

-- The port is asked for as text.
unfoldable pub query : Params → Query
query p = record {
  addr = p.addr;
  port = p.port;
  family = p.family;
  socktype = p.socktype;
  flags = p.flags;
}

unfoldable pub open_socket : Platform → Os → Socket → Io (Err × Socket)
open_socket c os s =
    if s.params.socktype == c.sock_stream
    then (getaddrinfo os (query s.params) >>= λ o. open_at os s o)
    else pure (unsupported, s)

unfoldable pub connected : Os → Socket → Outcome (Unit {0}) → Io (Err × Socket)
connected os s (failed e) = do s' ← close s; pure (refused, s')
connected os s (gives _) = get_socket_info os s

unfoldable pub connect : Os → Socket → Io (Err × Socket)
connect os s =
    if is_valid s
    then (if s.pai == null
        then pure (bad_fd, s)
        else (sys_connect os s.fd s.pai >>= λ o. connected os s o))
    else pure (bad_fd, s)

-- The error that is kept is that of the last option which failed.
unfoldable pub option_err : Err → Outcome (Unit {0}) → Err
option_err err (failed e) = system e
option_err err (gives _) = err

unfoldable pub set_both_options : Os → Socket → Io Err
set_both_options os s = do
  o ← setsockopt os s.fd s.params.opt_reuse_addr
  o' ← setsockopt os s.fd s.params.opt_reuse_port
  pure (option_err (option_err no_error o) o')

unfoldable pub set_options : Platform → Os → Socket → Io Err
set_options c os s = if is_valid s && is_server c s then set_both_options os s else pure no_error

unfoldable pub bind : Os → Socket → Io Err
bind os s =
    if is_valid s
    then (if s.pai == null
        then pure bad_fd
        else (sys_bind os s.fd s.pai >>= λ o. pure (option_err no_error o)))
    else pure bad_fd

unfoldable pub listen : Os → Socket → Io Err
listen os s =
    if is_valid s
    then (sys_listen os s.fd s.params.queue_size >>= λ o. pure (option_err no_error o))
    else pure bad_fd

-- The client's buffer is the server's where its peer is known.
unfoldable pub share_buffer : Socket → Err × Socket → Socket
share_buffer s (err, cli) = if is_ok err then record cli { buf = s.buf } else cli

unfoldable pub accepted : Os → Socket → Socket → Outcome ℕ → Io Socket
accepted os s cli (failed e) = pure cli
accepted os s cli (gives fd) = do
  r ← get_socket_info os (record cli { fd = some fd })
  pure (share_buffer s r)

unfoldable pub accept : Env → Os → Socket → Io Socket
accept env os s = do cli ← lift (init env s.params); o ← sys_accept os s.fd; accepted os s cli o

-- The loop of `TecSocket_read`. `next` is the rest of the loop.
unfoldable pub received :
    Env
    → Socket
    → Buffer
    → (Socket → Buffer → Io (Err × Socket × Buffer))
    → Outcome (List ℕ)
    → Io (Err × Socket × Buffer)
received env s dst next (failed e) = pure (system e, s, dst)
received env s dst next (gives []) = pure (no_error, s, dst)
received env s dst next (gives (b ∷ bytes)) = do
  block ← lift (memcpy s.buf.contents 0 (b ∷ bytes))
  r ← lift (Defs.write env dst (take (length (b ∷ bytes)) block))
  next (record s { buf = record (s.buf) { contents = block } }) r.1

-- The system's answers say when the loop ends: the fuel bounds their number.
unfoldable pub read_loop : ℕ → Env → Os → Socket → Buffer → Io (Err × Socket × Buffer)
read_loop zero env os s dst = lift out_of_fuel
read_loop (suc fuel) env os s dst = do
  o ← sys_read os s.fd s.buf.capacity
  received env s dst (λ s' dst'. read_loop fuel env os s' dst') o

unfoldable pub sent : ℕ → Outcome ℕ → Err
sent size (failed e) = system e
sent size (gives n) = if size == n then no_error else io

unfoldable pub write : Os → Socket → Buffer → Io Err
write os s src = if src.size == 0 then pure no_error else do
  bytes ← lift (peek src.contents 0 src.size)
  o ← sys_write os s.fd bytes
  pure (sent src.size o)

-- A string without the null byte at its end, which is written too; `none` is NULL.
unfoldable pub write_str : Os → Socket → Option (List ℕ) → Io Err
write_str os s none = pure no_error
write_str os s (some str) =
    let len = Defs.int_size (suc (length str)) in
    write os s
      (record { contents = str ++ (0 ∷ []); pos = 0; size = len; capacity = len; block_size = 0 })
