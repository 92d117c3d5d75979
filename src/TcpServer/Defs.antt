-- ===== src/TcpServer/Defs.antt =====
-- tecc_tcp_server.c and tecc_tcp_server.h, with no thread pool and no log, as a server is made. The
-- handler of clients is code outside the library. Another thread stops the server: what a test of
-- `running` sees is a function of the calls made before it.
use tecc.Base.{ℕ, zero, suc, Bool, true, false, if◌then◌else◌}
use tecc.Base.Run.{ok, out_of_fuel}
use tecc.Buffer.Defs.{Buffer, Env}
use tecc.Buffer.Defs as BufDefs
use tecc.Socket.Os.{Os, Log, Io, ◌>>=◌, pure, lift}
use tecc.Socket.Defs.{
  Platform, Err, no_error, is_ok, Params, Socket, is_fd, is_valid, init_server, close,
}
use tecc.Socket.Defs as SockDefs
use tecc.Socket.Methods.{open_socket, set_options, bind, listen, accept}

-- The status that a handler returns, and the client's socket after it.
abbrev pub ClientFunc : Type 0
ClientFunc = Socket → Io (ℕ × Socket)

pub record Server : Type 0 where
  pub socket_params : Params
  pub sock : Socket
  pub polling_stopped : Bool
  pub buffer : Buffer
  pub client_proc : ClientFunc

-- `client_proc_` does nothing.
unfoldable pub client_proc : ClientFunc
client_proc sock = pure (0, sock)

unfoldable pub init : Platform → Env → Params → Io Server
init c env params = do
  sock ← lift (init_server c env params)
  buffer ← lift (BufDefs.init env 0 params.buffer_size)
  pure (record {
    socket_params = sock.params;
    sock = sock;
    polling_stopped = false;
    buffer = buffer;
    client_proc = client_proc;
  })

unfoldable pub set_client_proc : Server → ClientFunc → Server
set_client_proc self proc = record self { client_proc = proc }

-- The client's socket is closed after its handler.
unfoldable pub dispatch_client : Server → Socket → Io Socket
dispatch_client self sock = do
  r ← self.client_proc (record sock { buf = self.buffer })
  SockDefs.done r.1

-- A client that was accepted is dispatched.
unfoldable pub serve : Server → Socket → Io Socket
serve self cli = if is_valid cli then dispatch_client self cli else pure cli

-- One round of the loop of `poll_`.
unfoldable pub round : Env → Os → Server → Io Socket
round env os self = do cli ← accept env os self.sock; serve self cli

-- `running` says what each test of the flag sees; the fuel bounds the rounds.
unfoldable pub poll : ℕ → Env → Os → (Log → Bool) → Server → Io Server
poll zero env os running self log = out_of_fuel
poll (suc fuel) env os running self log =
    if running log
    then (round env os self >>= λ cli. poll fuel env os running self) log
    else ok (record self { polling_stopped = true }, log)

-- The options and the name of a socket that was opened.
unfoldable pub bind_opened : Platform → Os → Err × Socket → Io Err
bind_opened c os (err, sock) =
    if is_ok err then (set_options c os sock >>= λ e. bind os sock) else pure err

unfoldable pub listen_bound : Os → Socket → Err → Io Err
listen_bound os sock err = if is_ok err then listen os sock else pure err

-- The end of `start_`: polling, or an error.
unfoldable pub poll_started : ℕ → Env → Os → (Log → Bool) → Server → Err → Io (Err × Server)
poll_started fuel env os running self err =
    let n = self.socket_params.buffer_size in
    if is_ok err
    then (do
      b ← lift (BufDefs.init env n n)
      t ← poll fuel env os running (record self { buffer = b })
      pure (err, t))
    else pure (err, record self { polling_stopped = true })

unfoldable pub start : ℕ → Platform → Env → Os → (Log → Bool) → Server → Io (Err × Server)
start fuel c env os running self = do
  r ← open_socket c os self.sock
  bound ← bind_opened c os r
  err ← listen_bound os r.1 bound
  poll_started fuel env os running (record self { sock = r.1 }) err

-- The server when `sig_stopped` is set: polling has stopped before.
unfoldable pub stop : Server → Io Server
stop self = do sock ← close self.sock; pure (record self { sock = sock })

unfoldable pub done : Server → Io Server
done self = do
  sock ← SockDefs.done self.sock
  pure (record self { sock = sock; buffer = BufDefs.done self.buffer })
