-- ===== src/TcpClient/Defs.antt =====
-- tecc_tcp_client.c and tecc_tcp_client.h. The guard's mutex makes each call that transfers one
-- step. A function that sets a signal returns with the signal set, on every path.
use tecc.Base.{ℕ, Option, List, if◌then◌else◌}
use tecc.Buffer.Defs.{Buffer, Env}
use tecc.Buffer.Defs as BufDefs
use tecc.Socket.Os.{Os, Io, ◌>>=◌, pure, lift}
use tecc.Socket.Defs.{Platform, Err, no_error, is_ok, Params, Socket, close}
use tecc.Socket.Defs as SockDefs
use tecc.Socket.Methods
use tecc.Socket.Methods.{open_socket, connect, read_loop, write_str}

pub record Client : Type 0 where
  pub socket_params : Params
  pub sock : Socket
  pub buffer : Buffer

-- The mutex is outside the model.
unfoldable pub init : Env → Params → Io Client
init env params = do
  sock ← lift (SockDefs.init env params)
  buffer ← lift (BufDefs.init env 0 params.buffer_size)
  pure (record { socket_params = params; sock = sock; buffer = buffer })

-- The connection, where the socket was opened.
unfoldable pub connect_opened : Os → Err × Socket → Io (Err × Socket)
connect_opened os (err, sock) = if is_ok err then connect os sock else pure (err, sock)

-- The end of `start_`: the buffer is allocated where there is a connection.
unfoldable pub with_buffer : Env → Client → Err × Socket → Io (Err × Client)
with_buffer env self (err, sock) =
    let t = record self { sock = sock } in
    let n = self.socket_params.buffer_size in
    if is_ok err
    then (lift (BufDefs.init env n n) >>= λ b. pure (err, record t { buffer = b }))
    else pure (err, t)

-- The error and the client when `sig_started` is set.
unfoldable pub start : Platform → Env → Os → Client → Io (Err × Client)
start c env os self = do
  r ← open_socket c os self.sock
  r' ← connect_opened os r
  with_buffer env self r'

-- The client when `sig_stopped` is set.
unfoldable pub stop : Client → Io Client
stop self = do sock ← close self.sock; pure (record self { sock = sock })

unfoldable pub send : Os → Client → Buffer → Io Err
send os self src = Methods.write os self.sock src

unfoldable pub send_str : Os → Client → Option (List ℕ) → Io Err
send_str os self str = write_str os self.sock str

-- `fuel` bounds the number of reads.
unfoldable pub recv : ℕ → Env → Os → Client → Buffer → Io (Err × Client × Buffer)
recv fuel env os self dst = do
  r ← read_loop fuel env os self.sock dst
  pure (r.0, record self { sock = r.1 }, r.2)

-- The answer is read where the request was written.
unfoldable pub recv_after : ℕ → Env → Os → Client → Buffer → Err → Io (Err × Client × Buffer)
recv_after fuel env os self dst err =
    if is_ok err then recv fuel env os self dst else pure (err, self, dst)

unfoldable pub send_recv : ℕ → Env → Os → Client → Buffer → Buffer → Io (Err × Client × Buffer)
send_recv fuel env os self src dst = do err ← send os self src; recv_after fuel env os self dst err

unfoldable pub send_recv_str :
    ℕ → Env → Os → Client → Option (List ℕ) → Buffer → Io (Err × Client × Buffer)
send_recv_str fuel env os self str dst = do
  err ← send_str os self str
  recv_after fuel env os self dst err

unfoldable pub done : Client → Io Client
done self = do
  sock ← SockDefs.done self.sock
  pure (record self { sock = sock; buffer = BufDefs.done self.buffer })
