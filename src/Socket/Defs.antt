-- ===== src/Socket/Defs.antt =====
-- tecc_socket.c and tecc_socket.h: the parameters, the socket and its functions. The numbers of the
-- platform's headers are a parameter; an error is kept as what it comes from, where the source has
-- an error number.
use Prim.Native.Nat.{bit_and, bit_or}
use tecc.Base.{ℕ, Bool, true, false, Option, none, some, List, [], ◌∷◌, ◌==◌, if◌then◌else◌}
use tecc.Base.Heap.{Ptr, null}
use tecc.Base.Run.{Run}
use tecc.Buffer.Defs.{Buffer, Env}
use tecc.Buffer.Defs
use tecc.Socket.Os.{Fd, Io, ◌>>◌, pure, map_run, shutdown, sys_close, freeaddrinfo}

-- AF_UNSPEC, SOCK_STREAM, AI_PASSIVE and SOMAXCONN.
pub record Platform : Type 0 where
  pub af_unspec : ℕ
  pub sock_stream : ℕ
  pub ai_passive : ℕ
  pub somaxconn : ℕ

-- `system` carries errno, `unresolved` what getaddrinfo returns; the others are EBADF,
-- ECONNREFUSED, EPROTONOSUPPORT and EIO.
pub data Err : Type 0 where
  no_error bad_fd refused unsupported io : Err
  system unresolved : ℕ → Err

unfoldable pub is_ok : Err → Bool
is_ok no_error = true
is_ok _ = false

pub record Params : Type 0 where
  pub addr : List ℕ
  pub port : ℕ
  pub family : ℕ
  pub socktype : ℕ
  pub protocol : ℕ
  pub flags : ℕ
  pub buffer_size : ℕ
  pub queue_size : ℕ
  pub opt_reuse_addr : ℕ
  pub opt_reuse_port : ℕ

abbrev pub sock_buffer_size : ℕ
sock_buffer_size = 1024

-- "127.0.0.1"
abbrev pub local_addr : List ℕ
local_addr = 49 ∷ 50 ∷ 55 ∷ 46 ∷ 48 ∷ 46 ∷ 48 ∷ 46 ∷ 49 ∷ []

unfoldable pub init_params : Platform → Params
init_params c = record {
  addr = local_addr;
  port = 4321;
  family = c.af_unspec;
  socktype = c.sock_stream;
  protocol = 0;
  flags = 0;
  buffer_size = sock_buffer_size;
  queue_size = c.somaxconn;
  opt_reuse_addr = 0;
  opt_reuse_port = 1;
}

-- The peer's port is `none` where the source has -1.
pub record Socket : Type 0 where
  pub fd : Fd
  pub port : Option ℕ
  pub addr : List ℕ
  pub flags : ℕ
  pub pai : Ptr
  pub buf : Buffer
  pub params : Params

-- fd != -1
unfoldable pub is_fd : Fd → Bool
is_fd none = false
is_fd (some n) = true

abbrev pub is_valid : Socket → Bool
is_valid s = is_fd s.fd

unfoldable pub is_server : Platform → Socket → Bool
is_server c s = if bit_and s.params.flags c.ai_passive == 0 then false else true

unfoldable pub init : Env → Params → Run Socket
init env params =
    map_run
      (λ (b : Buffer). record {
        fd = none;
        port = none;
        addr = [];
        flags = 0;
        pai = null;
        buf = b;
        params = params;
      })
      (Defs.init env 0 params.buffer_size)

-- TecSocket_init_server, with the parameters that it changes.
unfoldable pub init_server : Platform → Env → Params → Run Socket
init_server c env params = init env (record params { flags = bit_or params.flags c.ai_passive })

unfoldable pub close : Socket → Io Socket
close s =
    if is_valid s
    then (do
      shutdown s.fd
      sys_close s.fd
      if s.pai == null
          then pure (record s { fd = none })
          else (freeaddrinfo s.pai >> pure (record s { fd = none; pai = null })))
    else pure s

unfoldable pub done : Socket → Io Socket
done s = close s
