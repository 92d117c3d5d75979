-- ===== src/Examples/Sockets.antt =====
-- tecc_socket.c and tecc_tcp_client.c over a small system.
use tecc.Base.{
  ℕ, ◌+◌, ◌≡◌, inr, refl, ap, true, false, none, some, List, [], ◌∷◌, arith, ◌==◌, length, take,
  length-take,
}
use tecc.Base.Heap.{null}
use tecc.Base.Run.{ok, Returns}
use tecc.Buffer.Bytes.{splice, memcpy, peek}
use tecc.Buffer.Defs.{
  Buffer, Env, on_error, move_contents, realloc_buffer, first_capacity, raise_capacity,
  ensure_capacity,
}
use tecc.Buffer.Defs as BufDefs
use tecc.Buffer.Growth.{IsValid, view, Grants}
use tecc.Socket.Os.{
  gives, ip4, Os, Log, Query, accepts, resolves, opens, connects, names_peer, reads, writes, closes,
  shuts, frees_info, ◌>>=◌,
}
use tecc.Socket.Defs.{
  Platform, no_error, is_ok, Params, Socket, init_params, is_fd, is_server, init, close, done,
}
use tecc.Socket.Methods.{
  set_peer, get_socket_info, set_fd, open_at, query, open_socket, connected, connect, option_err,
  set_both_options, set_options, bind, listen, share_buffer, accepted, accept, received, read_loop,
  sent, write, write_str,
}
use tecc.Socket.Counts.{Ends, IsBalanced, opened, closed, resolved, freed, failed_opens}
use tecc.Socket.Session.{Session, inits, opens as opened_then, serves, sends_text, Session-done}
use tecc.Socket.Transfer.{Receives, ended, more, write_all, IsBounded, read_loop-Appended}
use tecc.Socket.Accepting.{accept-done}
use tecc.TcpClient.Defs.{
  Client, connect_opened, with_buffer, start, send_str, recv, recv_after, send_recv_str,
}
use tecc.TcpClient.Defs as Tcp
use tecc.TcpClient.Lifecycle.{start-done}
use tecc.TcpClient.Exchange.{ReceivesNothing, recv_nothing}

program : Unit {0}
unfolding BufDefs.int_size splice memcpy peek on_error move_contents realloc_buffer first_capacity
    raise_capacity ensure_capacity BufDefs.init BufDefs.write BufDefs.done init_params is_fd
    is_server init close done set_peer get_socket_info set_fd open_at open_socket connected connect
    option_err set_both_options set_options bind listen share_buffer accepted accept received
    read_loop sent write write_str is_ok Tcp.init Tcp.done connect_opened with_buffer start send_str
    recv recv_after send_recv_str write_all
program = tt

abbrev pub linux : Platform
linux = record { af_unspec = 0; sock_stream = 1; ai_passive = 1; somaxconn = 4096 }

abbrev pub granting : Env
granting = record { can_alloc = λ _. true; on_buffer_error = none }

abbrev pub params : Params
params = record {
  addr = 49 ∷ [];
  port = 4321;
  family = 0;
  socktype = 1;
  protocol = 0;
  flags = 0;
  buffer_size = 8;
  queue_size = 16;
  opt_reuse_addr = 0;
  opt_reuse_port = 1;
}

-- What the peer sends after the calls made so far.
abbrev unread : Log → List ℕ
unread (reads fd n o ∷ l) = []
unread _ = 104 ∷ 105 ∷ []

-- A peer that sends "hi" and then closes the connection.
abbrev pub peer : Os
peer = record {
  getaddrinfo = λ l q. gives 100;
  socket = λ l info. gives 3;
  connect = λ l fd info. gives tt;
  setsockopt = λ l fd v. gives tt;
  bind = λ l fd info. gives tt;
  listen = λ l fd n. gives tt;
  accept = λ l fd. gives 4;
  getpeername = λ l fd. gives (ip4 (49 ∷ []) 80);
  read = λ l fd n. gives (take n (unread l));
  write = λ l fd bytes. gives (length bytes);
}

abbrev block : List ℕ → ℕ → Buffer
block bytes size = record {
  contents = bytes;
  pos = size;
  size = size;
  capacity = 8;
  block_size = 8;
}

abbrev zeros : List ℕ
zeros = 0 ∷ 0 ∷ 0 ∷ 0 ∷ 0 ∷ 0 ∷ 0 ∷ 0 ∷ []

-- An open socket with a buffer of 8 bytes.
abbrev pub talking : Socket
talking = record {
  fd = some 3;
  port = some 80;
  addr = 49 ∷ [];
  flags = 0;
  pai = 100;
  buf = block zeros 0;
  params = params;
}

abbrev pub answer : Buffer
answer = block (33 ∷ 0 ∷ 0 ∷ 0 ∷ 0 ∷ 0 ∷ 0 ∷ 0 ∷ []) 1

answer-IsValid : IsValid answer
answer-IsValid = record {
  block = refl;
  within = omega arith;
  filled = omega arith;
  has_block_size = omega arith;
  roomy = inr (omega arith);
}

gives-inj : {A : Type 0} {a b : A} → gives a ≡ gives b → a ≡ b
gives-inj e = cc

pub peer-IsBounded : IsBounded peer
peer-IsBounded l fd n bytes e =
    let same = ap length (gives-inj e) in omega (arith, length-take n (unread l), same)

pub peer-GivesInfo :
    (l : Log) (q : Query) (p : ℕ) → peer.getaddrinfo l q ≡ gives p → (p == null) ≡ false
peer-GivesInfo l q p e = let same = gives-inj e in ground arith

abbrev talking_shut : Socket
talking_shut = record talking {
  fd = none;
  port = none;
  addr = [];
  pai = 0;
  buf = record { contents = []; pos = 0; size = 0; capacity = 0; block_size = 8 };
}

abbrev opened_socket : Socket
opened_socket = record talking_shut { fd = some 3; pai = 100 }

pub hi :
    Receives peer
      (some 3)
      8
      []
      ((104 ∷ 105 ∷ []) ∷ [])
      no_error
      (reads (some 3) 8 (gives []) ∷ reads (some 3) 8 (gives (104 ∷ 105 ∷ [])) ∷ [])
hi = more refl (ended refl)

-- A client socket is opened, connected and closed: the calls that reach the system.
session_test :
    (do
      s ← (λ l. ok (talking_shut, l))
      r ← open_socket linux peer s
      r' ← connect peer r.1
      close r'.1)
      []
    ≡ ok (
      record talking_shut { port = some 80; addr = 49 ∷ [] },
      frees_info 100
          ∷ closes (some 3)
          ∷ shuts (some 3)
          ∷ names_peer (some 3) (gives (ip4 (49 ∷ []) 80))
          ∷ connects (some 3) 100 (gives tt)
          ∷ opens (gives 3)
          ∷ resolves (query params) (gives 100)
          ∷ [],
    )
unfolding program
session_test = refl

abbrev opening : Log
opening = opens (gives 3) ∷ resolves (query params) (gives 100) ∷ []

abbrev after_client : Log
after_client =
    closes (some 4)
    ∷ shuts (some 4)
    ∷ names_peer (some 4) (gives (ip4 (49 ∷ []) 80))
    ∷ accepts (some 3) (gives 4)
    ∷ opening

-- A socket is opened and serves a client, and a string is written to it.
opened-Session :
    Session linux granting peer params opened_socket
      (writes (some 3) (104 ∷ 0 ∷ []) (gives 2) ∷ after_client)
unfolding program
opened-Session =
    sends_text (some (104 ∷ [])) (serves granting (opened_then (inits refl) refl refl) refl refl)
      refl

Session-done_example :
    Ends
      (done opened_socket (writes (some 3) (104 ∷ 0 ∷ []) (gives 2) ∷ after_client))
      λ s l. (opened l ≡ closed l) × (resolved l ≡ freed l + failed_opens l) × (is_fd s.fd ≡ false)
Session-done_example = Session-done peer-GivesInfo opened-Session

read_loop-Appended_example : Returns (read_loop 2 granting peer talking answer []) λ r.
    (r.0.0 ≡ no_error)
    × IsValid r.0.2
    × (view r.0.2 ≡ 33 ∷ 104 ∷ 105 ∷ [])
    × (r.1 ≡ reads (some 3) 8 (gives []) ∷ reads (some 3) 8 (gives (104 ∷ 105 ∷ [])) ∷ [])
read_loop-Appended_example =
    read_loop-Appended granting 2 talking peer-IsBounded refl hi (omega arith) answer-IsValid refl
      (omega arith) (omega arith)

talking-IsBalanced : IsBalanced talking (opens (gives 3) ∷ resolves (query params) (gives 100) ∷ [])
unfolding opened closed resolved freed failed_opens is_fd
talking-IsBalanced = record { descriptors = refl; infos = refl; paired = refl }

accept-done_example :
    Ends
      (accept granting peer talking (opens (gives 3) ∷ resolves (query params) (gives 100) ∷ []))
      λ cli l. Ends (done cli l) λ cli' l'. IsBalanced talking l' × (is_fd cli'.fd ≡ false)
accept-done_example = accept-done peer talking-IsBalanced granting

pub granting-Grants : Grants granting
granting-Grants n = refl

start-done_example : Ends (Tcp.init granting params []) λ self l.
    Ends (start linux granting peer self l) λ r l'.
      Ends
        (Tcp.done r.1 l')
        λ _ l''. (opened l'' ≡ closed l'') × (resolved l'' ≡ freed l'' + failed_opens l'')
start-done_example =
    start-done linux granting peer granting-Grants peer-GivesInfo params (omega arith)

recv_nothing_example : Ends (Tcp.init granting params []) λ self l.
    Ends (start linux granting peer self l) λ r l'. ReceivesNothing 2 granting peer r.1 answer l'
recv_nothing_example =
    recv_nothing linux granting peer params 1 answer granting-Grants peer-GivesInfo peer-IsBounded
      (omega arith)

abbrev client : Client
client = record { socket_params = params; sock = talking; buffer = answer }

abbrev request : Log
request = writes (some 3) (104 ∷ 0 ∷ []) (gives 2) ∷ []
