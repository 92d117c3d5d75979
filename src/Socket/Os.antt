-- ===== src/Socket/Os.antt =====
-- The system calls of tecc_socket.c. The operating system answers each call as it likes, from all
-- that was called before; the calls and their answers are kept in a log, the newest first.
use tecc.Base.{ℕ, Option, List, ◌∷◌}
use tecc.Base.Heap.{Ptr}
use tecc.Base.Run.{Run, ok, fault, out_of_fuel}

-- A call fails with an error number, or gives what it was made for.
pub data Outcome (A : Type 0) : Type 0 where
  failed : ℕ → Outcome A
  gives : A → Outcome A

-- A descriptor; `none` is -1.
abbrev pub Fd : Type 0
Fd = Option ℕ

-- What getpeername finds.
pub data Peer : Type 0 where
  ip4 ip6 : List ℕ → ℕ → Peer
  other_family : Peer

-- What getaddrinfo is asked: the address, the port, and the fields of `hints`.
pub record Query : Type 0 where
  pub addr : List ℕ
  pub port : ℕ
  pub family : ℕ
  pub socktype : ℕ
  pub flags : ℕ

pub data Event : Type 0 where
  resolves : Query → Outcome Ptr → Event
  opens : Outcome ℕ → Event
  accepts : Fd → Outcome ℕ → Event
  connects binds : Fd → Ptr → Outcome (Unit {0}) → Event
  sets_option : Fd → ℕ → Outcome (Unit {0}) → Event
  listens : Fd → ℕ → Outcome (Unit {0}) → Event
  names_peer : Fd → Outcome Peer → Event
  shuts closes : Fd → Event
  frees_info : Ptr → Event
  reads : Fd → ℕ → Outcome (List ℕ) → Event
  writes : Fd → List ℕ → Outcome ℕ → Event

abbrev pub Log : Type 0
Log = List Event

-- `info` is the list of addresses that getaddrinfo allocates.
pub record Os : Type 0 where
  pub getaddrinfo : Log → Query → Outcome Ptr
  pub socket : Log → Ptr → Outcome ℕ
  pub connect : Log → Fd → Ptr → Outcome (Unit {0})
  pub setsockopt : Log → Fd → ℕ → Outcome (Unit {0})
  pub bind : Log → Fd → Ptr → Outcome (Unit {0})
  pub listen : Log → Fd → ℕ → Outcome (Unit {0})
  pub accept : Log → Fd → Outcome ℕ
  pub getpeername : Log → Fd → Outcome Peer
  pub read : Log → Fd → ℕ → Outcome (List ℕ)
  pub write : Log → Fd → List ℕ → Outcome ℕ

abbrev pub Io : Type 0 → Type 0
Io A = Log → Run (A × Log)

abbrev pub bind_run : {A B : Type 0} → Run (A × Log) → (A → Io B) → Run (B × Log)
bind_run out_of_fuel k = out_of_fuel
bind_run fault k = fault
bind_run (ok (a, log)) k = k a log

infixl 5 ◌>>=◌ ◌>>◌
abbrev pub ◌>>=◌ : {A B : Type 0} → Io A → (A → Io B) → Io B
◌>>=◌ m k log = bind_run (m log) k

abbrev pub ◌>>◌ : {A B : Type 0} → Io A → Io B → Io B
m >> k = m >>= λ _. k

abbrev pub pure : {A : Type 0} → A → Io A
pure a log = ok (a, log)

-- What a run gives, changed.
abbrev pub map_run : {A B : Type 0} → (A → B) → Run A → Run B
map_run f out_of_fuel = out_of_fuel
map_run f fault = fault
map_run f (ok a) = ok (f a)

abbrev pub lift : {A : Type 0} → Run A → Io A
lift out_of_fuel log = out_of_fuel
lift fault log = fault
lift (ok a) log = ok (a, log)

module _ (os : Os) where
  abbrev pub getaddrinfo : Query → Io (Outcome Ptr)
  getaddrinfo query log = let o = os.getaddrinfo log query in ok (o, resolves query o ∷ log)

  abbrev pub sys_socket : Ptr → Io (Outcome ℕ)
  sys_socket info log = let o = os.socket log info in ok (o, opens o ∷ log)

  abbrev pub sys_connect : Fd → Ptr → Io (Outcome (Unit {0}))
  sys_connect fd info log = let o = os.connect log fd info in ok (o, connects fd info o ∷ log)

  abbrev pub setsockopt : Fd → ℕ → Io (Outcome (Unit {0}))
  setsockopt fd value log =
      let o = os.setsockopt log fd value in ok (o, sets_option fd value o ∷ log)

  abbrev pub sys_bind : Fd → Ptr → Io (Outcome (Unit {0}))
  sys_bind fd info log = let o = os.bind log fd info in ok (o, binds fd info o ∷ log)

  abbrev pub sys_listen : Fd → ℕ → Io (Outcome (Unit {0}))
  sys_listen fd n log = let o = os.listen log fd n in ok (o, listens fd n o ∷ log)

  abbrev pub sys_accept : Fd → Io (Outcome ℕ)
  sys_accept fd log = let o = os.accept log fd in ok (o, accepts fd o ∷ log)

  abbrev pub getpeername : Fd → Io (Outcome Peer)
  getpeername fd log = let o = os.getpeername log fd in ok (o, names_peer fd o ∷ log)

  abbrev pub sys_read : Fd → ℕ → Io (Outcome (List ℕ))
  sys_read fd n log = let o = os.read log fd n in ok (o, reads fd n o ∷ log)

  abbrev pub sys_write : Fd → List ℕ → Io (Outcome ℕ)
  sys_write fd bytes log = let o = os.write log fd bytes in ok (o, writes fd bytes o ∷ log)

abbrev pub shutdown : Fd → Io (Unit {0})
shutdown fd log = ok (tt, shuts fd ∷ log)

abbrev pub sys_close : Fd → Io (Unit {0})
sys_close fd log = ok (tt, closes fd ∷ log)

abbrev pub freeaddrinfo : Ptr → Io (Unit {0})
freeaddrinfo info log = ok (tt, frees_info info ∷ log)
