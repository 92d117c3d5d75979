-- ===== src/TcpClient/Lifecycle.antt =====
-- What a client takes from the system when it starts, and gives back when it is done.
use tecc.Base.{
  ℕ, ◌+◌, ◌^◌, ◌<◌, ◌≡◌, inl, inr, refl, ◌∙◌, false, none, [], ◌∷◌, arith, ◌==◌, Bool-cases,
}
use tecc.Base.Heap.{Ptr, null}
use tecc.Base.Run.{Run, ok}
use tecc.Buffer.Defs.{Buffer, Env}
use tecc.Buffer.Defs as BufDefs
use tecc.Buffer.Growth.{Grants}
use tecc.Buffer.Lifetime.{init-blank}
use tecc.Socket.Os.{
  Outcome, failed, gives, Peer, ip4, ip6, other_family, Os, Log, resolves, connects, closes, shuts,
  frees_info,
}
use tecc.Socket.Defs.{
  Platform, Err, no_error, bad_fd, refused, unsupported, is_ok, Params, Socket, is_fd, is_valid,
  close,
}
use tecc.Socket.Defs as SockDefs
use tecc.Socket.Methods.{
  set_peer, get_socket_info, set_fd, open_at, query, open_socket, connected, connect,
}
use tecc.Socket.Counts.{Ends, GivesInfo, IsBalanced, opened, closed, resolved, freed, failed_opens}
use tecc.Socket.Balance.{close-IsBalanced, open_socket-IsBalanced, connect-IsBalanced}
use tecc.Socket.Session.{at_end, fresh-IsBalanced}
use tecc.TcpClient.Defs.{Client, init, connect_opened, with_buffer, start, done}

-- A closed socket keeps its buffer.
close-buf : (s : Socket) (l : Log) → Ends (close s l) λ s' l'. s'.buf ≡ s.buf
unfolding close
close-buf s l = elim (Bool-cases (is_valid s)) [
  | inl e ↦ elim (Bool-cases (s.pai == null)) [
    | inl e' ↦ ((record s { fd = none }, closes s.fd ∷ shuts s.fd ∷ l), rw (e, e'), refl)
    | inr e' ↦ (
      (record s { fd = none; pai = null }, frees_info s.pai ∷ closes s.fd ∷ shuts s.fd ∷ l),
      rw (e, e'),
      refl,
    )
  ]
  | inr e ↦ ((s, l), rw e, refl)
]

set_peer-buf : (s : Socket) (o : Outcome Peer) → (set_peer s o).1.buf ≡ s.buf
unfolding set_peer
set_peer-buf s (failed e) = refl
set_peer-buf s (gives (ip4 addr port)) = refl
set_peer-buf s (gives (ip6 addr port)) = refl
set_peer-buf s (gives other_family) = refl

connected-buf :
    (os : Os) (s : Socket) (o : Outcome (Unit {0})) (l : Log)
    → Ends (connected os s o l) λ r l'. r.1.buf ≡ s.buf
unfolding connected get_socket_info
connected-buf os s (failed e) l =
    let (r, run, same) = close-buf s l in (((refused, r.0), r.1), rw run, same)
connected-buf os s (gives a) l = (_, refl, set_peer-buf s _)

connect-buf : (os : Os) (s : Socket) (l : Log) → Ends (connect os s l) λ r l'. r.1.buf ≡ s.buf
unfolding connect
connect-buf os s l = elim (Bool-cases (is_valid s)) [
  | inl e ↦ elim (Bool-cases (s.pai == null)) [
    | inl e' ↦ (((bad_fd, s), l), rw (e, e'), refl)
    | inr e' ↦
        let o = os.connect l s.fd s.pai in
        let (r, run, same) = connected-buf os s o (connects s.fd s.pai o ∷ l) in
        (r, rw (e, e') run, same)
  ]
  | inr e ↦ (((bad_fd, s), l), rw e, refl)
]

set_fd-buf : (s : Socket) (info : Ptr) (o : Outcome ℕ) → (set_fd s info o).1.buf ≡ s.buf
unfolding set_fd
set_fd-buf s info (failed e) = refl
set_fd-buf s info (gives fd) = refl

open_at-buf :
    (os : Os) (s : Socket) (o : Outcome Ptr) (l : Log)
    → Ends (open_at os s o l) λ r l'. r.1.buf ≡ s.buf
unfolding open_at
open_at-buf os s (failed e) l = (_, refl, refl)
open_at-buf os s (gives info) l = (_, refl, set_fd-buf s info _)

open_socket-buf :
    (c : Platform) (os : Os) (s : Socket) (l : Log)
    → Ends (open_socket c os s l) λ r l'. r.1.buf ≡ s.buf
unfolding open_socket
open_socket-buf c os s l = elim (Bool-cases (s.params.socktype == c.sock_stream)) [
  | inl e ↦
      let o = os.getaddrinfo l (query s.params) in
      let (r, run, same) = open_at-buf os s o (resolves (query s.params) o ∷ l) in
      (r, rw e run, same)
  | inr e ↦ (((unsupported, s), l), rw e, refl)
]

-- What a part of start leaves: a balanced socket with the buffer that it had.
pub record Good (s t : Socket) (l : Log) : Type 0 where
  pub balanced : IsBalanced t l
  pub same_buf : t.buf ≡ s.buf

Good_lem :
    {A : Type 0} {run : Run (A × Log)} (s : Socket) (f : A → Socket)
    → Ends run (λ a l. IsBalanced (f a) l)
    → Ends run (λ a l. (f a).buf ≡ s.buf)
    → Ends run λ a l. Good s (f a) l
Good_lem s f (r, e, b) q =
    (r, e, record { balanced = b; same_buf = at_end (λ a l. (f a).buf ≡ s.buf) r.0 r.1 q e })

pub block_built :
    (env : Env) (n : ℕ) → Grants env → n < 2 ^ 64 → (b : Buffer) × (BufDefs.init env n n ≡ ok b)
block_built env n grants small = (_, init-blank env n n grants small)

-- The sizes of a client's buffer stay away from the end of size_t.
abbrev pub HasSmallBuffer : Client → Type 0
HasSmallBuffer self = self.socket_params.buffer_size < 2 ^ 64

module _ (c : Platform) (env : Env) (os : Os) (grants : Grants env) (h : GivesInfo os) where
  connect_opened-Good :
      {s : Socket} (r : Err × Socket) {l : Log}
      → Good s r.1 l
      → Ends (connect_opened os r l) λ r' l'. Good s r'.1 l'
  unfolding connect_opened
  connect_opened-Good {s} (err, t) {l} good = elim (Bool-cases (is_ok err)) [
    | inl e ↦
        let (r, run, good') =
          Good_lem t (λ r. r.1) (connect-IsBalanced (good.balanced) os) (connect-buf os t l) in
        (
          r,
          rw e run,
          record { balanced = good'.balanced; same_buf = good'.same_buf ∙ good.same_buf },
        )
    | inr e ↦ (((err, t), l), rw e, good)
  ]

  with_buffer-Good :
      (self : Client) (r : Err × Socket) {l : Log}
      → HasSmallBuffer self
      → Good self.sock r.1 l
      → Ends (with_buffer env self r l) λ r' l'. Good self.sock r'.1.sock l'
  unfolding with_buffer
  with_buffer-Good self (err, t) {l} small good = elim (Bool-cases (is_ok err)) [
    | inl e ↦
        let (b, built) = block_built env self.socket_params.buffer_size grants small in
        (((err, record self { sock = t; buffer = b }), l), rw (e, built), good)
    | inr e ↦ (((err, record self { sock = t }), l), rw e, good)
  ]

  pub start-Good :
      (self : Client) {l : Log}
      → IsBalanced self.sock l
      → is_valid self.sock ≡ false
      → HasSmallBuffer self
      → Ends (start c env os self l) λ r l'. Good self.sock r.1.sock l'
  unfolding start
  start-Good self {l} b shut small =
      let (r, run, good) =
        Good_lem self.sock (λ r. r.1) (open_socket-IsBalanced b c os h shut)
          (open_socket-buf c os self.sock l) in
      let (r', run', good') = connect_opened-Good r.0 good in
      let (r'', run'', good'') = with_buffer-Good self r'.0 small good' in
      (r'', rw (run, run') run'', good'')

  start_then-done :
      (self : Client) {l : Log}
      → IsBalanced self.sock l
      → is_valid self.sock ≡ false
      → HasSmallBuffer self
      → Ends (start c env os self l) λ r l'.
        Ends
          (done r.1 l')
          λ _ l''. (opened l'' ≡ closed l'') × (resolved l'' ≡ freed l'' + failed_opens l'')
  unfolding done SockDefs.done
  start_then-done self b shut small =
      let (r, run, good) = start-Good self b shut small in
      let (s, run', (b', shut')) = close-IsBalanced (good.balanced) in
      let same : opened s.1 ≡ closed s.1 + 0 = rw shut' at (b'.descriptors) in
      let lists : resolved s.1 ≡ freed s.1 + 0 + failed_opens s.1 = rw shut' at (b'.infos) in
      (
        r,
        run,
        (
          (record (r.0.1) { sock = s.0; buffer = BufDefs.done r.0.1.buffer }, s.1),
          rw run',
          (omega arith, omega arith),
        ),
      )

  -- Where memory is granted for a buffer of less than 2 ^ 64 bytes and getaddrinfo gives no NULL: a
  -- client that is made, started and done with ends without a fault, whatever else the system
  -- answers. It has closed as many descriptors as it was given, and freed the addresses, but for
  -- one list for each failed call of socket.
  pub start-done :
      (params : Params)
      → params.buffer_size < 2 ^ 64
      → Ends (init env params []) λ self l. Ends (start c env os self l) λ r l'.
        Ends
          (done r.1 l')
          λ _ l''. (opened l'' ≡ closed l'') × (resolved l'' ≡ freed l'' + failed_opens l'')
  unfolding init SockDefs.init BufDefs.init is_fd
  start-done params small =
      (_, refl, start_then-done _ (fresh-IsBalanced env params refl) refl small)
