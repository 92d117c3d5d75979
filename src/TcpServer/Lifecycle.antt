-- ===== src/TcpServer/Lifecycle.antt =====
-- A server from its start to its end.
use mathlib.Core.Path.{subst}
use Prim.Native.Nat.{bit_or}
use tecc.Base.{
  ℕ, zero, suc, ◌+◌, ◌^◌, ◌<◌, ◌≤◌, ◌≡◌, inl, inr, refl, sym, ap, Bool, true, false, [], arith,
  Bool-cases,
}
use tecc.Base.Run.{ok}
use tecc.Buffer.Defs.{Buffer, Env}
use tecc.Buffer.Defs as BufDefs
use tecc.Buffer.Growth.{Grants}
use tecc.Socket.Os.{Os, Log}
use tecc.Socket.Defs.{Platform, Err, no_error, is_ok, Params, Socket, is_fd, is_valid, close}
use tecc.Socket.Defs as SockDefs
use tecc.Socket.Methods.{open_socket}
use tecc.Socket.Counts.{Ends, GivesInfo, IsBalanced, opened, closed, resolved, freed, failed_opens}
use tecc.Socket.Balance.{
  close-IsBalanced, open_socket-IsBalanced, set_options-IsBalanced, bind-IsBalanced,
  listen-IsBalanced,
}
use tecc.Socket.Session.{fresh-IsBalanced}
use tecc.TcpClient.Lifecycle.{block_built}
use tecc.TcpServer.Defs.{
  Server, ClientFunc, init, set_client_proc, round, poll, bind_opened, listen_bound, poll_started,
  start, stop, done,
}
use tecc.TcpServer.Clients.{rounds, IsHandler, round-IsBalanced}

-- The flag is cleared before the server has accepted `n` times.
abbrev pub Stops : (Log → Bool) → ℕ → Type 0
Stops running n = (l : Log) → n ≤ rounds l → running l ≡ false

module _ (env : Env) (os : Os) (running : Log → Bool) (n : ℕ) (stops : Stops running n) where
  poll_steps :
      (fuel : ℕ) (self : Server) (l : Log) {cli : Socket} {l' : Log} {t : Server × Log}
      → running l ≡ true
      → round env os self l ≡ ok (cli, l')
      → poll fuel env os running self l' ≡ ok t
      → poll (suc fuel) env os running self l ≡ ok t
  unfolding poll
  poll_steps fuel self l on run rest = rw (on, run) rest

  stopped_steps :
      (fuel : ℕ) (self : Server) (l : Log)
      → running l ≡ false
      → poll (suc fuel) env os running self l ≡ ok (record self { polling_stopped = true }, l)
  unfolding poll
  stopped_steps fuel self l off = rw off

  poll-IsBalanced :
      (fuel : ℕ) (self : Server) {l : Log}
      → IsHandler self.client_proc
      → IsBalanced self.sock l
      → n ≤ rounds l + fuel
      → Ends
          (poll (suc fuel) env os running self l)
          λ t l'. (t ≡ record self { polling_stopped = true }) × IsBalanced self.sock l'
  poll-IsBalanced zero self {l} handler b enough = (
    (record self { polling_stopped = true }, l),
    stopped_steps zero self l (stops l (omega arith)),
    (refl, b),
  )
  poll-IsBalanced (suc fuel) self {l} handler b enough = elim (Bool-cases (running l)) [
    | inl on ↦
        let (r, run, (b', more)) = round-IsBalanced env os self handler b in
        let (t, rest, done) = poll-IsBalanced fuel self handler b' (omega (arith, more)) in
        (t, poll_steps (suc fuel) self l on run rest, done)
    | inr off ↦ (
      (record self { polling_stopped = true }, l),
      stopped_steps (suc fuel) self l off,
      (refl, b),
    )
  ]

module _ (c : Platform) (env : Env) (os : Os) (grants : Grants env) (h : GivesInfo os) where
  bind_opened-IsBalanced :
      (r : Err × Socket) {l : Log}
      → IsBalanced r.1 l
      → Ends (bind_opened c os r l) λ err l'. IsBalanced r.1 l'
  unfolding bind_opened
  bind_opened-IsBalanced (err, s) {l} b = elim (Bool-cases (is_ok err)) [
    | inl e ↦
        let (r, run, b₁) = set_options-IsBalanced b c os in
        let (r', run', b₂) = bind-IsBalanced b₁ os in (r', rw (e, run) run', b₂)
    | inr e ↦ ((err, l), rw e, b)
  ]

  listen_bound-IsBalanced :
      (s : Socket) (err : Err) {l : Log}
      → IsBalanced s l
      → Ends (listen_bound os s err l) λ err' l'. IsBalanced s l'
  unfolding listen_bound
  listen_bound-IsBalanced s err {l} b = elim (Bool-cases (is_ok err)) [
    | inl e ↦ let (r, run, b') = listen-IsBalanced b os in (r, rw e run, b')
    | inr e ↦ ((err, l), rw e, b)
  ]

  module _ (running : Log → Bool) (n : ℕ) (stops : Stops running n) where
    poll_started-IsBalanced :
        (fuel : ℕ) (self : Server) (err : Err) {l : Log}
        → IsHandler self.client_proc
        → IsBalanced self.sock l
        → n ≤ rounds l + fuel
        → self.socket_params.buffer_size < 2 ^ 64
        → Ends
            (poll_started (suc fuel) env os running self err l)
            λ r l'. (r.1.polling_stopped ≡ true) × IsBalanced r.1.sock l'
    unfolding poll_started
    poll_started-IsBalanced fuel self err {l} handler b enough small =
        elim (Bool-cases (is_ok err)) [
          | inl e ↦
              let (buf, built) = block_built env self.socket_params.buffer_size grants small in
              let (t, run, (same, b')) =
                poll-IsBalanced env os running n stops fuel (record self { buffer = buf }) handler b
                  (omega arith) in
              (
                ((err, t.0), t.1),
                rw (e, built, run),
                (
                  ap (λ (x : Server). x.polling_stopped) same,
                  subst (λ (x : Server). IsBalanced x.sock t.1) (sym same) b',
                ),
              )
          | inr e ↦ (((err, record self { polling_stopped = true }), l), rw e, (refl, b))
        ]

    start_steps :
        (fuel : ℕ) (self : Server) (l : Log) {r : Err × Socket} {bound err : Err} {l₁ l₂ l₃ : Log}
        {t : (Err × Server) × Log}
        → open_socket c os self.sock l ≡ ok (r, l₁)
        → bind_opened c os r l₁ ≡ ok (bound, l₂)
        → listen_bound os r.1 bound l₂ ≡ ok (err, l₃)
        → poll_started fuel env os running (record self { sock = r.1 }) err l₃ ≡ ok t
        → start fuel c env os running self l ≡ ok t
    unfolding start
    start_steps fuel self l a b c d = rw (a, b, c) d

    start-IsBalanced :
        (fuel : ℕ) (self : Server) {l : Log}
        → IsHandler self.client_proc
        → IsBalanced self.sock l
        → is_valid self.sock ≡ false
        → n ≤ fuel
        → self.socket_params.buffer_size < 2 ^ 64
        → Ends
            (start (suc fuel) c env os running self l)
            λ r l'. (r.1.polling_stopped ≡ true) × IsBalanced r.1.sock l'
    start-IsBalanced fuel self {l} handler b shut enough small =
        let (r, run₁, b₁) = open_socket-IsBalanced b c os h shut in
        let (r₂, run₂, b₂) = bind_opened-IsBalanced r.0 b₁ in
        let (r₃, run₃, b₃) = listen_bound-IsBalanced r.0.1 r₂.0 b₂ in
        let (t, run₄, done) =
          poll_started-IsBalanced fuel (record self { sock = r.0.1 }) r₃.0 handler b₃ (omega arith)
            small in
        (t, start_steps (suc fuel) self l run₁ run₂ run₃ run₄, done)

    -- What is left of a server that has stopped polling.
    ended :
        (self : Server) {l : Log}
        → IsBalanced self.sock l
        → Ends (stop self l) λ t l'.
          Ends
            (done t l')
            λ _ l''. (opened l'' ≡ closed l'') × (resolved l'' ≡ freed l'' + failed_opens l'')
    unfolding stop done SockDefs.done
    ended self {l} b =
        let (r, run, (b₁, shut)) = close-IsBalanced b in
        let (r', run', (b₂, shut')) = close-IsBalanced b₁ in
        let same : opened r'.1 ≡ closed r'.1 + 0 = rw shut' at (b₂.descriptors) in
        let lists : resolved r'.1 ≡ freed r'.1 + 0 + failed_opens r'.1 = rw shut' at (b₂.infos) in
        (
          (record self { sock = r.0 }, r.1),
          rw run,
          (
            (record self { sock = r'.0; buffer = BufDefs.done self.buffer }, r'.1),
            rw run',
            (omega arith, omega arith),
          ),
        )

    -- Where memory is granted for a buffer of less than 2 ^ 64 bytes, getaddrinfo gives no NULL,
    -- the handler ends, keeps the client's socket and takes nothing for good, and `running` is
    -- cleared before the server has accepted `n` times: a server that is made, given the handler,
    -- started with more fuel than `n`, stopped and done with ends without a fault, whatever else
    -- the system answers. Polling has stopped, and at the end as many descriptors were closed as
    -- the system gave, those of all clients included, and the addresses were freed, but for one
    -- list for each failed call of socket.
    pub start-ends :
        (fuel : ℕ) (params : Params) (proc : ClientFunc)
        → IsHandler proc
        → n ≤ fuel
        → params.buffer_size < 2 ^ 64
        → Ends (init c env params []) λ self l.
          Ends (start (suc fuel) c env os running (set_client_proc self proc) l) λ r l₁.
            (r.1.polling_stopped ≡ true)
            × (Ends (stop r.1 l₁) λ t l₂.
                Ends
                  (done t l₂)
                  λ _ l₃. (opened l₃ ≡ closed l₃) × (resolved l₃ ≡ freed l₃ + failed_opens l₃))
    unfolding init set_client_proc SockDefs.init_server SockDefs.init BufDefs.init is_fd
    start-ends fuel params proc handler enough small =
        let (r, run, (stopped, b)) =
          start-IsBalanced fuel _ handler
            (fresh-IsBalanced env (record params { flags = bit_or params.flags c.ai_passive }) refl)
            refl enough small in
        (_, refl, (r, run, (stopped, ended r.0.1 b)))
