-- ===== src/TcpServer/Clients.antt =====
-- The clients of a server: each is closed again.
use tecc.Base.{
  ℕ, suc, ◌+◌, ◌≡◌, inl, inr, refl, ◌∙◌, true, false, none, some, [], ◌∷◌, arith, ◌==◌,
  if◌then◌else◌, Option-cases,
}
use tecc.Base.Heap.{null}
use tecc.Base.Run.{ok}
use tecc.Buffer.Defs.{Buffer, Env}
use tecc.Buffer.Defs as BufDefs
use tecc.Socket.Os.{Outcome, failed, gives, Os, Log, accepts, names_peer, shuts, closes}
use tecc.Socket.Defs.{Socket, is_fd, is_valid, close, done, is_ok}
use tecc.Socket.Defs as SockDefs
use tecc.Socket.Methods.{set_peer, get_socket_info, share_buffer, accepted, accept}
use tecc.Socket.Counts.{Ends, IsBalanced, opened, closed, resolved, freed, failed_opens, flag}
use tecc.Socket.Balance.{set_peer_lem}
use tecc.Socket.Accepting.{close_client, share_buffer_lem}
use tecc.TcpServer.Defs.{Server, ClientFunc, dispatch_client, serve, round}

-- The number of calls of accept.
unfoldable pub rounds : Log → ℕ
rounds [] = 0
rounds (accepts fd o ∷ l) = suc (rounds l)
rounds (_ ∷ l) = rounds l

-- Nothing was taken, given back or accepted between two logs.
pub record Unchanged (l l' : Log) : Type 0 where
  pub opened_as : opened l' ≡ opened l
  pub closed_as : closed l' ≡ closed l
  pub resolved_as : resolved l' ≡ resolved l
  pub freed_as : freed l' ≡ freed l
  pub failed_as : failed_opens l' ≡ failed_opens l
  pub rounds_as : rounds l' ≡ rounds l

-- A handler ends, keeps the client's descriptor, and takes nothing for good.
abbrev pub IsHandler : ClientFunc → Type 0
IsHandler proc =
    (cli : Socket) (l : Log)
    → Ends (proc cli l) λ r l'. (r.1.fd ≡ cli.fd) × (r.1.pai ≡ cli.pai) × Unchanged l l'

-- A server's socket and a client's that it accepted hold what was not given back.
pub record Holding (s cli : Socket) (l : Log) : Type 0 where
  pub descriptors : opened l ≡ closed l + flag (is_valid s) + flag (is_valid cli)
  pub infos : resolved l ≡ freed l + flag (is_valid s) + failed_opens l
  pub paired : (s.pai == null) ≡ (if is_valid s then false else true)
  pub no_info : cli.pai ≡ null

-- What a call of TecSocket_accept takes: the descriptor of the client, if there is one.
pub record Accepted (cli : Socket) (l l' : Log) : Type 0 where
  pub opened_more : opened l' ≡ opened l + flag (is_valid cli)
  pub closed_as : closed l' ≡ closed l
  pub resolved_as : resolved l' ≡ resolved l
  pub freed_as : freed l' ≡ freed l
  pub failed_as : failed_opens l' ≡ failed_opens l
  pub rounds_more : rounds l' ≡ suc (rounds l)
  pub no_info : cli.pai ≡ null

module _ (os : Os) (s : Socket) (l : Log) where
  accepted_lem :
      (cli : Socket) (o : Outcome ℕ)
      → cli.fd ≡ none
      → cli.pai ≡ null
      → Ends (accepted os s cli o (accepts s.fd o ∷ l)) λ cli' l'. Accepted cli' l l'
  unfolding accepted get_socket_info is_fd opened closed resolved freed failed_opens rounds
  accepted_lem cli (failed e) no_fd no_info =
      let shut : flag (is_valid cli) ≡ 0 = rw no_fd in
      (
        (cli, accepts s.fd (failed e) ∷ l),
        refl,
        record {
          opened_more = omega (arith, shut);
          closed_as = refl;
          resolved_as = refl;
          freed_as = refl;
          failed_as = refl;
          rounds_more = refl;
          no_info = no_info;
        },
      )
  accepted_lem cli (gives n) no_fd no_info =
      let held = record cli { fd = some n } in
      let p = os.getpeername (accepts s.fd (gives n) ∷ l) (some n) in
      let (same_fd, same_pai) = set_peer_lem held p in
      let (fd, pai, _) = share_buffer_lem s (set_peer held p) in
      let with_fd = fd ∙ same_fd in
      (
        (share_buffer s (set_peer held p), names_peer (some n) p ∷ accepts s.fd (gives n) ∷ l),
        refl,
        record {
          opened_more = rw with_fd (omega arith);
          closed_as = refl;
          resolved_as = refl;
          freed_as = refl;
          failed_as = refl;
          rounds_more = refl;
          no_info = pai ∙ same_pai ∙ no_info;
        },
      )

  pub accept_lem : (env : Env) → Ends (accept env os s l) λ cli l'. Accepted cli l l'
  unfolding accept SockDefs.init BufDefs.init
  accept_lem env = accepted_lem _ (os.accept l s.fd) refl refl

  accept-Holding :
      (env : Env)
      → IsBalanced s l
      → Ends (accept env os s l) λ cli l'. Holding s cli l' × (rounds l' ≡ suc (rounds l))
  accept-Holding env b =
      let (r, run, t) = accept_lem env in
      let counts = b.descriptors in
      let lists = b.infos in
      let more = t.opened_more in
      let same = t.closed_as in
      let same_lists = t.resolved_as in
      let same_freed = t.freed_as in
      let same_failed = t.failed_as in
      (
        r,
        run,
        (
          record {
            descriptors = omega (arith, counts, more, same);
            infos = omega (arith, lists, same_lists, same_freed, same_failed);
            paired = b.paired;
            no_info = t.no_info;
          },
          t.rounds_more,
        ),
      )

pub dispatch_steps :
    (self : Server) (cli : Socket) (l l' : Log) (n : ℕ) (r : ℕ × Socket)
    → self.client_proc (record cli { buf = self.buffer }) l ≡ ok (r, l')
    → r.1.fd ≡ some n
    → r.1.pai ≡ null
    → dispatch_client self cli l
      ≡ ok (record (r.1) { fd = none }, closes (some n) ∷ shuts (some n) ∷ l')
unfolding dispatch_client done
dispatch_steps self cli l l' n r run e p = rw run (close_client r.1 l' n e p)

serve_steps :
    (self : Server) (cli : Socket) (l : Log) {n : ℕ} {t : Socket × Log}
    → cli.fd ≡ some n
    → dispatch_client self cli l ≡ ok t
    → serve self cli l ≡ ok t
unfolding serve is_fd
serve_steps self cli l e run = let valid : is_valid cli ≡ true = rw e in rw valid run

not_served_steps :
    (self : Server) (cli : Socket) (l : Log) → cli.fd ≡ none → serve self cli l ≡ ok (cli, l)
unfolding serve is_fd
not_served_steps self cli l e = let valid : is_valid cli ≡ false = rw e in rw valid

round_steps :
    (env : Env) (os : Os) (self : Server) {cli cli' : Socket} (l : Log) {l₁ l₂ : Log}
    → accept env os self.sock l ≡ ok (cli, l₁)
    → serve self cli l₁ ≡ ok (cli', l₂)
    → round env os self l ≡ ok (cli', l₂)
unfolding round
round_steps env os self l a b = rw a b

module _ {s : Socket} where
  not_served : {cli : Socket} {l : Log} → Holding s cli l → cli.fd ≡ none → IsBalanced s l
  unfolding is_fd
  not_served {l} h e =
      let counts : opened l ≡ closed l + flag (is_valid s) + 0 = rw e at (h.descriptors) in
      record { descriptors = omega (arith, counts); infos = h.infos; paired = h.paired }

  -- A handler that left the accounts alone, and the close after it.
  closed-IsBalanced :
      {cli : Socket} {l l' : Log} (n : ℕ)
      → Holding s cli l
      → Unchanged l l'
      → cli.fd ≡ some n
      → IsBalanced s (closes (some n) ∷ shuts (some n) ∷ l')
  unfolding is_fd opened closed resolved freed failed_opens
  closed-IsBalanced {l} n h u e =
      let counts : opened l ≡ closed l + flag (is_valid s) + 1 = rw e at (h.descriptors) in
      let lists = h.infos in
      record {
        descriptors = rw (u.opened_as, u.closed_as) (omega (arith, counts));
        infos = rw (u.resolved_as, u.freed_as, u.failed_as) lists;
        paired = h.paired;
      }

  serve-IsBalanced :
      (self : Server) (cli : Socket) {l : Log}
      → IsHandler self.client_proc
      → Holding s cli l
      → Ends (serve self cli l) λ cli' l'. IsBalanced s l' × (rounds l' ≡ rounds l)
  unfolding rounds
  serve-IsBalanced self cli {l} handler h = elim (Option-cases cli.fd) [
    | inl e ↦ ((cli, l), not_served_steps self cli l e, (not_served h e, refl))
    | inr (n, e) ↦
        let (r, run, (fd, pai, same)) = handler (record cli { buf = self.buffer }) l in
        (
          (record (r.0.1) { fd = none }, closes (some n) ∷ shuts (some n) ∷ r.1),
          serve_steps self cli l e
              (dispatch_steps self cli l r.1 n r.0 run (fd ∙ e) (pai ∙ h.no_info)),
          (closed-IsBalanced n h same e, same.rounds_as),
        )
  ]

-- A round of the loop ends, and leaves no client open.
pub round-IsBalanced :
    (env : Env) (os : Os) (self : Server) {l : Log}
    → IsHandler self.client_proc
    → IsBalanced self.sock l
    → Ends (round env os self l) λ cli l'. IsBalanced self.sock l' × (rounds l' ≡ suc (rounds l))
round-IsBalanced env os self {l} handler b =
    let (r, run, (held, more)) = accept-Holding os self.sock l env b in
    let (r', run', (b', same)) = serve-IsBalanced self r.0 handler held in
    (r', round_steps env os self l run run', (b', same ∙ more))
