-- ===== src/Socket/Accepting.antt =====
-- `TecSocket_accept`, and the writes of a socket.
use mathlib.Core.Path.{subst}
use tecc.Base.{
  ℕ, suc, ◌+◌, ◌^◌, ◌<◌, ◌≤◌, ◌≡◌, ◌⊎◌, inl, inr, refl, sym, ap, ◌∙◌, true, false, none, some, List,
  [], ◌∷◌, ◌++◌, arith, ◌==◌, Bool-cases, ==_iff, length, length-append, take-length, length-take,
}
use tecc.Base.Heap.{null}
use tecc.Base.Run.{ok, Returns}
use tecc.Buffer.Bytes.{peek_lem}
use tecc.Buffer.Defs.{Buffer, Env}
use tecc.Buffer.Defs
use tecc.Buffer.Growth.{view, int_size_small}
use tecc.Socket.Os.{
  Outcome, failed, gives, Fd, Peer, Os, Log, accepts, names_peer, shuts, closes, writes,
}
use tecc.Socket.Defs.{Err, no_error, io, Socket, is_fd, is_valid, init, close, done, is_ok}
use tecc.Socket.Methods.{
  set_peer, get_socket_info, share_buffer, accepted, accept, sent, write, write_str,
}
use tecc.Socket.Counts.{
  Ends, IsBalanced, opened, closed, resolved, freed, failed_opens, close_closed,
}
use tecc.Socket.Balance.{set_peer_lem}

-- A socket with a descriptor and no addresses.
pub close_client :
    (s : Socket) (l : Log) (n : ℕ)
    → s.fd ≡ some n
    → s.pai ≡ null
    → close s l ≡ ok (record s { fd = none }, closes (some n) ∷ shuts (some n) ∷ l)
unfolding close is_fd
close_client s l n e p = rw (e, p)

pub share_buffer_lem :
    (s : Socket) (r : Err × Socket)
    → ((share_buffer s r).fd ≡ r.1.fd)
      × ((share_buffer s r).pai ≡ r.1.pai)
      × (r.0 ≡ no_error → (share_buffer s r).buf ≡ s.buf)
unfolding share_buffer is_ok
share_buffer_lem s (err, cli) = elim (Bool-cases (is_ok err)) [
  | inl e ↦ (rw e, rw e, λ h. rw e)
  | inr e ↦ (rw e, rw e, λ h. absurd (differ (ap is_ok (sym h) ∙ e)))
]
  where
    differ : true ≡ false → ⊥
    differ h = cc

module _ {s : Socket} {l : Log} (os : Os) (b : IsBalanced s l) where
  -- The events of a client that was accepted and closed.
  client-IsBalanced :
      (n : ℕ) (p : Outcome Peer)
      → IsBalanced s
          (closes (some n) ∷ shuts (some n) ∷ names_peer (some n) p ∷ accepts s.fd (gives n) ∷ l)
  unfolding opened closed resolved freed failed_opens is_fd
  client-IsBalanced n p =
      let counts = b.descriptors in
      record { descriptors = omega (arith, counts); infos = b.infos; paired = b.paired }

  accepted-IsBalanced :
      (cli : Socket) (o : Outcome ℕ)
      → cli.fd ≡ none
      → cli.pai ≡ null
      → Ends
          (accepted os s cli o (accepts s.fd o ∷ l))
          λ cli' l'. Ends (done cli' l') λ cli'' l''. IsBalanced s l'' × (is_valid cli'' ≡ false)
  unfolding accepted done get_socket_info is_fd opened closed resolved freed failed_opens
  accepted-IsBalanced cli (failed e) no_fd no_info =
      let counts = b.descriptors in
      let shut : is_valid cli ≡ false = rw no_fd in
      (
        (cli, accepts s.fd (failed e) ∷ l),
        refl,
        (
          (cli, accepts s.fd (failed e) ∷ l),
          close_closed cli _ shut,
          (
            record { descriptors = omega (arith, counts); infos = b.infos; paired = b.paired },
            shut,
          ),
        ),
      )
  accepted-IsBalanced cli (gives n) no_fd no_info =
      let held = record cli { fd = some n } in
      let p = os.getpeername (accepts s.fd (gives n) ∷ l) (some n) in
      let (same_fd, same_pai) = set_peer_lem held p in
      let (fd, pai, _) = share_buffer_lem s (set_peer held p) in
      let cli' = share_buffer s (set_peer held p) in
      (
        (cli', names_peer (some n) p ∷ accepts s.fd (gives n) ∷ l),
        refl,
        (
          _,
          close_client cli' _ n (fd ∙ same_fd) (pai ∙ same_pai ∙ no_info),
          (client-IsBalanced n p, refl),
        ),
      )

  -- A client that is accepted, and done with later, takes nothing for good: whatever the system
  -- answers, the server's account stands as it did.
  pub accept-done :
      (env : Env)
      → Ends
          (accept env os s l)
          λ cli l'. Ends (done cli l') λ cli' l''. IsBalanced s l'' × (is_valid cli' ≡ false)
  unfolding accept init Defs.init
  accept-done env = accepted-IsBalanced _ (os.accept l s.fd) refl refl

-- One call passed the bytes to the system, and the error is 0 just if it took all of them.
pub record Passed (os : Os) (fd : Fd) (bytes : List ℕ) (l : Log) (r : Err × Log) : Type 0 where
  pub one_call : r.1 ≡ writes fd bytes (os.write l fd bytes) ∷ l
  pub all_taken : r.0 ≡ no_error → os.write l fd bytes ≡ gives (length bytes)
  pub succeeds : os.write l fd bytes ≡ gives (length bytes) → r.0 ≡ no_error

sent-taken : (n : ℕ) (o : Outcome ℕ) → sent n o ≡ no_error → o ≡ gives n
unfolding sent
sent-taken n (failed e) h = cc
sent-taken n (gives k) h = elim (Bool-cases (n == k)) [
  | inl e ↦ ap gives (sym ((==_iff n k).0 e))
  | inr e ↦ let short : io ≡ no_error = rw e at h in cc
]

sent_all : (n : ℕ) → sent n (gives n) ≡ no_error
unfolding sent
sent_all n = let same : (n == n) ≡ true = (==_iff n n).1 refl in rw same

module _ (os : Os) (s : Socket) (src : Buffer) (l : Log) where
  write_steps :
      (src.size == 0) ≡ false
      → src.size ≤ length src.contents
      → write os s src l
        ≡ ok (
          sent src.size (os.write l s.fd (view src)),
          writes s.fd (view src) (os.write l s.fd (view src)) ∷ l,
        )
  unfolding write
  write_steps filled fits = rw (filled, peek_lem src.contents 0 src.size (omega arith))

  write-Passed :
      (src.size == 0) ≡ false
      → src.size ≤ length src.contents
      → Returns (write os s src l) (Passed os s.fd (view src) l)
  write-Passed filled fits =
      let o = os.write l s.fd (view src) in
      let size : length (view src) ≡ src.size = omega (arith, length-take src.size src.contents) in
      (
        (sent src.size o, writes s.fd (view src) o ∷ l),
        write_steps filled fits,
        record {
          one_call = refl;
          all_taken = λ h. sent-taken src.size o h ∙ ap gives (sym size);
          succeeds = λ h. ap (sent src.size) (h ∙ ap gives size) ∙ sent_all src.size;
        },
      )

  -- `TecSocket_write` of a buffer that holds its size ends without a fault. It makes no call if the
  -- buffer is empty; else it passes all the bytes in one call, and returns 0 just if the system
  -- took all of them.
  pub write_lem :
      src.size ≤ length src.contents
      → ((src.size ≡ 0) × (write os s src l ≡ ok (no_error, l)))
        ⊎ Returns (write os s src l) (Passed os s.fd (view src) l)
  unfolding write
  write_lem fits = elim (Bool-cases (src.size == 0)) [
    | inl e ↦ inl ((==_iff src.size 0).0 e, rw e)
    | inr e ↦ inr (write-Passed e fits)
  ]

-- The string with its null byte as the block of a buffer of size `n`.
abbrev text : List ℕ → ℕ → Buffer
text str n = record { contents = str ++ (0 ∷ []); pos = 0; size = n; capacity = n; block_size = 0 }

-- `TecSocket_write_str` of a string whose length with its null byte an int holds passes it with its null byte in one call, and returns 0 just if the
-- system took all of it.
pub write_str-Passed :
    (os : Os) (s : Socket) (str : List ℕ) (l : Log)
    → length str + 1 < 2 ^ 31
    → Returns (write_str os s (some str) l) (Passed os s.fd (str ++ (0 ∷ [])) l)
unfolding write_str
write_str-Passed os s str l short =
    let size = length-append str (0 ∷ []) in
    let n = suc (length str) in
    let (r, run, p) = write-Passed os s (text str n) l (ground arith) (omega (arith, size)) in
    let whole = take-length (str ++ (0 ∷ [])) n (omega (arith, size)) in
    (
      r,
      ap (λ (n : ℕ). write os s (text str n) l) (int_size_small n (omega arith)) ∙ run,
      subst (λ (bytes : List ℕ). Passed os s.fd bytes l r) whole p,
    )
