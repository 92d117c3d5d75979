-- ===== src/Socket/Session.antt =====
-- The life of a socket: any sequence of its functions, each with any outcome.
use mathlib.Core.Path.{subst}
use tecc.Base.{ℕ, List, Option, ◌+◌, ◌≡◌, refl, sym, ◌∙◌, false, [], arith}
use tecc.Base.Run.{Run, ok}
use tecc.Buffer.Defs.{Buffer, Env}
use tecc.Buffer.Defs
use tecc.Socket.Os.{Os, Log}
use tecc.Socket.Defs.{Platform, Err, Params, Socket, is_fd, is_valid, init, close, done}
use tecc.Socket.Methods.{
  open_socket, connect, set_options, bind, listen, accept, read_loop, write, write_str,
}
use tecc.Socket.Counts.{Ends, GivesInfo, IsBalanced, opened, closed, resolved, freed, failed_opens}
use tecc.Socket.Traffic.{read_loop-IsBalanced, write-IsBalanced, write_str-IsBalanced}
use tecc.Socket.Accepting.{accept-done}
use tecc.Socket.Balance.{
  close-IsBalanced, open_socket-IsBalanced, connect-IsBalanced, bind-IsBalanced, listen-IsBalanced,
  set_options-IsBalanced,
}

-- From an initialized socket, the socket and the log after some calls. A socket is opened only
-- while it has no descriptor, and a client that is accepted is done with before the next call.
pub data Session (c : Platform) (env : Env) (os : Os) (params : Params)
    : Socket → Log → Type 0 where
  inits : {s : Socket} → init env params ≡ ok s → Session c env os params s []
  opens :
      {s s' : Socket} {l l' : Log} {err : Err}
      → Session c env os params s l
      → is_valid s ≡ false
      → open_socket c os s l ≡ ok ((err, s'), l')
      → Session c env os params s' l'
  connects :
      {s s' : Socket} {l l' : Log} {err : Err}
      → Session c env os params s l
      → connect os s l ≡ ok ((err, s'), l')
      → Session c env os params s' l'
  sets_options :
      {s : Socket} {l l' : Log} {err : Err}
      → Session c env os params s l
      → set_options c os s l ≡ ok (err, l')
      → Session c env os params s l'
  binds :
      {s : Socket} {l l' : Log} {err : Err}
      → Session c env os params s l
      → bind os s l ≡ ok (err, l')
      → Session c env os params s l'
  listens :
      {s : Socket} {l l' : Log} {err : Err}
      → Session c env os params s l
      → listen os s l ≡ ok (err, l')
      → Session c env os params s l'
  closes :
      {s s' : Socket} {l l' : Log}
      → Session c env os params s l
      → close s l ≡ ok (s', l')
      → Session c env os params s' l'
  receives :
      {s s' : Socket} {l l' : Log} {err : Err} (env' : Env) (fuel : ℕ) (dst dst' : Buffer)
      → Session c env os params s l
      → read_loop fuel env' os s dst l ≡ ok ((err, s', dst'), l')
      → Session c env os params s' l'
  sends :
      {s : Socket} {l l' : Log} {err : Err} (src : Buffer)
      → Session c env os params s l
      → write os s src l ≡ ok (err, l')
      → Session c env os params s l'
  sends_text :
      {s : Socket} {l l' : Log} {err : Err} (str : Option (List ℕ))
      → Session c env os params s l
      → write_str os s str l ≡ ok (err, l')
      → Session c env os params s l'
  serves :
      {s cli cli' : Socket} {l l₁ l₂ : Log} (env' : Env)
      → Session c env os params s l
      → accept env' os s l ≡ ok (cli, l₁)
      → done cli l₁ ≡ ok (cli', l₂)
      → Session c env os params s l₂

ok-inj : {A : Type 0} {a b : A} → ok a ≡ ok b → a ≡ b
ok-inj e = cc

-- What a run returned is its result.
pub at_end :
    {A : Type 0} {run : Run (A × Log)} (P : A → Log → Type 0) (a : A) (l : Log)
    → Ends run P
    → run ≡ ok (a, l)
    → P a l
at_end P a l (r, run, holds) e = subst (λ (x : _ × Log). P x.0 x.1) (ok-inj (sym run ∙ e)) holds

pub fresh-IsBalanced :
    (env : Env) (params : Params) {s : Socket} → init env params ≡ ok s → IsBalanced s []
unfolding init Defs.init is_fd opened closed resolved freed failed_opens
fresh-IsBalanced env params e =
    subst (λ (x : Socket). IsBalanced x []) (ok-inj e)
      (record { descriptors = refl; infos = refl; paired = refl })

pub Session-IsBalanced :
    {c : Platform} {env : Env} {os : Os} {params : Params} {s : Socket} {l : Log}
    → GivesInfo os
    → Session c env os params s l
    → IsBalanced s l
Session-IsBalanced {env} {params} h (inits e) = fresh-IsBalanced env params e
Session-IsBalanced {c} {os} h (opens {s'} {l'} {err} t shut run) =
    at_end (λ r x. IsBalanced r.1 x) (err, s') l'
      (open_socket-IsBalanced (Session-IsBalanced h t) c os h shut) run
Session-IsBalanced {os} h (connects {s'} {l'} {err} t run) =
    at_end (λ r x. IsBalanced r.1 x) (err, s') l' (connect-IsBalanced (Session-IsBalanced h t) os)
      run
Session-IsBalanced {c} {os} {s} h (sets_options {l'} {err} t run) =
    at_end (λ r x. IsBalanced s x) err l' (set_options-IsBalanced (Session-IsBalanced h t) c os) run
Session-IsBalanced {os} {s} h (binds {l'} {err} t run) =
    at_end (λ r x. IsBalanced s x) err l' (bind-IsBalanced (Session-IsBalanced h t) os) run
Session-IsBalanced {os} {s} h (listens {l'} {err} t run) =
    at_end (λ r x. IsBalanced s x) err l' (listen-IsBalanced (Session-IsBalanced h t) os) run
Session-IsBalanced h (closes {s'} {l'} t run) =
    (at_end (λ r x. IsBalanced r x × (is_valid r ≡ false)) s' l'
      (close-IsBalanced (Session-IsBalanced h t)) run).0
Session-IsBalanced {os} h (receives {s} {s'} {l} {l'} {err} env' fuel dst dst' t run) =
    read_loop-IsBalanced env' os fuel s dst l (Session-IsBalanced h t) ((err, s', dst'), l') run
Session-IsBalanced {os} {s} h (sends {l} {l'} {err} src t run) =
    write-IsBalanced os s s src l (Session-IsBalanced h t) (err, l') run
Session-IsBalanced {os} {s} h (sends_text {l} {l'} {err} str t run) =
    write_str-IsBalanced os s s str l (Session-IsBalanced h t) (err, l') run
Session-IsBalanced {os} {s} h (serves {cli} {cli'} {l₁} {l₂} env' t run ended) =
    let served =
      at_end (λ cli l'. Ends (done cli l') λ cli' l''. IsBalanced s l'' × (is_valid cli' ≡ false))
        cli l₁ (accept-done os (Session-IsBalanced h t) env') run in
    (at_end (λ cli' l''. IsBalanced s l'' × (is_valid cli' ≡ false)) cli' l₂ served ended).0

-- Where getaddrinfo gives no NULL, and whatever else the system answers: after any calls of a
-- socket to open, connect, set its options, bind, listen, read, write, write a string, accept and
-- close, each of which ended, in which it is opened only while it has no descriptor and each client
-- that is accepted is done with before the next call, TecSocket_done ends without a fault and
-- closes what is left. As many descriptors were closed as the system gave, and of the address lists
-- just one for each failed call of socket was not freed.
pub Session-done :
    {c : Platform} {env : Env} {os : Os} {params : Params} {s : Socket} {l : Log}
    → GivesInfo os
    → Session c env os params s l
    → Ends (done s l) λ s' l'.
      (opened l' ≡ closed l') × (resolved l' ≡ freed l' + failed_opens l') × (is_valid s' ≡ false)
unfolding done
Session-done h t =
    let (r, run, (b, shut)) = close-IsBalanced (Session-IsBalanced h t) in
    let same : opened r.1 ≡ closed r.1 + 0 = rw shut at (b.descriptors) in
    let lists : resolved r.1 ≡ freed r.1 + 0 + failed_opens r.1 = rw shut at (b.infos) in
    (r, run, (omega arith, omega arith, shut))
