-- ===== src/Socket/Balance.antt =====
-- What the functions of a socket take from the system, and what they give back.
use tecc.Base.{ℕ, ◌+◌, ◌≡◌, inl, inr, refl, ◌∙◌, true, false, ◌&&◌, ◌∷◌, arith, ◌==◌, Bool-cases}
use tecc.Base.Heap.{Ptr, null}
use tecc.Socket.Os.{
  Outcome, failed, gives, Peer, ip4, ip6, other_family, Os, Query, resolves, opens, connects, binds,
  listens, Log,
}
use tecc.Socket.Defs.{
  Platform, no_error, bad_fd, refused, unsupported, Socket, is_fd, is_valid, is_server, close,
}
use tecc.Socket.Methods.{
  set_peer, get_socket_info, set_fd, open_at, query, open_socket, connected, connect, option_err,
  set_both_options, set_options, bind, listen,
}
use tecc.Socket.Counts.{
  close_open, opened, closed, resolved, freed, failed_opens, IsBalanced, GivesInfo, Ends,
  close_closed, is_neutral, IsBalanced-neutral,
}

-- A socket with the same descriptor and addresses holds the same.
IsBalanced-same :
    {s t : Socket} {l : Log} → t.fd ≡ s.fd → t.pai ≡ s.pai → IsBalanced s l → IsBalanced t l
IsBalanced-same e p b = record {
  descriptors = rw e b.descriptors;
  infos = rw e b.infos;
  paired = rw (e, p) b.paired;
}

pub set_peer_lem :
    (s : Socket) (o : Outcome Peer) → ((set_peer s o).1.fd ≡ s.fd) × ((set_peer s o).1.pai ≡ s.pai)
unfolding set_peer
set_peer_lem s (failed e) = (refl, refl)
set_peer_lem s (gives (ip4 addr port)) = (refl, refl)
set_peer_lem s (gives (ip6 addr port)) = (refl, refl)
set_peer_lem s (gives other_family) = (refl, refl)

module _ {s : Socket} {l : Log} (b : IsBalanced s l) where
  pub close-IsBalanced : Ends (close s l) λ s' l'. IsBalanced s' l' × (is_valid s' ≡ false)
  unfolding opened closed resolved freed failed_opens is_fd
  close-IsBalanced = elim (Bool-cases (is_valid s)) [
    | inl e ↦
        let counts = b.descriptors in
        let lists = b.infos in
        (
          _,
          close_open s l e (b.paired ∙ rw e),
          (
            record { descriptors = ground (arith, e); infos = ground (arith, e); paired = refl },
            refl,
          ),
        )
    | inr e ↦ (_, close_closed s l e, (b, e))
  ]

  get_socket_info-IsBalanced : (os : Os) → Ends (get_socket_info os s l) λ r l'. IsBalanced r.1 l'
  unfolding get_socket_info is_neutral
  get_socket_info-IsBalanced os =
      let (same_fd, same_pai) = set_peer_lem s (os.getpeername l s.fd) in
      (_, refl, IsBalanced-same same_fd same_pai (IsBalanced-neutral _ refl b))

  connected-IsBalanced :
      (os : Os) (o : Outcome (Unit {0})) → Ends (connected os s o l) λ r l'. IsBalanced r.1 l'
  unfolding connected
  connected-IsBalanced os (failed e) =
      let (r, run, (closed, _)) = close-IsBalanced in (((refused, r.0), r.1), rw run, closed)
  connected-IsBalanced os (gives a) = get_socket_info-IsBalanced os

  set_fd-IsBalanced :
      (q : Query) (info : Ptr) (o : Outcome ℕ)
      → (info == null) ≡ false
      → is_valid s ≡ false
      → IsBalanced (set_fd s info o).1 (opens o ∷ resolves q (gives info) ∷ l)
  unfolding set_fd opened closed resolved freed failed_opens is_fd
  set_fd-IsBalanced q info (failed e) some_info shut =
      let counts = b.descriptors in
      let lists = b.infos in
      record {
        descriptors = omega (arith, counts);
        infos = omega (arith, lists);
        paired = b.paired;
      }
  set_fd-IsBalanced q info (gives fd) some_info shut =
      let counts : opened l ≡ closed l + 0 = rw shut at (b.descriptors) in
      let lists : resolved l ≡ freed l + 0 + failed_opens l = rw shut at (b.infos) in
      record { descriptors = omega arith; infos = omega arith; paired = some_info }

  open_at-IsBalanced :
      (os : Os) (q : Query) (o : Outcome Ptr)
      → ((info : Ptr) → o ≡ gives info → (info == null) ≡ false)
      → is_valid s ≡ false
      → Ends (open_at os s o (resolves q o ∷ l)) λ r l'. IsBalanced r.1 l'
  unfolding open_at opened closed resolved freed failed_opens
  open_at-IsBalanced os q (failed e) some_info shut =
      let lists = b.infos in
      (
        _,
        refl,
        record { descriptors = b.descriptors; infos = omega (arith, lists); paired = b.paired },
      )
  open_at-IsBalanced os q (gives info) some_info shut =
      (_, refl, set_fd-IsBalanced q info _ (some_info info refl) shut)

  pub open_socket-IsBalanced :
      (c : Platform) (os : Os)
      → GivesInfo os
      → is_valid s ≡ false
      → Ends (open_socket c os s l) λ r l'. IsBalanced r.1 l'
  unfolding open_socket
  open_socket-IsBalanced c os gives_info shut =
      elim (Bool-cases (s.params.socktype == c.sock_stream)) [
        | inl e ↦
            let (r, run, balanced) =
              open_at-IsBalanced os (query s.params) (os.getaddrinfo l (query s.params))
                (gives_info l (query s.params)) shut in
            (r, rw e run, balanced)
        | inr e ↦ (((unsupported, s), l), rw e, b)
      ]

  info_there : is_valid s ≡ true → (s.pai == null) ≡ false
  info_there e = b.paired ∙ rw e

  pub listen-IsBalanced : (os : Os) → Ends (listen os s l) λ err l'. IsBalanced s l'
  unfolding listen is_neutral
  listen-IsBalanced os = elim (Bool-cases (is_valid s)) [
    | inl e ↦
        let n = s.params.queue_size in
        let o = os.listen l s.fd n in
        ((option_err no_error o, listens s.fd n o ∷ l), rw e, IsBalanced-neutral _ refl b)
    | inr e ↦ ((bad_fd, l), rw e, b)
  ]

  pub bind-IsBalanced : (os : Os) → Ends (bind os s l) λ err l'. IsBalanced s l'
  unfolding bind is_neutral
  bind-IsBalanced os = elim (Bool-cases (is_valid s)) [
    | inl e ↦
        let o = os.bind l s.fd s.pai in
        (
          (option_err no_error o, binds s.fd s.pai o ∷ l),
          rw (e, info_there e),
          IsBalanced-neutral _ refl b,
        )
    | inr e ↦ ((bad_fd, l), rw e, b)
  ]

  set_both : (c : Platform) (os : Os) → Ends (set_both_options os s l) λ err l'. IsBalanced s l'
  unfolding set_both_options is_neutral
  set_both c os = (_, refl, IsBalanced-neutral _ refl (IsBalanced-neutral _ refl b))

  pub set_options-IsBalanced :
      (c : Platform) (os : Os) → Ends (set_options c os s l) λ err l'. IsBalanced s l'
  unfolding set_options
  set_options-IsBalanced c os = elim (Bool-cases (is_valid s && is_server c s)) [
    | inl e ↦ let (r, run, balanced) = set_both c os in (r, rw e run, balanced)
    | inr e ↦ ((no_error, l), rw e, b)
  ]

module _ {s : Socket} {l : Log} (b : IsBalanced s l) where
  pub connect-IsBalanced : (os : Os) → Ends (connect os s l) λ r l'. IsBalanced r.1 l'
  unfolding connect is_neutral
  connect-IsBalanced os = elim (Bool-cases (is_valid s)) [
    | inl e ↦
        let o = os.connect l s.fd s.pai in
        let (r, run, balanced) =
          connected-IsBalanced (IsBalanced-neutral (connects s.fd s.pai o) refl b) os o in
        (r, rw (e, info_there b e) run, balanced)
    | inr e ↦ (((bad_fd, s), l), rw e, b)
  ]
