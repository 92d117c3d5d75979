-- ===== src/Socket/Transfer.antt =====
-- `TecSocket_read`: the bytes that a peer sends are written to a buffer, chunk by chunk.
use mathlib.Core.Path.{subst}
use tecc.Base.{
  ℕ, zero, suc, ◌+◌, ◌^◌, ◌≤◌, ◌<◌, ◌≡◌, inl, inr, refl, sym, ap, ◌∙◌, true, List, [], ◌∷◌, ◌++◌,
  arith, leb, u64, length, length-append, drop, append-nil, append_assoc, take-length, drop-length,
}
use tecc.Base.Run.{Run, ok, fault, out_of_fuel, ◌>>=◌, Returns, Run-cases, bind_assoc, bind_cong}
use tecc.Buffer.Bytes.{splice, memcpy_lem, take-splice_front, length-splice}
use tecc.Buffer.Defs.{Buffer, Env, ensure_capacity}
use tecc.Buffer.Defs
use tecc.Buffer.Growth.{IsValid, view, length-view}
use tecc.Buffer.Writing.{put, write_grown, put-Written}
use tecc.Socket.Os.{Outcome, failed, gives, Fd, Os, reads, Log}
use tecc.Socket.Defs.{Err, no_error, system, Socket}
use tecc.Socket.Methods.{received, read_loop}

-- The chunks are written to the buffer, one after the other.
unfoldable pub write_all : Env → Buffer → List (List ℕ) → Run Buffer
write_all env b [] = ok b
write_all env b (c ∷ cs) = Defs.write env b c >>= λ r. write_all env r.1 cs

abbrev pub joined : List (List ℕ) → List ℕ
joined [] = []
joined (c ∷ cs) = c ++ joined cs

-- Reads of at most `n` bytes from `fd` give the chunks, until one gives no byte or fails.
pub data Receives (os : Os) (fd : Fd) (n : ℕ) : Log → List (List ℕ) → Err → Log → Type 0 where
  ended :
      {l : Log}
      → os.read l fd n ≡ gives []
      → Receives os fd n l [] no_error (reads fd n (gives []) ∷ l)
  broken :
      {l : Log} (e : ℕ)
      → os.read l fd n ≡ failed e
      → Receives os fd n l [] (system e) (reads fd n (failed e) ∷ l)
  more :
      {l l' : Log} {err : Err} {b : ℕ} {bytes : List ℕ} {chunks : List (List ℕ)}
      → os.read l fd n ≡ gives (b ∷ bytes)
      → Receives os fd n (reads fd n (gives (b ∷ bytes)) ∷ l) chunks err l'
      → Receives os fd n l ((b ∷ bytes) ∷ chunks) err l'

-- A read gives no more than was asked for.
abbrev pub IsBounded : Os → Type 0
IsBounded os =
    (l : Log) (fd : Fd) (n : ℕ) (bytes : List ℕ) → os.read l fd n ≡ gives bytes → length bytes ≤ n

-- The first step of the loop where bytes come.
received_steps :
    (env : Env) (s : Socket) (dst : Buffer) (b : ℕ) (bytes : List ℕ)
    (next : Socket → Buffer → Log → Run ((Err × Socket × Buffer) × Log)) (l : Log)
    → length (b ∷ bytes) ≤ length s.buf.contents
    → received env s dst next (gives (b ∷ bytes)) l ≡ (
        Defs.write env dst (b ∷ bytes) >>= λ r.
        next
          (record s { buf = record (s.buf) { contents = splice s.buf.contents 0 (b ∷ bytes) } })
          r.1
          l)
unfolding received
received_steps env s dst b bytes next l fits =
    rw
      (
        memcpy_lem s.buf.contents 0 (b ∷ bytes) (omega arith),
        take-splice_front s.buf.contents (b ∷ bytes) fits,
      )
      (elim (Run-cases (Defs.write env dst (b ∷ bytes))) [
        | inl e ↦ rw e
        | inr (inl e) ↦ rw e
        | inr (inr (m, e)) ↦ rw e
      ])

ok-inj : {A : Type 0} {a b : A} → ok a ≡ ok b → a ≡ b
ok-inj e = cc

-- What is left of a run of the loop: the error, the descriptor, the buffer and the log.
abbrev left : (Err × Socket × Buffer) × Log → Err × Fd × Buffer × Log
left r = (r.0.0, r.0.1.fd, r.0.2, r.1)

abbrev pub outcome : (Err × Socket × Buffer) × Log → Run (Err × Fd × Buffer × Log)
outcome r = ok (left r)

bound-ok :
    {A B : Type 0} (m : Run A) (f : A → B) {b : B}
    → (m >>= λ a. ok (f a)) ≡ ok b
    → Returns m (λ a. f a ≡ b)
bound-ok out_of_fuel f e = cc
bound-ok fault f e = cc
bound-ok (ok a) f e = (a, refl, ok-inj e)

module _ {os : Os} (env : Env) (bounded : IsBounded os) where
  -- TecSocket_read, where no read gives more bytes than it asked for, the block of the socket is of
  -- its capacity, and the fuel is more than the chunks that come, does what the writes of the
  -- chunks do, one after the other: where they end, so does it, with what they leave in the buffer,
  -- the error of the last read, the descriptor it had, and the calls that it made; where a write
  -- faults, so does it.
  pub read_loop-write_all :
      (fuel : ℕ) (s : Socket) (dst : Buffer) {l l' : Log} {chunks : List (List ℕ)} {err : Err}
      → length s.buf.contents ≡ s.buf.capacity
      → Receives os s.fd s.buf.capacity l chunks err l'
      → length chunks < fuel
      → (read_loop fuel env os s dst l >>= outcome)
        ≡ (write_all env dst chunks >>= λ t. ok (err, s.fd, t, l'))
  unfolding read_loop write_all received
  read_loop-write_all zero s dst block rec enough = absurd (omega arith)
  read_loop-write_all (suc fuel) s dst block (ended e) enough = rw e
  read_loop-write_all (suc fuel) s dst block (broken k e) enough = rw e
  read_loop-write_all (suc fuel) s dst {l} {l'} {err} block (more {b} {bytes} {chunks} e rest)
        enough =
      let contents = splice s.buf.contents 0 (b ∷ bytes) in
      let s' = record s { buf = record (s.buf) { contents = contents } } in
      let next = λ (s₁ : Socket) (t₁ : Buffer). read_loop fuel env os s₁ t₁ in
      let l₁ = reads s.fd s.buf.capacity (gives (b ∷ bytes)) ∷ l in
      let w = Defs.write env dst (b ∷ bytes) in
      let held = length-splice s.buf.contents 0 (b ∷ bytes) ∙ block in
      rw e (
        ap (λ r. r >>= outcome)
          (received_steps env s dst b bytes next l₁ (omega (arith, bounded l s.fd _ _ e)))
        ∙ sym (bind_assoc w (λ r. next s' r.1 l₁) outcome)
        ∙ bind_cong w _ _ (λ r. read_loop-write_all fuel s' r.1 held rest (omega arith))
        ∙ bind_assoc w (λ r. write_all env r.1 chunks) (λ t. ok (err, s.fd, t, l')))

-- A write at the end of a buffer that has the room.
write_end :
    (env : Env) {b : Buffer} (src : List ℕ)
    → IsValid b
    → b.pos ≡ b.size
    → b.size + length src ≤ b.capacity
    → b.capacity < 2 ^ 64
    → Returns (Defs.write env b src) λ r.
      IsValid r.1
      × (view r.1 ≡ view b ++ src)
      × (r.1.pos ≡ r.1.size)
      × (r.1.size ≡ b.size + length src)
      × (r.1.capacity ≡ b.capacity)
unfolding Defs.write ensure_capacity
write_end env {b} [] v at_end room small =
    ((0, b), refl, (v, sym (append-nil (view b)), at_end, omega arith, refl))
write_end env {b} (x ∷ src) v at_end room small =
    let n = length (x ∷ src) in
    let here : leb (u64 (b.pos + n)) b.capacity ≡ true = ground arith in
    let held : length b.contents ≡ b.capacity = v.block in
    let w = put-Written (x ∷ src) v (record {
      valid = v;
      room = omega arith;
      same_view = refl;
      same_pos = refl;
      same_size = refl;
      same_block_size = refl;
      bounded = omega arith;
      lean = λ h. omega arith;
    }) in
    let whole : length (view b) ≡ b.pos = length-view v ∙ sym at_end in
    (
      (n, put b b (x ∷ src)),
      write_grown env b b (x ∷ src) (ground arith) (rw here) (omega arith),
      (
        w.valid,
        w.contents
            ∙ ap (λ (front : List ℕ). front ++ ((x ∷ src) ++ drop (b.pos + n) (view b)))
                (take-length (view b) b.pos (omega arith))
            ∙ ap (λ (back : List ℕ). view b ++ ((x ∷ src) ++ back))
                (drop-length (view b) (b.pos + n) (omega arith))
            ∙ ap (λ (added : List ℕ). view b ++ added) (append-nil (x ∷ src)),
        w.end ∙ ground (arith, w.size),
        ground (arith, w.size),
        refl,
      ),
    )

write_all_lem :
    (env : Env) (chunks : List (List ℕ)) {b : Buffer}
    → IsValid b
    → b.pos ≡ b.size
    → b.size + length (joined chunks) ≤ b.capacity
    → b.capacity < 2 ^ 64
    → Returns
        (write_all env b chunks)
        λ t. IsValid t × (view t ≡ view b ++ joined chunks) × (t.pos ≡ t.size)
unfolding write_all
write_all_lem env [] {b} v at_end room small = (b, refl, (v, sym (append-nil (view b)), at_end))
write_all_lem env (c ∷ cs) {b} v at_end room small =
    let both = length-append c (joined cs) in
    let (r, run, (v', shown, at_end', size, cap)) = write_end env c v at_end (omega arith) small in
    let (t, run', (v'', shown', at_end'')) =
      write_all_lem env cs v' at_end' (omega arith) (omega arith) in
    (
      t,
      rw run run',
      (
        v'',
        shown'
            ∙ ap (λ (front : List ℕ). front ++ joined cs) shown
            ∙ append_assoc (view b) c (joined cs),
        at_end'',
      ),
    )

-- TecSocket_read, where no read gives more bytes than it asked for, the block of the socket is of
-- its capacity and the fuel is more than the chunks that come, into a well-formed buffer that
-- stands at its end, has a capacity below 2 ^ 64 and has room for all of them: it ends without a
-- fault, the buffer holds what it held and then all that came, and the error is that of the last
-- read, none if the peer closed the connection.
pub read_loop-Appended :
    {os : Os} (env : Env) (fuel : ℕ) (s : Socket) {dst : Buffer} {l l' : Log}
    {chunks : List (List ℕ)} {err : Err}
    → IsBounded os
    → length s.buf.contents ≡ s.buf.capacity
    → Receives os s.fd s.buf.capacity l chunks err l'
    → length chunks < fuel
    → IsValid dst
    → dst.pos ≡ dst.size
    → dst.size + length (joined chunks) ≤ dst.capacity
    → dst.capacity < 2 ^ 64
    → Returns
        (read_loop fuel env os s dst l)
        λ r. (r.0.0 ≡ err) × IsValid r.0.2 × (view r.0.2 ≡ view dst ++ joined chunks) × (r.1 ≡ l')
read_loop-Appended {os} env fuel s {dst} {l} {l'} {chunks} {err} bounded block rec enough v at_end
      room small =
    let (t, run, (v', shown, _)) = write_all_lem env chunks v at_end room small in
    let (r, run', same) =
      bound-ok (read_loop fuel env os s dst l) left {b = (err, s.fd, t, l')}
        (read_loop-write_all env bounded fuel s dst block rec enough ∙ rw run) in
    (
      r,
      run',
      (
        ap (λ x. x.0) same,
        rw (ap (λ x. x.2) same) v',
        ap (λ x. view x.2) same ∙ shown,
        ap (λ x. x.3) same,
      ),
    )

-- What a read that gives no bytes returns.
abbrev pub read_err : Outcome (List ℕ) → Err
read_err (failed e) = system e
read_err (gives bytes) = no_error

-- With no buffer the system is asked for 0 bytes, and nothing is read from the peer.
pub read_loop-nothing :
    (os : Os) (env : Env) (fuel : ℕ) (s : Socket) (dst : Buffer) (l : Log)
    → IsBounded os
    → s.buf.capacity ≡ 0
    → read_loop (suc fuel) env os s dst l
      ≡ ok ((read_err (os.read l s.fd 0), s, dst), reads s.fd 0 (os.read l s.fd 0) ∷ l)
unfolding read_loop received
read_loop-nothing os env fuel s dst l bounded none_there =
    let n = s.buf.capacity in
    subst
      (λ (k : ℕ).
        read_loop (suc fuel) env os s dst l
        ≡ ok ((read_err (os.read l s.fd k), s, dst), reads s.fd k (os.read l s.fd k) ∷ l))
      none_there
      (answered (os.read l s.fd n) λ bytes e. omega (arith, bounded l s.fd n bytes e, none_there))
  where
    answered :
        (o : Outcome (List ℕ))
        → ((bytes : List ℕ) → o ≡ gives bytes → length bytes ≤ 0)
        → received env s dst
            (λ s' dst'. read_loop fuel env os s' dst')
            o
            (reads s.fd s.buf.capacity o ∷ l)
          ≡ ok ((read_err o, s, dst), reads s.fd s.buf.capacity o ∷ l)
    answered (failed e) few = refl
    answered (gives []) few = refl
    answered (gives (b ∷ bytes)) few = let n = few (b ∷ bytes) refl in absurd (omega (arith, n))
