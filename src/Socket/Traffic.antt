-- ===== src/Socket/Traffic.antt =====
-- Reads and writes of a socket take no descriptor and no address list, and give none back.
use mathlib.Core.Path.{subst}
use tecc.Base.{
  ℕ, zero, suc, ◌≡◌, inl, inr, refl, List, [], ◌∷◌, Option, none, some, ◌==◌, Bool-cases, length,
  take,
}
use tecc.Base.Run.{Run, ok, fault, out_of_fuel}
use tecc.Buffer.Bytes.{memcpy, peek}
use tecc.Buffer.Defs.{Buffer, Env}
use tecc.Buffer.Defs
use tecc.Socket.Os.{Outcome, failed, gives, Os, Io, Log, lift, pure, sys_write, writes, ◌>>=◌}
use tecc.Socket.Defs.{Err, Socket}
use tecc.Socket.Methods.{received, read_loop, sent, write, write_str}
use tecc.Socket.Counts.{IsBalanced, is_neutral, IsBalanced-neutral}

ok-inj : {A : Type 0} {a b : A} → ok a ≡ ok b → a ≡ b
ok-inj e = cc

-- What a run returns, if it returns, satisfies `P`.
abbrev IfOk : {A : Type 0} → Run A → (A → Type 0) → Type 0
IfOk {A} m P = (a : A) → m ≡ ok a → P a

IfOk-lift :
    {A B : Type 0} (m : Run A) (k : A → Io B) (l : Log) {P : B × Log → Type 0}
    → ((a : A) → IfOk (k a l) P)
    → IfOk ((lift m >>= k) l) P
IfOk-lift out_of_fuel k l h b e = cc
IfOk-lift fault k l h b e = cc
IfOk-lift (ok a) k l h b e = h a b e

IfOk-ok : {A : Type 0} (P : A → Type 0) {a : A} → P a → IfOk (ok a) P
IfOk-ok P h b e = subst P (ok-inj e) h

module _ (env : Env) (os : Os) where
  same :
      {s : Socket} {l : Log} {block : List ℕ}
      → IsBalanced s l
      → IsBalanced (record s { buf = record (s.buf) { contents = block } }) l
  same b = record { descriptors = b.descriptors; infos = b.infos; paired = b.paired }

  received-IsBalanced :
      (s : Socket) (dst : Buffer) (l : Log)
      (next : Socket → Buffer → Log → Run ((Err × Socket × Buffer) × Log)) (o : Outcome (List ℕ))
      → IsBalanced s l
      → ((s' : Socket) (dst' : Buffer)
          → IsBalanced s' l
          → IfOk (next s' dst' l) (λ r. IsBalanced r.0.1 r.1))
      → IfOk (received env s dst next o l) (λ r. IsBalanced r.0.1 r.1)
  unfolding received
  received-IsBalanced s dst l next (failed e) b rest = IfOk-ok (λ r. IsBalanced r.0.1 r.1) b
  received-IsBalanced s dst l next (gives []) b rest = IfOk-ok (λ r. IsBalanced r.0.1 r.1) b
  received-IsBalanced s dst l next (gives (c ∷ bytes)) b rest =
      let P = λ (r : (Err × Socket × Buffer) × Log). IsBalanced r.0.1 r.1 in
      let s' = λ (block : List ℕ). record s { buf = record (s.buf) { contents = block } } in
      let back = λ (block : List ℕ) (w : ℕ × Buffer). next (s' block) w.1 in
      let put = λ (block : List ℕ). Defs.write env dst (take (length (c ∷ bytes)) block) in
      IfOk-lift (memcpy s.buf.contents 0 (c ∷ bytes)) (λ block. lift (put block) >>= back block) l
        {P = P}
        λ block. IfOk-lift (put block) (back block) l {P = P} λ w. rest (s' block) w.1 (same b)

  pub read_loop-IsBalanced :
      (fuel : ℕ) (s : Socket) (dst : Buffer) (l : Log)
      → IsBalanced s l
      → IfOk (read_loop fuel env os s dst l) (λ r. IsBalanced r.0.1 r.1)
  unfolding read_loop is_neutral
  read_loop-IsBalanced zero s dst l b = λ r e. cc
  read_loop-IsBalanced (suc fuel) s dst l b =
      received-IsBalanced s dst _ (λ s' dst'. read_loop fuel env os s' dst') _
        (IsBalanced-neutral _ refl b) (λ s' dst' b'. read_loop-IsBalanced fuel s' dst' _ b')

pub write-IsBalanced :
    (os : Os) (s t : Socket) (src : Buffer) (l : Log)
    → IsBalanced t l
    → IfOk (write os s src l) (λ r. IsBalanced t r.1)
unfolding write is_neutral
write-IsBalanced os s t src l b = elim (Bool-cases (src.size == 0)) [
  | inl e ↦ rw e (IfOk-ok (λ r. IsBalanced t r.1) b)
  | inr e ↦ rw e (
      IfOk-lift (peek src.contents 0 src.size)
        (λ bytes. sys_write os s.fd bytes >>= λ o. pure (sent src.size o)) l
        {P = λ r. IsBalanced t r.1}
        λ bytes.
          IfOk-ok (λ r. IsBalanced t r.1)
            (IsBalanced-neutral (writes s.fd bytes (os.write l s.fd bytes)) refl b))
]

pub write_str-IsBalanced :
    (os : Os) (s t : Socket) (str : Option (List ℕ)) (l : Log)
    → IsBalanced t l
    → IfOk (write_str os s str l) (λ r. IsBalanced t r.1)
unfolding write_str
write_str-IsBalanced os s t none l b = IfOk-ok (λ r. IsBalanced t r.1) b
write_str-IsBalanced os s t (some str) l b = write-IsBalanced os s t _ l b
