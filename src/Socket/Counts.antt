-- ===== src/Socket/Counts.antt =====
-- Descriptors and address lists in a log: those that were taken from the system, and those given back.
use tecc.Base.{ℕ, suc, ◌+◌, ◌≡◌, refl, Bool, true, false, none, [], ◌∷◌, ◌==◌, if◌then◌else◌}
use tecc.Base.Heap.{Ptr, null}
use tecc.Base.Run.{Run, ok, Returns}
use tecc.Socket.Os.{
  Outcome, failed, gives, Os, Event, Query, resolves, opens, accepts, connects, binds, sets_option,
  listens, names_peer, shuts, closes, frees_info, reads, writes, Log,
}
use tecc.Socket.Defs.{Socket, is_fd, is_valid, close}

abbrev pub gained : {A : Type 0} → Outcome A → ℕ
gained (failed e) = 0
gained (gives a) = 1

abbrev pub lost : {A : Type 0} → Outcome A → ℕ
lost (failed e) = 1
lost (gives a) = 0

abbrev pub flag : Bool → ℕ
flag true = 1
flag false = 0

-- The descriptors that the system gave, and those that were closed.
unfoldable pub opened : Log → ℕ
opened [] = 0
opened (opens o ∷ l) = gained o + opened l
opened (accepts fd o ∷ l) = gained o + opened l
opened (_ ∷ l) = opened l

unfoldable pub closed : Log → ℕ
closed [] = 0
closed (closes fd ∷ l) = flag (is_fd fd) + closed l
closed (_ ∷ l) = closed l

-- The address lists that the system gave, those that were freed, and the calls of socket that
-- failed.
unfoldable pub resolved : Log → ℕ
resolved [] = 0
resolved (resolves q o ∷ l) = gained o + resolved l
resolved (_ ∷ l) = resolved l

unfoldable pub freed : Log → ℕ
freed [] = 0
freed (frees_info p ∷ l) = suc (freed l)
freed (_ ∷ l) = freed l

unfoldable pub failed_opens : Log → ℕ
failed_opens [] = 0
failed_opens (opens o ∷ l) = lost o + failed_opens l
failed_opens (_ ∷ l) = failed_opens l

-- The socket holds the descriptor that was not closed, if there is one, and with it the address
-- list that was not freed, but for one list for each failed call of socket.
pub record IsBalanced (s : Socket) (l : Log) : Type 0 where
  pub descriptors : opened l ≡ closed l + flag (is_valid s)
  pub infos : resolved l ≡ freed l + flag (is_valid s) + failed_opens l
  pub paired : (s.pai == null) ≡ (if is_valid s then false else true)

-- getaddrinfo gives no NULL.
abbrev pub GivesInfo : Os → Type 0
GivesInfo os = (l : Log) (q : Query) (p : Ptr) → os.getaddrinfo l q ≡ gives p → (p == null) ≡ false

abbrev pub Ends : {A : Type 0} → Run (A × Log) → (A → Log → Type 0) → Type 0
Ends run Post = Returns run λ r. Post r.0 r.1

pub close_open :
    (s : Socket) (l : Log)
    → is_valid s ≡ true
    → (s.pai == null) ≡ false
    → close s l
      ≡ ok (record s { fd = none; pai = null }, frees_info s.pai ∷ closes s.fd ∷ shuts s.fd ∷ l)
unfolding close
close_open s l e p = rw (e, p)

pub close_closed : (s : Socket) (l : Log) → is_valid s ≡ false → close s l ≡ ok (s, l)
unfolding close
close_closed s l e = rw e

-- Calls that take and give nothing.
unfoldable pub is_neutral : Event → Bool
is_neutral (resolves q o) = false
is_neutral (opens o) = false
is_neutral (accepts fd o) = false
is_neutral (closes fd) = false
is_neutral (frees_info p) = false
is_neutral _ = true

counted :
    {s : Socket} {l l' : Log}
    → opened l' ≡ opened l
    → closed l' ≡ closed l
    → resolved l' ≡ resolved l
    → freed l' ≡ freed l
    → failed_opens l' ≡ failed_opens l
    → IsBalanced s l
    → IsBalanced s l'
counted o c r f n b =
    let counts = b.descriptors in
    let lists = b.infos in
    record { descriptors = rw (o, c) counts; infos = rw (r, f, n) lists; paired = b.paired }

pub IsBalanced-neutral :
    {s : Socket} {l : Log} (ev : Event)
    → is_neutral ev ≡ true
    → IsBalanced s l
    → IsBalanced s (ev ∷ l)
unfolding is_neutral opened closed resolved freed failed_opens
IsBalanced-neutral (resolves q o) h b = cc
IsBalanced-neutral (opens o) h b = cc
IsBalanced-neutral (accepts fd o) h b = cc
IsBalanced-neutral (closes fd) h b = cc
IsBalanced-neutral (frees_info p) h b = cc
IsBalanced-neutral (connects fd p o) h b = counted refl refl refl refl refl b
IsBalanced-neutral (binds fd p o) h b = counted refl refl refl refl refl b
IsBalanced-neutral (sets_option fd v o) h b = counted refl refl refl refl refl b
IsBalanced-neutral (listens fd n o) h b = counted refl refl refl refl refl b
IsBalanced-neutral (names_peer fd o) h b = counted refl refl refl refl refl b
IsBalanced-neutral (shuts fd) h b = counted refl refl refl refl refl b
IsBalanced-neutral (reads fd n o) h b = counted refl refl refl refl refl b
IsBalanced-neutral (writes fd bytes o) h b = counted refl refl refl refl refl b
