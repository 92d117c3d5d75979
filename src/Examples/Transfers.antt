-- ===== src/Examples/Transfers.antt =====
-- The loop of reads of tecc_socket.c against the writes of what comes.
use tecc.Base.{◌≡◌, refl, some, [], ◌∷◌, arith}
use tecc.Base.Run.{ok, ◌>>=◌}
use tecc.Socket.Os.{gives, reads}
use tecc.Socket.Defs.{no_error}
use tecc.Socket.Methods.{read_loop}
use tecc.Socket.Transfer.{outcome, write_all, read_loop-write_all}
use tecc.Examples.Sockets.{granting, peer, peer-IsBounded, talking, answer, hi}

read_loop-write_all_example : (read_loop 2 granting peer talking answer [] >>= outcome) ≡ (
    write_all granting answer ((104 ∷ 105 ∷ []) ∷ []) >>= λ t. ok (
      no_error,
      some 3,
      t,
      reads (some 3) 8 (gives []) ∷ reads (some 3) 8 (gives (104 ∷ 105 ∷ [])) ∷ [],
    ))
read_loop-write_all_example =
    read_loop-write_all granting peer-IsBounded 2 talking answer refl hi (omega arith)
