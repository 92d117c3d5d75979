-- ===== src/TcpClient/Exchange.antt =====
-- What a client sends and receives. A socket has a block to read into where a caller gives it one:
-- TecSocket_init leaves its buffer empty.
use tecc.Base.{ℕ, suc, ◌^◌, ◌<◌, ◌≡◌, refl, ap, ◌∙◌, false, [], ◌∷◌}
use tecc.Base.Run.{ok}
use tecc.Buffer.Defs.{Buffer, Env}
use tecc.Buffer.Defs as BufDefs
use tecc.Buffer.Growth.{Grants}
use tecc.Socket.Os.{Os, Log, reads}
use tecc.Socket.Defs.{Platform, Err, Params, Socket, is_fd, is_valid}
use tecc.Socket.Defs as SockDefs
use tecc.Socket.Methods.{read_loop}
use tecc.Socket.Counts.{Ends, GivesInfo, IsBalanced}
use tecc.Socket.Session.{fresh-IsBalanced}
use tecc.Socket.Transfer.{IsBounded, read_err, read_loop-nothing}
use tecc.TcpClient.Defs.{Client, init, start, recv}
use tecc.TcpClient.Lifecycle.{HasSmallBuffer, start-Good}

recv_steps :
    (fuel : ℕ) (env : Env) (os : Os) (self : Client) (dst : Buffer) (l l' : Log) (err : Err)
    → read_loop (suc fuel) env os self.sock dst l ≡ ok ((err, self.sock, dst), l')
    → recv (suc fuel) env os self dst l ≡ ok ((err, self, dst), l')
unfolding recv
recv_steps fuel env os self dst l l' err run = rw run

-- What a receive of 0 bytes leaves: the buffer as it was, after one read that asks for 0 bytes, and
-- the error of that read.
abbrev pub ReceivesNothing : ℕ → Env → Os → Client → Buffer → Log → Type 0
ReceivesNothing fuel env os self dst l =
    let o = os.read l self.sock.fd 0 in
    recv fuel env os self dst l ≡ ok ((read_err o, self, dst), reads self.sock.fd 0 o ∷ l)

-- Where memory is granted for a buffer of less than 2 ^ 64 bytes, getaddrinfo gives no NULL, and no
-- read gives more bytes than it asked for: a client that was made and started, whether that failed
-- or not, never receives. Its socket was given no buffer, so that recv makes one read that asks for
-- 0 bytes, leaves the buffer as it was, and returns 0, or the error if the read fails.
pub recv_nothing :
    (c : Platform) (env : Env) (os : Os) (params : Params) (fuel : ℕ) (dst : Buffer)
    → Grants env
    → GivesInfo os
    → IsBounded os
    → params.buffer_size < 2 ^ 64
    → Ends
        (init env params [])
        λ self l. Ends (start c env os self l) λ r l'. ReceivesNothing (suc fuel) env os r.1 dst l'
unfolding init SockDefs.init BufDefs.init is_fd
recv_nothing c env os params fuel dst grants h bounded small =
    (_, refl, started _ (fresh-IsBalanced env params refl) refl refl small)
  where
    started :
        (self : Client) {l : Log}
        → IsBalanced self.sock l
        → is_valid self.sock ≡ false
        → self.sock.buf.capacity ≡ 0
        → HasSmallBuffer self
        → Ends (start c env os self l) λ r l'. ReceivesNothing (suc fuel) env os r.1 dst l'
    started self b shut empty fits =
        let (r, run, good) = start-Good c env os grants h self b shut fits in
        let none_there = ap (λ (t : Buffer). t.capacity) good.same_buf ∙ empty in
        (
          r,
          run,
          recv_steps fuel env os r.0.1 dst r.1 _ _
              (read_loop-nothing os env fuel r.0.1.sock dst r.1 bounded none_there),
        )
