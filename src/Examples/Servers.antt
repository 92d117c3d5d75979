-- ===== src/Examples/Servers.antt =====
-- tecc_tcp_server.c over the system of the examples of sockets.
use tecc.Base.{◌+◌, ◌≡◌, refl, Bool, true, [], arith, ltb}
use tecc.Socket.Os.{Log}
use tecc.Socket.Counts.{Ends, opened, closed, resolved, freed, failed_opens}
use tecc.TcpServer.Defs.{init, set_client_proc, client_proc, start, stop, done}
use tecc.TcpServer.Clients.{rounds, IsHandler}
use tecc.TcpServer.Lifecycle.{Stops, start-ends}
use tecc.Examples.Sockets.{linux, granting, params, peer, peer-GivesInfo, granting-Grants}

-- The flag is cleared when two clients were accepted.
abbrev running : Log → Bool
running l = ltb (rounds l) 2

running-Stops : Stops running 2
running-Stops l h = ground arith

client_proc-IsHandler : IsHandler client_proc
unfolding client_proc
client_proc-IsHandler cli l = (
  _,
  refl,
  (
    refl,
    refl,
    record {
      opened_as = refl;
      closed_as = refl;
      resolved_as = refl;
      freed_as = refl;
      failed_as = refl;
      rounds_as = refl;
    },
  ),
)

start-ends_example : Ends (init linux granting params []) λ self l.
    Ends (start 3 linux granting peer running (set_client_proc self client_proc) l) λ r l₁.
      (r.1.polling_stopped ≡ true)
      × (Ends (stop r.1 l₁) λ t l₂.
          Ends
            (done t l₂)
            λ _ l₃. (opened l₃ ≡ closed l₃) × (resolved l₃ ≡ freed l₃ + failed_opens l₃))
start-ends_example =
    start-ends linux granting peer granting-Grants peer-GivesInfo running 2 running-Stops 2 params
      client_proc client_proc-IsHandler (omega arith) (omega arith)
