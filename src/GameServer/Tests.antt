-- ===== src/GameServer/Tests.antt =====
-- The witness of the theorem about the loop of the server: a client comes, sends and is gone.
use hex.Base.{ℕ, ◌≡◌, some, ◌+◌, ◌==◌, List, [], ◌∷◌, arith, pos, if◌then◌else◌, false, true}
use hex.MsgSocket.{ewouldblock}
use hex.Router.{made, not_made, text, FdSet, fd_zero, fd_put}
use hex.Router.Serve.{Reading, handled, erred, wrote, Handlers, Selected}
use hex.GameServer.{
  accepted, not_accepted, incoming_connection_request, Turn, start, ListenCalls, server_main,
}
use hex.GameServer.Tables.{Orphan, Sound}
use hex.GameServer.Startup.{server_main-Sound}

abbrev numbers : Handlers ℕ
numbers = record {
  socket_error = λ c. erred false c;
  socket_data_read = λ c. if c == 7 then Reading.disconnection c else handled (c + 1) [];
  socket_data_write = λ c. wrote false c;
  socket_disconnected = λ c. 0;
}

abbrev quiet : ℕ → (read write error : FdSet) → Selected
quiet n read write error = record {
  nb_act = pos 0;
  readfds = fd_zero;
  writefds = fd_zero;
  errorfds = fd_zero;
}

abbrev busy : ℕ → (read write error : FdSet) → Selected
busy n read write error = record {
  nb_act = pos 1;
  readfds = fd_put true 5 fd_zero;
  writefds = fd_zero;
  errorfds = fd_zero;
}

abbrev turns : List (Turn ℕ)
turns =
    record { accept = accepted 5; connection = made 6; pselect = quiet; wait_returns = true }
    ∷ record {
      accept = not_accepted ewouldblock;
      connection = made 0;
      pselect = busy;
      wait_returns = true;
    }
    ∷ record {
      accept = accepted 8;
      connection = not_made text;
      pselect = busy;
      wait_returns = true;
    }
    ∷ []

-- every call succeeds, the first one with the descriptor 3
abbrev fine_calls : ListenCalls ℕ
fine_calls = record {
  socket = λ n. (pos 3, n + 1);
  bind = λ s n. (pos 0, n + 1);
  listen = λ s backlog n. (pos 0, n + 1);
  fcntl = λ s n. (pos 0, n + 1);
}

server_main-Sound_example :
    (server_main fine_calls numbers fd_zero fd_zero fd_zero turns 0
      ≡ some (start numbers fd_zero fd_zero fd_zero turns))
    × Sound (Orphan turns) (start numbers fd_zero fd_zero fd_zero turns)
unfolding incoming_connection_request
server_main-Sound_example =
    server_main-Sound fine_calls numbers fd_zero fd_zero fd_zero turns 0
      ((omega arith, omega arith), (tt, ((omega arith, omega arith), tt)))
