-- ===== src/GameClient/Tests.antt =====
-- The theorems on the client's loop, on a few rounds.
use hex.Base.{false, true, none, some, List, [], ◌∷◌, replicate}
use hex.Protocol.{connection_cnf, L1Msg}
use hex.Client.Poll.{hung_up, lost, received}
use hex.Utilities.{Interface, af_inet}
use hex.GameClient.{Network, went, threw, Round, client_background_main}
use hex.GameClient.States.{Leaves, client_background_main-Leaves}

abbrev confirmation : L1Msg
confirmation = record { l1_msg_id = connection_cnf; l1_body = replicate 132 0 }

-- the confirmation, then the loss of the connection, an exception of the socket, and the end
abbrev rounds : List Round
rounds =
    record {
      credentials = [];
      application_end = false;
      raw = [];
      socket = went (received 1 (([], confirmation) ∷ []));
    }
    ∷ record { credentials = []; application_end = false; raw = []; socket = went (lost hung_up) }
    ∷ record { credentials = []; application_end = false; raw = []; socket = threw }
    ∷ record {
      credentials = (b'a' ∷ [], (b'b' ∷ [], b'c' ∷ [])) ∷ [];
      application_end = true;
      raw = [];
      socket = threw;
    }
    ∷ []

abbrev interfaces : List Interface
interfaces = record { ifa_name = b'l' ∷ []; ifa_addr = some (af_inet, 127 ∷ []) } ∷ []

abbrev network : Network
network = record {
  displayed = some interfaces;
  getnameinfo = λ family addr. true;
  getifaddrs = some interfaces;
}

client_background_main-Leaves_example :
    Leaves network
      (b'l' ∷ [])
      (went tt)
      (client_background_main network (b'l' ∷ []) (went tt) (went tt) (replicate 32 0) rounds none)
client_background_main-Leaves_example =
    client_background_main-Leaves network (b'l' ∷ []) (went tt) (went tt) (replicate 32 0) rounds
