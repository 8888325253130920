-- ===== src/MsgSocket/Sample.antt =====
-- A system with an inbox and an outbox of bytes, sockets and messages: the data of the tests.
use hex.Base.{
  ℕ, zero, suc, ◌%◌, ◌≤◌, ◌<◌, ◌≡◌, ◌≢◌, refl, sym, Bool, true, false, List, [], ◌∷◌, ◌++◌, arith,
  length, take, drop, ltb, if◌then◌else◌, length-take, take-append-drop, pos, replicate,
  length-replicate,
}
use hex.Protocol.{
  Bytes, L1MsgHeader, from_server, from_client, MsgRequest, poll_req, connection_req,
}
use hex.Request.{ByteOrder, TransferRequest}
use hex.Request.Bodies.{Ready}
use hex.Request.Any.{AnyRequest, single, transfer}
use hex.MsgSocket.{
  MsgSocket, System, SendResult, sent, RecvResult, received, not_received, Errno, ewouldblock, Io,
  msg_socket,
}
use hex.MsgSocket.Stream.{IsByteOrder, Reads, Peeks, IsStream, SendsWhole, AllFit, frames}
use hex.MsgSocket.Send.Requests.{AllSendable, outgoing, packets}

pub record Net : Type 0 where
  pub inbox : Bytes
  pub outbox : Bytes

abbrev pub big_endian : ByteOrder
big_endian = record {
  htonl = λ v. v % 4294967296;
  htons = λ v. v % 65536;
  ntohl = λ v. v % 4294967296;
  ntohs = λ v. v % 65536;
}

pub big_endian-IsByteOrder : IsByteOrder big_endian
big_endian-IsByteOrder = record {
  htonl_bound = λ v. omega arith;
  htons_bound = λ v. omega arith;
  ntohl-htonl = λ v l. omega arith;
  ntohs-htons = λ v l. omega arith;
}

abbrev pub answer : Bytes → Net → RecvResult × Net
answer [] n = (not_received ewouldblock, n)
answer (b ∷ bs) n = (received (b ∷ bs), n)

abbrev pub at_most_five : ℕ → ℕ
at_most_five len = if ltb 5 len then 5 else len

-- a read returns five bytes at most
abbrev pub system_recv : Net → ℕ → Bool → RecvResult × Net
system_recv n len true = answer (take len n.inbox) n
system_recv n len false =
    answer (take (at_most_five len) n.inbox) (record n { inbox = drop (at_most_five len) n.inbox })

abbrev pub system_send : Net → Bytes → SendResult × Net
system_send n bs = (sent (length bs), record n { outbox = n.outbox ++ bs })

abbrev pub errno_number : Errno → ℕ
errno_number ewouldblock = 11
errno_number _ = 5

abbrev pub system : System Net
system = record {
  send = system_send;
  recv = system_recv;
  errno_value = errno_number;
  order = big_endian;
}

abbrev pub inbox_of : Net → Bytes
inbox_of n = n.inbox

abbrev pub outbox_of : Net → Bytes
outbox_of n = n.outbox

abbrev pub write_out : Net → Bytes → Net
write_out n bs = record n { outbox = n.outbox ++ bs }

pub system-SendsWhole : SendsWhole system outbox_of write_out
system-SendsWhole = record { whole = λ n bs p. refl; wire-next = λ n bs. refl }

pub answer-Reads :
    (n n' : Net) (len : ℕ) (bs : Bytes)
    → length bs ≤ len
    → n.inbox ≡ bs ++ n'.inbox
    → (bs ≡ [] → n.inbox ≡ [])
    → Reads system inbox_of true n len (answer bs n')
answer-Reads n n' len [] l e none_left = (refl, sym e, λ w. none_left refl)
answer-Reads n n' len (b ∷ bs) l e none_left = (omega arith, l, e)

pub take_none : (k : ℕ) (bs : Bytes) → 0 < k → take k bs ≡ [] → bs ≡ []
take_none zero bs p e = absurd (omega arith)
take_none (suc k) [] p e = refl
take_none (suc k) (b ∷ bs) p e = cc (e)

-- the read after a peek of four bytes
abbrev pub Rereads : Net → Bytes → Type 0
Rereads n bs =
    (n'' : Net) × (system_recv n 4 false ≡ (received bs, n'')) × (n.inbox ≡ bs ++ n''.inbox)

pub answer-Peeks :
    (n : Net) (bs : Bytes)
    → (length bs ≡ 4 → Rereads n bs)
    → (length bs ≢ 4 → length n.inbox < 4)
    → (bs ≡ [] → n.inbox ≡ [])
    → Peeks system inbox_of true n 4 (answer bs n)
answer-Peeks n [] again short none_left = (refl, refl, λ w. none_left refl)
answer-Peeks n (b ∷ bs) again short none_left = (refl, again, λ w. short)

pub answer_some : (bs : Bytes) (n : Net) → 0 < length bs → answer bs n ≡ (received bs, n)
answer_some [] n p = absurd (omega arith)
answer_some (b ∷ bs) n p = refl

pub reread : (n : Net) → length (take 4 n.inbox) ≡ 4 → Rereads n (take 4 n.inbox)
reread n four = (
  record n { inbox = drop 4 n.inbox },
  answer_some (take 4 n.inbox) (record n { inbox = drop 4 n.inbox }) (omega arith),
  sym (take-append-drop 4 n.inbox),
)

pub system-IsStream : IsStream system inbox_of true
system-IsStream = record {
  read = λ n len p.
      answer-Reads n (record n { inbox = drop (at_most_five len) n.inbox }) len
        (take (at_most_five len) n.inbox)
        (let k = length-take (at_most_five len) n.inbox in ground arith)
        (sym (take-append-drop (at_most_five len) n.inbox))
        (take_none (at_most_five len) n.inbox (ground arith));
  peek = λ n.
      answer-Peeks n (take 4 n.inbox) (reread n)
        (λ ne. let k = length-take 4 n.inbox in ground arith) (take_none 4 n.inbox (omega arith));
}

abbrev pub new_header : L1MsgHeader
new_header = record { lenght = 0; id = 0; from = from_server; notyetused = 7 }

abbrev pub client_end : MsgSocket
client_end = msg_socket new_header (pos 3) from_client

abbrev pub poll_msg : MsgRequest
poll_msg = record { l1_msg_id = poll_req; nb_bytes = 2; msg = 1 ∷ 2 ∷ 3 ∷ [] }

abbrev pub opening_msg : MsgRequest
opening_msg = record { l1_msg_id = connection_req; nb_bytes = 3; msg = 4 ∷ 5 ∷ 6 ∷ [] }

abbrev pub io_of : Bytes → MsgSocket → Io Net
io_of bs s = record { sock = s; net = record { inbox = bs; outbox = [] }; errno = ewouldblock }

-- a transfer of three bytes
abbrev pub three_bytes : TransferRequest
three_bytes = record {
  l2_payload_length = 3;
  nb_payload_bytes_sent = 0;
  transfer_id = 1;
  l2_action = 2;
  source_buffer = 7 ∷ 8 ∷ 9 ∷ [];
  msg = replicate 8192 0;
}

pub three_bytes-Ready : Ready three_bytes
three_bytes-Ready = record { room = length-replicate {A = ℕ} 8192 0; whole = refl }

abbrev pub two_requests : List AnyRequest
two_requests = single poll_msg 0 ∷ transfer three_bytes ∷ []

pub two_requests-AllSendable : AllSendable system two_requests
two_requests-AllSendable = (
  ((refl, omega arith, omega arith), λ e. omega arith),
  (((refl, omega arith, omega arith, three_bytes-Ready), λ e. omega arith), tt),
)

pub two_requests-AllFit : AllFit (packets system client_end two_requests)
two_requests-AllFit = (
  (omega arith, omega arith),
  (
    (
      omega arith,
      (let k = length-take 283 (outgoing system (transfer three_bytes)).msg in ground arith),
    ),
    tt,
  ),
)

abbrev pub two_msgs : List AnyRequest
two_msgs = single poll_msg 0 ∷ single opening_msg 0 ∷ []

pub two_msgs-AllFit : AllFit (packets system client_end two_msgs)
two_msgs-AllFit = ((omega arith, omega arith), ((omega arith, omega arith), tt))

-- the first bytes of the first message have been read
abbrev pub server_end : MsgSocket
server_end = msg_socket new_header (pos 4) from_server

abbrev pub two_frames : Bytes
two_frames = frames big_endian (packets system client_end two_msgs)

abbrev pub arrive : Bytes → Net
arrive bs = record { inbox = bs; outbox = [] }
