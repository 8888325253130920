-- ===== src/MsgSocket/Send/Message.antt =====
-- How MsgSocket.cpp sends one message where the system takes all that it is given.
use hex.Base.{
  ℕ, ◌+◌, ◌≤◌, ◌<◌, ◌≡◌, ◌≢◌, refl, sym, ap, ◌∙◌, true, false, Option, none, some, List, [], ◌∷◌,
  ◌++◌, arith, pos, pos_part, ◌+ℤ◌, ◌-ℤ◌, length, take, ltb, ◌==◌, length-take, ==-ne,
}
use hex.Protocol.{Bytes, TransferDirection, L1MsgHeader, L1MessageId, message_id_value}
use hex.Request.Any.{AnyRequest, has_data_to_send, build_next}
use hex.MsgSocket.{
  MsgSocket, System, sent, ewouldblock, Io, and_then, ok, pure, tx_reset, header_bytes,
}
use hex.MsgSocket.Send.{
  header_size, send_result, socket_send, prepared, prepare_at, or_assertion, prepare, add_length,
  send_header, body_of, is_would_block, count_sent, send_body, finish_msg, send_message, send_round,
}
use hex.MsgSocket.Stream.{SendsWhole, Packet, frames, append_nil, append_assoc, bind_ok}

-- the socket between two messages
abbrev pub resting : Option AnyRequest → List AnyRequest → MsgSocket → MsgSocket
resting req fifo s = record s {
  tx_length = pos 0;
  tx_msg_length = 0;
  tx_msg = none;
  tx_req_ptr = req;
  tx_fifo = fifo;
}

-- a message that the loop gets out of a request, with the request afterwards
pub record Outgoing : Type 0 where
  pub after : AnyRequest
  pub l1_msg_id : L1MessageId
  pub msg : Bytes
  pub nb_bytes : ℕ

abbrev pub packet_of : TransferDirection → (notyetused : ℕ) → Outgoing → Packet
packet_of from notyetused m = record {
  id = message_id_value m.l1_msg_id;
  from = from;
  notyetused = notyetused;
  l1_body = take m.nb_bytes m.msg;
}

-- buildNextL2Msg makes the message of the request
abbrev pub Builds : {N : Type 0} → System N → AnyRequest → Outgoing → Type 0
Builds sys q m =
    (has_data_to_send q ≡ true)
    × ((id : L1MessageId)
        → build_next sys.order q id 0
          ≡ some (record {
            request = m.after;
            msg_id = m.l1_msg_id;
            nb_bytes = m.nb_bytes;
            body = some m.msg;
          }))

-- a message that can be sent: its length is not taken for EWOULDBLOCK
abbrev pub Goes : {N : Type 0} → System N → AnyRequest → Outgoing → Type 0
Goes sys q m =
    Builds sys q m
    × (0 < m.nb_bytes)
    × (m.nb_bytes ≤ length m.msg)
    × (m.nb_bytes ≢ sys.errno_value ewouldblock)

abbrev pub header_of : {N : Type 0} → System N → Outgoing → MsgSocket → L1MsgHeader
header_of sys m s = record s.tx_header {
  id = sys.order.htons (message_id_value m.l1_msg_id);
  lenght = sys.order.htonl (m.nb_bytes + header_size);
  from = s.from;
}

-- the socket with the message under emission, `n` of its bytes sent
abbrev pub sending :
    {N : Type 0} → System N → Outgoing → (n : ℕ) → List AnyRequest → MsgSocket → MsgSocket
sending sys m n fifo s = record s {
  tx_length = pos n;
  tx_msg_length = m.nb_bytes + header_size;
  tx_msg = some m.msg;
  tx_l1_msg_id = m.l1_msg_id;
  tx_header = header_of sys m s;
  tx_req_ptr = some m.after;
  tx_fifo = fifo;
}

-- the wire and the socket once the message has been sent
abbrev pub after_message :
    {N : Type 0}
    → System N
    → (N → Bytes → N)
    → Outgoing
    → List AnyRequest
    → MsgSocket
    → N
    → Io N
    → Io N
after_message sys next m fifo s n io = record io {
  sock = tx_reset (sending sys m (8 + m.nb_bytes) fifo s);
  net = next (next n (header_bytes (header_of sys m s))) (take m.nb_bytes m.msg);
}

module _ {N : Type 0} (sys : System N) where
  socket_send-sent :
      (buffer : Bytes) (n : ℕ) (io : Io N) (k : ℕ) (n' : N)
      → n ≤ length buffer
      → sys.send io.net (take n buffer) ≡ (sent k, n')
      → socket_send sys buffer n io ≡ ok (pos k) (record io { net = n' })
  unfolding socket_send send_result
  socket_send-sent buffer n io k n' l e =
      let room : ltb (length buffer) n ≡ false = ground arith in
      rw (room) (ap (λ r. send_result sys r io) e)

  pub prepare-Builds :
      (q : AnyRequest) (m : Outgoing) (fifo : List AnyRequest) (s : MsgSocket) (io : Io N)
      → Builds sys q m
      → prepare sys q (record io { sock = resting (some q) fifo s })
        ≡ ok tt (record io { sock = sending sys m 0 fifo s })
  unfolding prepare prepare_at prepared or_assertion
  prepare-Builds q m fifo s io made =
      ap
        (λ b.
          or_assertion sys (prepared sys b (resting (some q) fifo s))
            (record io { sock = resting (some q) fifo s }))
        (made.1 s.tx_l1_msg_id)

  pub send_header-sent :
      (m : Outgoing) (fifo : List AnyRequest) (s : MsgSocket) (io : Io N) (n' : N)
      → sys.send io.net (header_bytes (header_of sys m s)) ≡ (sent 8, n')
      → send_header sys (record io { sock = sending sys m 0 fifo s })
        ≡ ok true (record io { sock = sending sys m 8 fifo s; net = n' })
  unfolding send_header add_length
  send_header-sent m fifo s io n' e =
      bind_ok (socket_send sys (header_bytes (header_of sys m s)) header_size) _
        (record io { sock = sending sys m 0 fifo s })
        (socket_send-sent (header_bytes (header_of sys m s)) 8
          (record io { sock = sending sys m 0 fifo s }) 8 n' (omega arith) e)

  pos_add : (a b : ℕ) → pos a +ℤ pos b ≡ pos (a + b)
  pos_add a b = ground arith

  count_body :
      (m : Outgoing) (k : ℕ) (fifo : List AnyRequest) (s : MsgSocket) (io : Io N)
      → k ≢ sys.errno_value ewouldblock
      → count_sent sys (pos k) (record io { sock = sending sys m 8 fifo s })
        ≡ ok true (record io { sock = sending sys m (8 + k) fifo s })
  unfolding count_sent add_length is_would_block
  count_body m k fifo s io ne = rw (==-ne k (sys.errno_value ewouldblock) ne) (
      ap (λ z. ok true (record io { sock = record (sending sys m 8 fifo s) { tx_length = z } }))
        (pos_add 8 k))

  -- the call for the body, which takes what the call returns as an argument
  pub body_call :
      (m : Outgoing) (fifo : List AnyRequest) (s : MsgSocket) (io : Io N)
      → 0 < m.nb_bytes
      → send_body sys (record io { sock = sending sys m 8 fifo s })
        ≡ and_then
            (count_sent sys)
            (socket_send sys m.msg m.nb_bytes (record io { sock = sending sys m 8 fifo s }))
  unfolding send_body body_of
  body_call m fifo s io p =
      let left : pos_part (pos (m.nb_bytes + header_size) -ℤ pos 8) ≡ m.nb_bytes = ground arith in
      let more : ltb 8 (m.nb_bytes + header_size + 0) ≡ true = ground arith in
      rw (more) (
        ap
          (λ n.
            and_then (count_sent sys)
              (socket_send sys m.msg n (record io { sock = sending sys m 8 fifo s })))
          left)

  send_body-sent :
      (m : Outgoing) (k : ℕ) (fifo : List AnyRequest) (s : MsgSocket) (io : Io N) (n' : N)
      → 0 < m.nb_bytes
      → m.nb_bytes ≤ length m.msg
      → k ≢ sys.errno_value ewouldblock
      → sys.send io.net (take m.nb_bytes m.msg) ≡ (sent k, n')
      → send_body sys (record io { sock = sending sys m 8 fifo s })
        ≡ ok true (record io { sock = sending sys m (8 + k) fifo s; net = n' })
  send_body-sent m k fifo s io n' p l ne e =
      body_call m fifo s io p
      ∙ bind_ok (socket_send sys m.msg m.nb_bytes) (count_sent sys)
          (record io { sock = sending sys m 8 fifo s })
          (socket_send-sent m.msg m.nb_bytes (record io { sock = sending sys m 8 fifo s }) k n' l e)
      ∙ count_body m k fifo s (record io { net = n' }) ne

  -- the round for a message whose header is sent as a whole, with `k` bytes of the body sent
  pub send_message_sent :
      (q : AnyRequest) (m : Outgoing) (k : ℕ) (fifo : List AnyRequest) (s : MsgSocket) (io : Io N)
      (n1 n2 : N)
      → Builds sys q m
      → 0 < m.nb_bytes
      → m.nb_bytes ≤ length m.msg
      → k ≢ sys.errno_value ewouldblock
      → sys.send io.net (header_bytes (header_of sys m s)) ≡ (sent 8, n1)
      → sys.send n1 (take m.nb_bytes m.msg) ≡ (sent k, n2)
      → send_round sys q (record io { sock = resting (some q) fifo s })
        ≡ and_then
            (λ u. pure true)
            (finish_msg sys (record io { sock = sending sys m (8 + k) fifo s; net = n2 }))
  unfolding send_round send_message
  send_message_sent q m k fifo s io n1 n2 made p l ne e1 e2 = rw (made.0) (
      bind_ok (prepare sys q) _ (record io { sock = resting (some q) fifo s })
        (prepare-Builds q m fifo s io made)
      ∙ bind_ok (send_header sys) _ (record io { sock = sending sys m 0 fifo s })
          (send_header-sent m fifo s io n1 e1)
      ∙ bind_ok (send_body sys) _ (record io { sock = sending sys m 8 fifo s; net = n1 })
          (send_body-sent m k fifo s (record io { net = n1 }) n2 p l ne e2))

module _ {N : Type 0} (sys : System N) (wire : N → Bytes) (next : N → Bytes → N)
    (law : SendsWhole sys wire next) where
  finish_msg_whole :
      (m : Outgoing) (fifo : List AnyRequest) (s : MsgSocket) (io : Io N)
      → finish_msg sys (record io { sock = sending sys m (8 + m.nb_bytes) fifo s })
        ≡ ok tt (record io { sock = tx_reset (sending sys m (8 + m.nb_bytes) fifo s) })
  unfolding finish_msg
  finish_msg_whole m fifo s io =
      let whole : (8 + m.nb_bytes == m.nb_bytes + header_size) ≡ true = ground arith in
      rw (whole) refl

  pub send_message_whole :
      (q : AnyRequest) (m : Outgoing) (fifo : List AnyRequest) (s : MsgSocket) (io : Io N)
      → Goes sys q m
      → send_round sys q (record io { sock = resting (some q) fifo s })
        ≡ ok true (after_message sys next m fifo s io.net io)
  send_message_whole q m fifo s io ((ready, built), p, l, ne) =
      let made : Builds sys q m = (ready, built) in
      let n1 = next io.net (header_bytes (header_of sys m s)) in
      let n2 = next n1 (take m.nb_bytes m.msg) in
      let size : length (take m.nb_bytes m.msg) ≡ m.nb_bytes =
        let k = length-take m.nb_bytes m.msg in ground arith in
      send_message_sent sys q m m.nb_bytes fifo s io n1 n2 made p l ne
        (law.whole io.net (header_bytes (header_of sys m s)) (omega arith))
        (law.whole n1 (take m.nb_bytes m.msg) (omega arith) ∙ ap (λ k. (sent k, n2)) size)
      ∙ ap (and_then (λ u. pure true)) (finish_msg_whole m fifo s (record io { net = n2 }))

  pub wire_after :
      (m : Outgoing) (s : MsgSocket) (n : N)
      → m.nb_bytes ≤ length m.msg
      → wire (next (next n (header_bytes (header_of sys m s))) (take m.nb_bytes m.msg))
        ≡ wire n ++ frames sys.order (packet_of s.from s.tx_header.notyetused m ∷ [])
  wire_after m s n l =
      let size : m.nb_bytes + header_size ≡ 8 + length (take m.nb_bytes m.msg) =
        let k = length-take m.nb_bytes m.msg in ground arith in
      law.wire-next (next n (header_bytes (header_of sys m s))) (take m.nb_bytes m.msg)
      ∙ ap (λ t. t ++ take m.nb_bytes m.msg) (law.wire-next n (header_bytes (header_of sys m s)))
      ∙ append_assoc (wire n) (header_bytes (header_of sys m s)) (take m.nb_bytes m.msg)
      ∙ ap
          (λ k.
            wire n
            ++ (header_bytes (record (header_of sys m s) { lenght = sys.order.htonl k })
                ++ take m.nb_bytes m.msg))
          size
      ∙ ap
          (λ t.
            wire n
            ++ (header_bytes (record (header_of sys m s) {
              lenght = sys.order.htonl (8 + length (take m.nb_bytes m.msg));
            })
                ++ t))
          (sym (append_nil (take m.nb_bytes m.msg)))
