-- ===== src/MsgSocket/Send/Oversized.antt =====
-- What MsgSocket.cpp makes of a transfer whose first message is given a length beyond its body.
use hex.Base.{ℕ, suc, ◌+◌, ◌<◌, ◌≡◌, refl, ap, ◌∙◌, true, none, some, List, ◌∷◌, arith, length, ltb}
use hex.Protocol.{data_transfer_req}
use hex.Request.{
  TransferRequest, first_msg, some_data_to_send, portion, file_transfer_req_header_size,
}
use hex.Request.Bodies.{Ready, first_msg-Ready, build_first}
use hex.Request.Any.{AnyRequest, transfer, has_data_to_send, build_next-transfer}
use hex.MsgSocket.{MsgSocket, System, sent, Io, and_then, raised, overrun, tx_ready, header_bytes}
use hex.MsgSocket.Stream.{bind_ok}
use hex.MsgSocket.Send.{
  socket_send, prepare, send_header, send_body, send_message, send_round, next_round, while_ready,
  send_rounds, started, send_loop, send_next_data, tx_pop_next_request, popped, after_sending,
  in_time,
}
use hex.MsgSocket.Send.Message.{
  resting, Outgoing, Builds, header_of, sending, prepare-Builds, send_header-sent, body_call,
}

module _ {N : Type 0} (sys : System N) where
  send_body_overrun :
      (m : Outgoing) (fifo : List AnyRequest) (s : MsgSocket) (io : Io N)
      → length m.msg < m.nb_bytes
      → send_body sys (record io { sock = sending sys m 8 fifo s })
        ≡ raised overrun (record io { sock = sending sys m 8 fifo s })
  unfolding socket_send
  send_body_overrun m fifo s io l =
      let beyond : ltb (length m.msg) m.nb_bytes ≡ true = ground arith in
      body_call sys m fifo s io (omega arith) ∙ (rw (beyond) refl)

  -- the round for a message whose length is beyond its body: the header goes out
  send_round_overrun :
      (q : AnyRequest) (m : Outgoing) (fifo : List AnyRequest) (s : MsgSocket) (io : Io N) (n1 : N)
      → Builds sys q m
      → length m.msg < m.nb_bytes
      → sys.send io.net (header_bytes (header_of sys m s)) ≡ (sent 8, n1)
      → send_round sys q (record io { sock = resting (some q) fifo s })
        ≡ raised overrun (record io { sock = sending sys m 8 fifo s; net = n1 })
  unfolding send_round send_message
  send_round_overrun q m fifo s io n1 made l e = rw (made.0) (
      bind_ok (prepare sys q) _ (record io { sock = resting (some q) fifo s })
        (prepare-Builds sys q m fifo s io made)
      ∙ bind_ok (send_header sys) _ (record io { sock = sending sys m 0 fifo s })
          (send_header-sent sys m fifo s io n1 e)
      ∙ ap (and_then _) (send_body_overrun m fifo s (record io { net = n1 }) l))

  -- the first message of a transfer, with the length that buildNextL2Msg gives it
  abbrev pub first_of : TransferRequest → Outgoing
  first_of r = record {
    after = transfer (first_msg sys.order r).0;
    l1_msg_id = data_transfer_req;
    msg = (first_msg sys.order r).0.msg;
    nb_bytes = portion 8168 r + file_transfer_req_header_size;
  }

  first_of-Builds :
      (r : TransferRequest)
      → Ready r
      → r.nb_payload_bytes_sent ≡ 0
      → 0 < r.l2_payload_length
      → Builds sys (transfer r) (first_of r)
  unfolding has_data_to_send some_data_to_send
  first_of-Builds r whole z p = (
    (ground arith),
    λ id.
        build_next-transfer sys.order r (first_msg sys.order r).0 id data_transfer_req 0
          (portion 8168 r + file_transfer_req_header_size)
          (build_first sys.order r whole (id, 0) z p ∙ (unfold first_msg in refl)),
  )

  -- Where no request is under emission and the first of the queue is a transfer of more than 7912
  -- bytes, of which nothing has been sent and with a body of the size of ClientServerMsgBody, and
  -- the system takes the header, sendNextData puts the header of the first message on the wire and
  -- then reads beyond the body.
  pub send_next_data_overrun :
      (f : ℕ) (io : Io N) (r : TransferRequest) (fifo : List AnyRequest) (s : MsgSocket) (n1 : N)
      → Ready r
      → r.nb_payload_bytes_sent ≡ 0
      → 7912 < r.l2_payload_length
      → sys.send io.net (header_bytes (header_of sys (first_of r) s)) ≡ (sent 8, n1)
      → (io' : Io N) × (send_next_data sys
            (suc f)
            (record io { sock = resting none (transfer r ∷ fifo) s })
          ≡ some (raised overrun io'))
        × (io'.net ≡ n1)
  unfolding send_next_data send_loop started tx_pop_next_request popped send_rounds while_ready
      next_round after_sending
  send_next_data_overrun f io r fifo s n1 whole z l e =
      let ready : MsgSocket = record s { tx_state = tx_ready } in
      let room = (first_msg-Ready sys.order r whole).room in
      (
        record io { sock = sending sys (first_of r) 8 fifo ready; net = n1 },
        ap (in_time sys (after_sending sys)) (
            ap (next_round sys (send_rounds sys f)) (
              send_round_overrun (transfer r) (first_of r) fifo ready io n1
                (first_of-Builds r whole z (omega arith))
                (let w = room in unfold portion in ground arith) e)),
        refl,
      )
