-- ===== src/MsgSocket/Send/Requests.antt =====
-- The requests in the queue of MsgSocket.cpp that are sent as one message each: the request for a
-- single message, and a transfer whose bytes fit behind the header that its length counts.
use hex.Base.{
  ◌+◌, ◌≤◌, ◌<◌, ◌≡◌, ◌≢◌, refl, ap, ◌∙◌, false, true, Option, none, some, List, [], ◌∷◌, arith,
  length, ltb, map,
}
use hex.Protocol.{data_transfer_req}
use hex.Request.{first_msg, some_data_to_send, portion, file_transfer_req_header_size}
use hex.Request.Bodies.{Ready, first_msg-Ready, build_first}
use hex.Request.Any.{
  AnyRequest, single, transfer, has_data_to_send, build_next, build_next-transfer,
}
use hex.MsgSocket.{MsgSocket, System, ewouldblock}
use hex.MsgSocket.Stream.{Packet}
use hex.MsgSocket.Send.Message.{Outgoing, packet_of, Builds, Goes}

-- the message, as buildNextL2Msg makes it
abbrev pub outgoing : {N : Type 0} → System N → AnyRequest → Outgoing
outgoing sys (single m n) = record {
  after = single m (n + m.nb_bytes);
  l1_msg_id = m.l1_msg_id;
  msg = m.msg;
  nb_bytes = m.nb_bytes;
}
outgoing sys (transfer r) = record {
  after = transfer (first_msg sys.order r).0;
  l1_msg_id = data_transfer_req;
  msg = (first_msg sys.order r).0.msg;
  nb_bytes = r.l2_payload_length + file_transfer_req_header_size;
}

-- A request of which nothing has been sent, with a message as long as it tells and not empty; a
-- transfer has a body of the size of ClientServerMsgBody.
abbrev pub Fresh : AnyRequest → Type 0
Fresh (single m n) = (n ≡ 0) × (0 < m.nb_bytes) × (m.nb_bytes ≤ length m.msg)
Fresh (transfer r) =
    (r.nb_payload_bytes_sent ≡ 0)
    × (0 < r.l2_payload_length)
    × (r.l2_payload_length ≤ 7912)
    × Ready r

-- one whose length is not taken for EWOULDBLOCK
abbrev pub Sendable : {N : Type 0} → System N → AnyRequest → Type 0
Sendable sys q = Fresh q × ((outgoing sys q).nb_bytes ≢ sys.errno_value ewouldblock)

abbrev pub AllSendable : {N : Type 0} → System N → List AnyRequest → Type 0
AllSendable sys [] = Unit
AllSendable sys (q ∷ qs) = Sendable sys q × AllSendable sys qs

-- the request that tx_req_ptr points to between two messages: none, or one that has been served
abbrev pub Served : Option AnyRequest → Type 0
Served none = Unit
Served (some q) = has_data_to_send q ≡ false

-- the messages of a queue, as packets
abbrev pub packets : {N : Type 0} → System N → MsgSocket → List AnyRequest → List Packet
packets sys s qs = map (λ q. packet_of s.from s.tx_header.notyetused (outgoing sys q)) qs

module _ {N : Type 0} (sys : System N) where
  pub outgoing-Builds : (q : AnyRequest) → Fresh q → Builds sys q (outgoing sys q)
  unfolding has_data_to_send some_data_to_send
  outgoing-Builds (single m n) (z, p, l) =
      let data_left : ltb n m.nb_bytes ≡ true = ground arith in
      (data_left, λ id. unfold build_next in rw (data_left) refl)
  outgoing-Builds (transfer r) (z, p, small, ok) =
      let size : portion 8168 r + file_transfer_req_header_size
          ≡ r.l2_payload_length + file_transfer_req_header_size =
        unfold portion in ground arith in
      let made = (first_msg sys.order r).0 in
      (
        (ground arith),
        λ id.
            build_next-transfer sys.order r made id data_transfer_req 0
              (portion 8168 r + file_transfer_req_header_size)
              (build_first sys.order r ok (id, 0) z p ∙ (unfold first_msg in refl))
            ∙ ap
                (λ k. some (record {
                  request = transfer made;
                  msg_id = data_transfer_req;
                  nb_bytes = k;
                  body = some made.msg;
                }))
                size,
      )

  pub outgoing_room :
      (q : AnyRequest)
      → Fresh q
      → (0 < (outgoing sys q).nb_bytes) × ((outgoing sys q).nb_bytes ≤ length (outgoing sys q).msg)
  outgoing_room (single m n) (z, p, l) = (p, l)
  outgoing_room (transfer r) (z, p, small, ok) =
      (omega arith, omega (arith, (first_msg-Ready sys.order r ok).room))

  pub Sendable-Goes : (q : AnyRequest) → Sendable sys q → Goes sys q (outgoing sys q)
  Sendable-Goes q (fresh, ne) =
      let (p, l) = outgoing_room q fresh in (outgoing-Builds q fresh, p, l, ne)

  pub outgoing-Served : (q : AnyRequest) → Fresh q → Served (some (outgoing sys q).after)
  unfolding has_data_to_send some_data_to_send first_msg portion
  outgoing-Served (single m n) (z, p, l) = ground arith
  outgoing-Served (transfer r) (z, p, small, ok) = ground arith
