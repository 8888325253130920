-- ===== src/MsgSocket/Send/Refusals.antt =====
-- What MsgSocket.cpp makes of a system that does not take the whole body of a message.
use mathlib.Core.Path.{subst}
use hex.Base.{
  ℕ, suc, ◌+◌, ◌<◌, ◌≡◌, ◌≢◌, refl, sym, ap, ◌∙◌, true, false, inl, inr, none, some, List, ◌∷◌,
  arith, ℤ, pos, pos_part, neg_part, take, ◌==◌, Bool-cases,
}
use hex.Request.Any.{AnyRequest}
use hex.MsgSocket.{
  MsgSocket, System, sent, ewouldblock, Io, and_then, ok, raised, pure, tx_ready, header_bytes,
}
use hex.MsgSocket.Send.{
  header_size, finish_msg, next_request, send_round, next_round, while_ready, send_rounds, started,
  send_loop, send_next_data, tx_pop_next_request, popped, after_sending, in_time,
}
use hex.MsgSocket.{assertion}
use hex.MsgSocket.Send.Message.{resting, header_of, sending, send_message_sent, Outgoing}
use hex.MsgSocket.Send.Requests.{
  outgoing, Fresh, Served, outgoing-Builds, outgoing_room, outgoing-Served,
}

module _ {N : Type 0} (sys : System N) where
  -- a request that has been served asserts that nothing of a message is left
  next_request_asserts :
      (io : Io N) (p : 0 < io.sock.tx_msg_length)
      → (io' : Io N) × (next_request sys io ≡ raised assertion io')
  unfolding next_request
  next_request_asserts io p =
      elim (Bool-cases (neg_part io.sock.tx_length + pos_part io.sock.tx_length == 0)) [
        | inl t ↦
            let left : (io.sock.tx_msg_length == 0) ≡ false = ground arith in
            (io, rw (t) (rw (left) refl))
        | inr t ↦ (io, rw (t) refl)
      ]

  send_rounds_asserts :
      (f : ℕ) (m : Outgoing) (z : ℤ) (fifo : List AnyRequest) (s : MsgSocket) (io : Io N)
      → s.tx_state ≡ tx_ready
      → Served (some m.after)
      → 0 < m.nb_bytes
      → (io' : Io N) × (send_rounds sys
            (suc f)
            (record io { sock = record (sending sys m 0 fifo s) { tx_length = z } })
          ≡ some (raised assertion io'))
  unfolding send_rounds while_ready next_round send_round
  send_rounds_asserts f m z fifo s io ready served p =
      let io1 : Io N = record io { sock = record (sending sys m 0 fifo s) { tx_length = z } } in
      let (io', e) = next_request_asserts io1 (omega arith) in
      (
        io',
        subst
            (λ st.
              while_ready sys (send_rounds sys f) st (some m.after) io1
              ≡ some (raised assertion io'))
            (sym ready) (rw (served) (ap (next_round sys (send_rounds sys f)) e)),
      )

  finish_msg_part :
      (m : Outgoing) (k : ℕ) (fifo : List AnyRequest) (s : MsgSocket) (io : Io N)
      → k < m.nb_bytes
      → finish_msg sys (record io { sock = sending sys m (8 + k) fifo s })
        ≡ ok tt (record io { sock = sending sys m (8 + k) fifo s })
  unfolding finish_msg
  finish_msg_part m k fifo s io l =
      let part : (8 + k == m.nb_bytes + header_size) ≡ false = ground arith in rw (part) refl

  -- Where no request is under emission, the system takes the header of the first message in the
  -- queue and then only a part of its body, not of EWOULDBLOCK bytes, sendNextData ends in a
  -- failed assertion. The request is for a single message with a body as long as it tells, or a
  -- transfer of at most 7912 bytes; it is not empty, and nothing of it has been sent.
  pub send_next_data_partial :
      (f : ℕ) (io : Io N) (q : AnyRequest) (k : ℕ) (fifo : List AnyRequest) (s : MsgSocket)
      (n1 n2 : N)
      → Fresh q
      → k < (outgoing sys q).nb_bytes
      → k ≢ sys.errno_value ewouldblock
      → sys.send io.net (header_bytes (header_of sys (outgoing sys q) s)) ≡ (sent 8, n1)
      → sys.send n1 (take (outgoing sys q).nb_bytes (outgoing sys q).msg) ≡ (sent k, n2)
      → (io' : Io N) × (send_next_data sys
            (suc (suc f))
            (record io { sock = resting none (q ∷ fifo) s })
          ≡ some (raised assertion io'))
  unfolding send_next_data send_loop started tx_pop_next_request popped send_rounds while_ready
      after_sending
  send_next_data_partial f io q k fifo s n1 n2 fresh less ne e1 e2 =
      let m = outgoing sys q in
      let (p, l) = outgoing_room sys q fresh in
      let ready : MsgSocket = record s { tx_state = tx_ready } in
      let (io', e) =
        send_rounds_asserts f m (pos (8 + k)) fifo ready (record io { net = n2 }) refl
          (outgoing-Served sys q fresh) p in
      (
        io',
        ap (in_time sys (after_sending sys)) (
            unfold next_round in
            ap (next_round sys (send_rounds sys (suc f))) (
              send_message_sent sys q m k fifo ready io n1 n2 (outgoing-Builds sys q fresh) p l ne
                e1 e2
              ∙ ap (and_then (λ u. pure true))
                  (finish_msg_part m k fifo ready (record io { net = n2 }) less))
            ∙ e),
      )
