-- ===== src/MsgSocket/Send/Queue.antt =====
-- What MsgSocket.cpp makes of the queue of messages where the system takes all that it is given.
use mathlib.Core.Path.{subst}
use hex.Base.{
  ℕ, zero, suc, ◌+◌, ◌≡◌, refl, sym, ap, ◌∙◌, Bool, true, false, Option, none, some, List, [], ◌∷◌,
  ◌++◌, map, length, take,
}
use hex.Protocol.{Bytes, none_id}
use hex.Request.Any.{AnyRequest}
use hex.MsgSocket.{MsgSocket, System, Errno, Io, Out, ok, raised, tx_ready, tx_reset, header_bytes}
use hex.MsgSocket.Send.{
  next_request, send_round, next_round, while_ready, send_rounds, started, send_loop,
  send_next_data, tx_pop_next_request, popped, after_sending, pending, in_time,
}
use hex.MsgSocket.Stream.{SendsWhole, frames, frames_cons, append_nil, append_assoc}
use hex.MsgSocket.Send.Message.{
  resting, Outgoing, packet_of, Goes, header_of, sending, after_message, send_message_whole,
  wire_after,
}
use hex.MsgSocket.Send.Requests.{
  outgoing, AllSendable, Served, packets, Sendable-Goes, outgoing-Served,
}

module _ {N : Type 0} (sys : System N) where
  after_call : (Io N → Option (Out N (Unit {0}))) → Option (Out N Bool) → Option (Out N (Unit {0}))
  after_call again none = none
  after_call again (some (ok true io)) = again io
  after_call again (some (ok false io)) = some (ok tt io)
  after_call again (some (raised e io)) = some (raised e io)

  -- sendNextData, called until it tells that there is no more to send
  unfoldable pub send_all : (fuel calls : ℕ) → Io N → Option (Out N (Unit {0}))
  unfolding after_call
  send_all fuel zero io = none
  send_all fuel (suc calls) io = after_call (send_all fuel calls) (send_next_data sys fuel io)

module _ {N : Type 0} (sys : System N) (wire : N → Bytes) (next : N → Bytes → N)
    (law : SendsWhole sys wire next) where
  send_rounds-message :
      (f : ℕ) (q : AnyRequest) (m : Outgoing) (fifo : List AnyRequest) (s : MsgSocket) (io : Io N)
      → Goes sys q m
      → s.tx_state ≡ tx_ready
      → send_rounds sys (suc (suc f)) (record io { sock = resting (some q) fifo s })
        ≡ some (ok tt (after_message sys next m fifo s io.net io))
  unfolding send_rounds while_ready
  send_rounds-message f q m fifo s io goes ready =
      subst
        (λ st.
          while_ready sys (send_rounds sys (suc f)) st (some q)
            (record io { sock = resting (some q) fifo s })
          ≡ some (ok tt (after_message sys next m fifo s io.net io)))
        (sym ready)
        (unfold next_round tx_reset in
          ap (next_round sys (send_rounds sys (suc f)))
            (send_message_whole sys wire next law q m fifo s io goes))

  send_rounds-Served :
      (f : ℕ) (req : AnyRequest) (fifo : List AnyRequest) (s : MsgSocket) (io : Io N)
      → Served (some req)
      → s.tx_state ≡ tx_ready
      → send_rounds sys (suc f) (record io { sock = resting (some req) fifo s })
        ≡ send_rounds sys f (record io {
          sock = record (tx_pop_next_request (resting (some req) fifo s)) {
            tx_l1_msg_id = none_id;
          };
        })
  unfolding send_rounds while_ready next_round send_round next_request
  send_rounds-Served f req fifo s io served ready =
      subst
        (λ st.
          while_ready sys (send_rounds sys f) st (some req)
            (record io { sock = resting (some req) fifo s })
          ≡ send_rounds sys f (record io {
            sock = record (tx_pop_next_request (resting (some req) fifo s)) {
              tx_l1_msg_id = none_id;
            };
          }))
        (sym ready) (rw (served) refl)

  -- sendNextData has sent the message `m`, and the requests `qs` are left
  abbrev Sent : Io N → Outgoing → List AnyRequest → MsgSocket → Option (Out N Bool) → Type 0
  Sent io m qs s result =
      (s' : MsgSocket) × (n : N) × (errno : Errno) × (result
        ≡ some (ok true (record { sock = resting (some m.after) qs s'; net = n; errno = errno })))
      × (wire n ≡ wire io.net ++ frames sys.order (packet_of s.from s.tx_header.notyetused m ∷ []))
      × (s'.from ≡ s.from)
      × (s'.tx_header.notyetused ≡ s.tx_header.notyetused)
      × (s'.sock_state ≡ s.sock_state)

  send_rounds-Sent :
      (f : ℕ) (io : Io N) (q : AnyRequest) (m : Outgoing) (qs : List AnyRequest) (s : MsgSocket)
      → Goes sys q m
      → s.tx_state ≡ tx_ready
      → Sent io m qs s (
          in_time sys
            (after_sending sys)
            (send_rounds sys (suc (suc f)) (record io { sock = resting (some q) qs s })))
  unfolding after_sending tx_reset pending
  send_rounds-Sent f io q m qs s goes ready = (
    tx_reset (sending sys m (8 + m.nb_bytes) qs s),
    next (next io.net (header_bytes (header_of sys m s))) (take m.nb_bytes m.msg),
    io.errno,
    ap (in_time sys (after_sending sys)) (send_rounds-message f q m qs s io goes ready),
    wire_after sys wire next law m s io.net goes.2,
    refl,
    refl,
    refl,
  )

  pub send_next_data-Sent :
      (f : ℕ) (io : Io N) (req : Option AnyRequest) (q : AnyRequest) (m : Outgoing)
      (qs : List AnyRequest) (s : MsgSocket)
      → Served req
      → Goes sys q m
      → Sent io m qs s
          (send_next_data sys (suc (suc (suc f))) (record io { sock = resting req (q ∷ qs) s }))
  unfolding send_next_data send_loop started tx_pop_next_request popped
  send_next_data-Sent f io none q m qs s served goes =
      send_rounds-Sent (suc f) io q m qs (record s { tx_state = tx_ready }) goes refl
  send_next_data-Sent f io (some req) q m qs s served goes =
      subst (Sent io m qs s)
        (ap (in_time sys (after_sending sys)) (
          sym (
            send_rounds-Served (suc (suc f)) req (q ∷ qs) (record s { tx_state = tx_ready }) io
              served refl)))
        (send_rounds-Sent f io q m qs (record s { tx_state = tx_ready; tx_l1_msg_id = none_id })
          goes refl)

  -- with no message left, it tells that there is no more to send
  pub send_next_data_idle :
      (f : ℕ) (io : Io N) (req : Option AnyRequest) (s : MsgSocket)
      → Served req
      → (s' : MsgSocket) × (send_next_data sys
            (suc (suc (suc f)))
            (record io { sock = resting req [] s })
          ≡ some (ok false (record io { sock = resting none [] s' })))
  unfolding send_next_data send_loop started tx_pop_next_request popped send_rounds while_ready
      after_sending pending
  send_next_data_idle f io none s served = (record s { tx_state = tx_ready }, refl)
  send_next_data_idle f io (some req) s served = (
    record s { tx_state = tx_ready; tx_l1_msg_id = none_id },
    ap (in_time sys (after_sending sys))
        (send_rounds-Served (suc (suc f)) req [] (record s { tx_state = tx_ready }) io served refl),
  )

  -- Where the system takes all that it is given, and no message is under emission, sendNextData,
  -- called once for each request in the queue and once more, writes their messages to the wire,
  -- each with its header, in the order of the queue, and then tells that there is no more: the
  -- queue is empty. It needs three rounds at most in a call. The requests are for single messages,
  -- with a body as long as they tell, or transfers of at most 7912 bytes; nothing of them has been
  -- sent, and none is empty or of EWOULDBLOCK bytes.
  pub send_all-frames :
      (f : ℕ) (io : Io N) (req : Option AnyRequest) (qs : List AnyRequest) (s : MsgSocket)
      → Served req
      → AllSendable sys qs
      → (io' : Io N) × (send_all sys
            (suc (suc (suc f)))
            (suc (length qs))
            (record io { sock = resting req qs s })
          ≡ some (ok tt io'))
        × (wire io'.net ≡ wire io.net ++ frames sys.order (packets sys s qs))
        × (io'.sock.tx_fifo ≡ [])
        × (io'.sock.tx_req_ptr ≡ none)
  unfolding send_all after_call
  send_all-frames f io req [] s served fine =
      let (s', e) = send_next_data_idle f io req s served in
      (
        record io { sock = resting none [] s' },
        ap (after_call sys (send_all sys (suc (suc (suc f))) 0)) e,
        sym (append_nil (wire io.net)),
        refl,
        refl,
      )
  send_all-frames f io req (q ∷ qs) s served fine =
      let m = outgoing sys q in
      let first = packet_of s.from s.tx_header.notyetused m in
      let (s', n, errno, e, w, from, unused, same_state) =
        send_next_data-Sent f io req q m qs s served (Sendable-Goes sys q fine.0) in
      let (io', e', w', empty, done) =
        send_all-frames f (record io { net = n; errno = errno }) (some m.after) qs s'
          (outgoing-Served sys q fine.0.0) fine.1 in
      (
        io',
        ap (after_call sys (send_all sys (suc (suc (suc f))) (suc (length qs)))) e ∙ e',
        w'
            ∙ ap (λ t. t ++ frames sys.order (packets sys s' qs)) w
            ∙ ap
                (λ d.
                  (wire io.net ++ frames sys.order (first ∷ []))
                  ++ frames sys.order
                      (map (λ p. packet_of d s'.tx_header.notyetused (outgoing sys p)) qs))
                from
            ∙ ap
                (λ u.
                  (wire io.net ++ frames sys.order (first ∷ []))
                  ++ frames sys.order (map (λ p. packet_of s.from u (outgoing sys p)) qs))
                unused
            ∙ append_assoc (wire io.net) _ _
            ∙ ap (λ t. wire io.net ++ t) (frames_cons sys.order first (packets sys s qs)),
        empty,
        done,
      )
