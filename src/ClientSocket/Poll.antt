-- ===== src/ClientSocket/Poll.antt =====
-- ClientSocket.cpp: what poll does with the messages of both directions.
use hex.Base.{
  ℕ, suc, ◌+◌, ◌*◌, ◌<◌, ◌≡◌, refl, ap, ◌∙◌, Bool, true, false, not, Option, some, List, [], ◌∷◌,
  ◌++◌, map, length, if◌then◌else◌, Bool-cases, inl, inr,
}
use hex.Protocol.{Bytes}
use hex.Request.Any.{AnyRequest}
use hex.MsgSocket.{MsgSocket, System, Errno, Io, ok, sock_connected}
use hex.MsgSocket.Stream.{IsByteOrder, IsStream, SendsWhole, Packet, AllFit, delivered, frames}
use hex.MsgSocket.Send.Message.{resting}
use hex.MsgSocket.Send.Requests.{outgoing, Served, Sendable, Sendable-Goes, packets}
use hex.MsgSocket.Send.Queue.{send_next_data-Sent}
use hex.MsgSocket.Receive.{is_empty}
use hex.MsgSocket.Send.{send_next_data}
use hex.MsgSocket.Receive.Portions.{Pending}
use hex.MsgSocket.Receive.Delivery.{recv_next_data-delivered}
use hex.ClientSocket.{
  Calls, Revents, PollStat, reported, asks_write, is_queued, is_connecting, set_state, then_send,
  connected, with_answer, incoming_part, outgoing_part, on_revents, poll_result, poll,
}

-- what ::poll reports where only one direction is ready
abbrev pub only_incoming : Revents
only_incoming = record { pollhup = false; pollerr = false; pollrdnorm = true; pollwrnorm = false }

abbrev pub only_outgoing : Revents
only_outgoing = record { pollhup = false; pollerr = false; pollrdnorm = false; pollwrnorm = true }

module _ {N : Type 0} (calls : Calls N) (sys : System N) where
  -- Where ::poll reports incoming data only, and the stream, the messages and the fuel are as
  -- recvNextData needs them, poll returns: it has queued a first part of the messages that are to
  -- come, unchanged and in order, all of them where all the bytes have arrived, the others are
  -- still to come, and it tells whether the queue holds a message.
  pub poll-delivered :
      (unread : N → Bytes) (arrived : Bool) (sys_poll : Bool → N → PollStat × N) (fuel : ℕ)
      (io : Io N) (ps : List Packet) (net : N)
      → IsByteOrder sys.order
      → IsStream sys unread arrived
      → AllFit ps
      → Pending sys unread (record io { net = net }) ps
      → 2 * length (unread net) + 1 < fuel
      → sys_poll (asks_write io.sock) io.net ≡ (reported only_incoming, net)
      → (io' : Io N) × (done more : List Packet) × (poll calls sys fuel sys_poll io
          ≡ some (ok (not (is_empty io'.sock.rx_fifo)) io'))
        × (ps ≡ done ++ more)
        × (io'.sock.rx_fifo ≡ io.sock.rx_fifo ++ map delivered done)
        × Pending sys unread io' more
        × (arrived ≡ true → more ≡ [])
  unfolding poll poll_result on_revents incoming_part outgoing_part
  poll-delivered unread arrived sys_poll fuel io ps net o stream fits pend l e =
      let (io', done, more, run, rest1, rest2, rest3, rest4) =
        recv_next_data-delivered sys unread arrived fuel (record io { net = net }) ps o stream fits
          pend l in
      (
        io',
        done,
        more,
        ap (λ y. poll_result calls sys fuel y io) e
            ∙ ap (then_send (outgoing_part calls sys fuel only_incoming)) run,
        rest1,
        rest2,
        rest3,
        rest4,
      )

  -- the socket whose connection has been established
  abbrev pub established : MsgSocket → MsgSocket
  established s = record s {
    sock_state = if is_connecting s.sock_state then sock_connected else s.sock_state;
  }

  connected-established : (s : MsgSocket) → connected s ≡ established s
  unfolding connected set_state
  connected-established s = elim (Bool-cases (is_connecting s.sock_state)) [
    | inl t ↦ rw (t) refl
    | inr t ↦ rw (t) refl
  ]

  -- Where a message is in the queue and none is under emission, ::poll reports that the socket
  -- is ready to send only, and the system takes all that it is given, poll returns: a socket
  -- that was connecting is connected, and the message is on the wire with its header and no
  -- longer in the queue. The request is for a single message, with a body as long as it tells, or
  -- a transfer of at most 7912 bytes; nothing of it has been sent, and the message is not empty and
  -- not of EWOULDBLOCK bytes.
  pub poll-Sent :
      (wire : N → Bytes) (next : N → Bytes → N) (sys_poll : Bool → N → PollStat × N) (f : ℕ)
      (io : Io N) (req : Option AnyRequest) (q : AnyRequest) (qs : List AnyRequest) (s : MsgSocket)
      (net : N)
      → SendsWhole sys wire next
      → Served req
      → Sendable sys q
      → sys_poll true io.net ≡ (reported only_outgoing, net)
      → (s' : MsgSocket) × (n : N) × (errno : Errno) × (poll calls sys
            (suc (suc (suc f)))
            sys_poll
            (record io { sock = resting req (q ∷ qs) s })
          ≡ some (
              ok false (record {
                sock = resting (some (outgoing sys q).after) qs s';
                net = n;
                errno = errno;
              })))
        × (wire n ≡ wire net ++ frames sys.order (packets sys s (q ∷ [])))
        × (s'.sock_state ≡ (established s).sock_state)
  unfolding poll poll_result on_revents incoming_part outgoing_part asks_write is_queued
  poll-Sent wire next sys_poll f io req q qs s net law served fine e =
      let (s', n, errno, run, w, from, unused, same_state) =
        send_next_data-Sent sys wire next law f (record io { net = net }) req q (outgoing sys q) qs
          (established s) served (Sendable-Goes sys q fine) in
      (
        s',
        n,
        errno,
        ap
              (λ y.
                poll_result calls sys (suc (suc (suc f))) y
                  (record io { sock = resting req (q ∷ qs) s }))
              e
            ∙ ap
                (λ t. with_answer false (
                  send_next_data sys (suc (suc (suc f)))
                    (record { sock = t; net = net; errno = io.errno })))
                (connected-established (resting req (q ∷ qs) s))
            ∙ ap (with_answer false) run,
        w,
        same_state,
      )
