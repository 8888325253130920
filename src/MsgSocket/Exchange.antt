-- ===== src/MsgSocket/Exchange.antt =====
-- MsgSocket.cpp at both ends of a connection.
use mathlib.Core.Path.{subst}
use hex.Base.{
  ℕ, suc, ◌+◌, ◌*◌, ◌<◌, ◌≡◌, refl, sym, ap, ◌∙◌, true, not, Option, some, List, [], ◌++◌, map,
  length,
}
use hex.Protocol.{Bytes}
use hex.Request.Any.{AnyRequest}
use hex.MsgSocket.{MsgSocket, System, Io, ok}
use hex.MsgSocket.Stream.{IsByteOrder, IsStream, SendsWhole, AllFit, delivered, frames, append_nil}
use hex.MsgSocket.Send.Message.{resting}
use hex.MsgSocket.Send.Requests.{AllSendable, Served, packets}
use hex.MsgSocket.Send.Queue.{send_all, send_all-frames}
use hex.MsgSocket.Receive.{recv_next_data, is_empty}
use hex.MsgSocket.Receive.Portions.{boundary}
use hex.MsgSocket.Receive.Delivery.{recv_next_data-delivered}

module _ {N M : Type 0} (sys : System N) (wire : N → Bytes) (next : N → Bytes → N)
    (sends : SendsWhole sys wire next) (peer : System M) (unread : M → Bytes)
    (order : IsByteOrder peer.order) (stream : IsStream peer unread true) (arriving : Bytes → M)
    (arriving-unread : (bs : Bytes) → unread (arriving bs) ≡ bs) where
  -- Two hosts of one byte order: where the sender's system takes all that it is given, its wire
  -- is empty and no message is under emission, sendNextData, called until it tells that there
  -- is no more to send, returns within three rounds a call; and with the bytes of the wire
  -- arrived at the peer, who is between two messages, one call of recvNextData there returns,
  -- within any fuel beyond twice those bytes and one, with the messages of the sender's queue
  -- at the end of the receiver's, unchanged and in order. The requests of the queue are for single
  -- messages, with a body as long as they tell, or transfers of at most 7912 bytes; nothing of them
  -- has been sent, none is empty or of EWOULDBLOCK bytes, and the messages have an identifier of
  -- 16 bits and a body of at most 8192 bytes.
  pub send_all-recv_next_data :
      (f fuel : ℕ) (io : Io N) (req : Option AnyRequest) (qs : List AnyRequest) (s : MsgSocket)
      (io2 : Io M)
      → sys.order ≡ peer.order
      → Served req
      → AllSendable sys qs
      → AllFit (packets sys s qs)
      → wire io.net ≡ []
      → io2.sock.rx_lenght ≡ 0
      → 2 * length (frames sys.order (packets sys s qs)) + 1 < fuel
      → (io' : Io N) × (io2' : Io M) × (send_all sys
            (suc (suc (suc f)))
            (suc (length qs))
            (record io { sock = resting req qs s })
          ≡ some (ok tt io'))
        × (recv_next_data peer fuel (record io2 { net = arriving (wire io'.net) })
            ≡ some (ok (not (is_empty io2'.sock.rx_fifo)) io2'))
        × (io2'.sock.rx_fifo ≡ io2.sock.rx_fifo ++ map delivered (packets sys s qs))
  send_all-recv_next_data f fuel io req qs s io2 same served fine fits start z l =
      let (io', sent_all, written, empty, done) =
        send_all-frames sys wire next sends f io req qs s served fine in
      let bytes : wire io'.net ≡ frames sys.order (packets sys s qs) =
        written ∙ ap (λ t. t ++ frames sys.order (packets sys s qs)) start in
      let came : unread (arriving (wire io'.net)) ≡ frames peer.order (packets sys s qs) =
        arriving-unread (wire io'.net) ∙ bytes ∙ ap (λ o. frames o (packets sys s qs)) same in
      let size : 2 * length (unread (arriving (wire io'.net))) + 1 < fuel =
        subst (λ t. 2 * length t + 1 < fuel) (sym (arriving-unread (wire io'.net) ∙ bytes)) l in
      let io3 : Io M = record io2 { net = arriving (wire io'.net) } in
      let (io2', done2, more, recvd, cut, fifo, pend, all) =
        recv_next_data-delivered peer unread true fuel io3 (packets sys s qs) order stream fits
          (boundary peer unread true io3 (packets sys s qs) z came) size in
      (
        io',
        io2',
        sent_all,
        recvd,
        fifo
            ∙ ap (λ ps. io2.sock.rx_fifo ++ map delivered ps)
                (sym (cut ∙ ap (λ t. done2 ++ t) (all refl) ∙ append_nil done2)),
      )
