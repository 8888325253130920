-- ===== src/MsgSocket/Receive/Delivery.antt =====
-- The messages that MsgSocket.cpp makes of a stream, whatever the portions in which it arrives.
use mathlib.Core.Path.{subst}
use hex.Base.{
  ℕ, zero, suc, ◌+◌, ◌*◌, ◌<◌, ◌≡◌, refl, sym, ap, ◌∙◌, Bool, true, false, not, Option, some, List,
  [], ◌∷◌, ◌++◌, map, arith, length,
}
use hex.Protocol.{Bytes}
use hex.MsgSocket.{System, Io, Out, ok, raised, rx_data}
use hex.MsgSocket.Receive.{
  recv_round, next_recv, while_data, recv_loop, recv_next_data, after_receiving, is_empty, in_time,
}
use hex.MsgSocket.Stream.{IsByteOrder, IsStream, Packet, AllFit, delivered, append_assoc}
use hex.MsgSocket.Receive.Portions.{Pending, left, Advanced}
use hex.MsgSocket.Receive.Rounds.{recv_round-Advanced}

module _ {N : Type 0} (sys : System N) (unread : N → Bytes) (arrived : Bool) where
  AllFit-append : (done more : List Packet) → AllFit (done ++ more) → AllFit more
  AllFit-append [] more fits = fits
  AllFit-append (p ∷ ps) more fits = AllFit-append ps more fits.1

  map-append :
      (xs ys : List Packet) → map delivered (xs ++ ys) ≡ map delivered xs ++ map delivered ys
  map-append [] ys = refl
  map-append (x ∷ xs) ys = ap (λ t. delivered x ∷ t) (map-append xs ys)

  -- a run of the loop that returns, with some of the messages moved to the queue
  abbrev Returns : Io N → List Packet → Option (Out N (Unit {0})) → Type 0
  Returns io ps result =
      (io' : Io N) × (done more : List Packet) × (result ≡ some (ok tt io'))
      × (ps ≡ done ++ more)
      × (io'.sock.rx_fifo ≡ io.sock.rx_fifo ++ map delivered done)
      × Pending sys unread io' more
      × (arrived ≡ true → more ≡ [])

  Returns-later :
      (fuel : ℕ) (io : Io N) (ps : List Packet) (out : Out N Bool)
      → ((io' : Io N) (more : List Packet)
          → left unread io' < left unread io
          → io'.sock.rx_state ≡ rx_data
          → AllFit more
          → Pending sys unread io' more
          → Returns io' more (recv_loop sys fuel io'))
      → AllFit ps
      → Advanced sys unread arrived io ps out
      → Returns io ps (next_recv sys (recv_loop sys fuel) out)
  unfolding next_recv
  Returns-later fuel io ps (raised x io') rest fits a = elim a [ ]
  Returns-later fuel io ps (ok false io') rest fits (done, more, cut, fifo, pend, loops, ends) =
      (io', done, more, refl, cut, fifo, pend, ends refl)
  Returns-later fuel io ps (ok true io') rest fits (done, more, cut, fifo, pend, loops, ends) =
      let (io'', done', more', result, cut', fifo', pend', ends') =
        rest io' more (loops refl).1 (loops refl).0
          (AllFit-append done more (subst AllFit cut fits)) pend in
      (
        io'',
        done ++ done',
        more',
        result,
        cut ∙ ap (λ t. done ++ t) cut' ∙ sym (append_assoc done done' more'),
        fifo'
            ∙ ap (λ t. t ++ map delivered done') fifo
            ∙ append_assoc io.sock.rx_fifo (map delivered done) (map delivered done')
            ∙ ap (λ t. io.sock.rx_fifo ++ t) (sym (map-append done done')),
        pend',
        ends',
      )

  recv_loop-Returns :
      (fuel : ℕ) (io : Io N) (ps : List Packet)
      → IsByteOrder sys.order
      → IsStream sys unread arrived
      → AllFit ps
      → io.sock.rx_state ≡ rx_data
      → Pending sys unread io ps
      → left unread io < fuel
      → Returns io ps (recv_loop sys fuel io)
  unfolding recv_loop while_data
  recv_loop-Returns zero io ps o stream fits st pend l = absurd (omega arith)
  recv_loop-Returns (suc fuel) io ps o stream fits st pend l =
      subst (λ state. Returns io ps (while_data sys (recv_loop sys fuel) state io)) (sym st)
        (Returns-later fuel io ps (recv_round sys io)
          (λ io' more l' st' fits' pend'.
            recv_loop-Returns fuel io' more o stream fits' st' pend' (omega arith))
          fits (recv_round-Advanced sys unread arrived io ps o stream fits st pend))

  Pending-again :
      (io : Io N) (ps : List Packet)
      → Pending sys unread io ps
      → Pending sys unread (record io { sock = record io.sock { rx_state = rx_data } }) ps
  Pending-again io [] pend = pend
  Pending-again io (p ∷ ps) pend = pend

  -- Where the system keeps the laws of the byte order and of a stream, and the messages `ps`
  -- that are to come have identifiers of 16 bits and bodies of at most 8192 bytes, the first of
  -- them perhaps in part read, recvNextData returns within any fuel beyond twice the unread
  -- bytes and one, whatever the portions in which the bytes arrive: it has queued a first part
  -- of the messages, unchanged and in order, the others are still to come, and it tells whether
  -- the queue holds a message. Where all the bytes have arrived it has queued all.
  pub recv_next_data-delivered :
      (fuel : ℕ) (io : Io N) (ps : List Packet)
      → IsByteOrder sys.order
      → IsStream sys unread arrived
      → AllFit ps
      → Pending sys unread io ps
      → 2 * length (unread io.net) + 1 < fuel
      → (io' : Io N) × (done more : List Packet) × (recv_next_data sys fuel io
          ≡ some (ok (not (is_empty io'.sock.rx_fifo)) io'))
        × (ps ≡ done ++ more)
        × (io'.sock.rx_fifo ≡ io.sock.rx_fifo ++ map delivered done)
        × Pending sys unread io' more
        × (arrived ≡ true → more ≡ [])
  unfolding recv_next_data after_receiving
  recv_next_data-delivered fuel io ps o stream fits pend l =
      let io1 : Io N = record io { sock = record io.sock { rx_state = rx_data } } in
      let (io', done, more, result, cut, fifo, pend', all) =
        recv_loop-Returns fuel io1 ps o stream fits refl (Pending-again io ps pend)
          (ground arith) in
      (io', done, more, ap (in_time sys (after_receiving sys)) result, cut, fifo, pend', all)
