-- ===== src/MsgSocket/Receive/Rounds.antt =====
-- The rounds in which MsgSocket.cpp reads a stream.
use mathlib.Core.Path.{subst}
use hex.Base.{
  ◌+◌, ◌≤◌, ◌<◌, ◌≡◌, refl, sym, ap, ◌∙◌, Bool, true, false, inl, inr, none, some, List, [], ◌∷◌,
  ◌++◌, map, arith, length, ◌==◌, if◌then◌else◌, Bool-cases, ne_of_==, length-append,
}
use hex.Protocol.{Bytes, int_of}
use hex.MsgSocket.{
  System, RecvResult, received, not_received, ewouldblock, Io, Out, Action, and_then, ok, raised,
  pure, rx_idle, rx_data, int_bytes,
}
use hex.MsgSocket.Receive.{
  receive_result, socket_receive, begun, peeked, consumed, waiting, recv_advance,
  recv_begin_new_msg, recv_round,
}
use hex.MsgSocket.Stream.{
  IsByteOrder, Peeks, IsStream, Packet, AllFit, delivered, tail, frames, int_of-int_bytes,
  append_cancel, append_nil,
}
use hex.MsgSocket.Receive.Portions.{
  Pending, left, Advanced, receive_result_ewouldblock, boundary, recv_advance-Advanced,
}

module _ {N : Type 0} (sys : System N) (unread : N → Bytes) (arrived : Bool) where
  Advanced-earlier :
      (io io' : Io N) (ps : List Packet) (o : Out N Bool)
      → io'.sock.rx_fifo ≡ io.sock.rx_fifo
      → left unread io' ≤ left unread io
      → Advanced sys unread arrived io' ps o
      → Advanced sys unread arrived io ps o
  Advanced-earlier io io' ps (raised e r) f l a = a
  Advanced-earlier io io' ps (ok go r) f l (done, more, cut, fifo, pend, loops, ends) = (
    done,
    more,
    cut,
    fifo ∙ ap (λ t. t ++ map delivered done) f,
    pend,
    λ g. let k = loops g in (k.0, let l' = k.1 in omega arith),
    ends,
  )

  -- the message whose length has been read
  abbrev opened : Io N → Bytes → N → Io N
  opened io bs n = record io { sock = begun sys bs (record io.sock { rx_msg = none }); net = n }

  opened-Advanced :
      (io : Io N) (ps : List Packet) (bs : Bytes) (n : N)
      → IsByteOrder sys.order
      → IsStream sys unread arrived
      → AllFit ps
      → io.sock.rx_state ≡ rx_data
      → unread io.net ≡ frames sys.order ps
      → unread io.net ≡ bs ++ unread n
      → length bs ≡ 4
      → Advanced sys unread arrived io ps (recv_advance sys (opened io bs n))
  unfolding begun
  opened-Advanced io [] bs n o stream fits st e cut four =
      absurd (let k = ap length (sym e ∙ cut) ∙ length-append bs (unread n) in omega arith)
  opened-Advanced io (p ∷ ps) bs n o stream fits st e cut four =
      let parts =
        append_cancel bs (int_bytes (sys.order.htonl (8 + length p.l1_body))) (unread n)
          (tail sys.order p ++ frames sys.order ps) four (sym cut ∙ e) in
      let len : sys.order.ntohl (int_of bs) ≡ 8 + length p.l1_body =
        ap (λ t. sys.order.ntohl (int_of t)) parts.0
        ∙ ap sys.order.ntohl (int_of-int_bytes _ (o.htonl_bound (8 + length p.l1_body)))
        ∙ o.ntohl-htonl (8 + length p.l1_body) (omega (arith, fits.0.1)) in
      let shorter = ap length cut ∙ length-append bs (unread n) in
      Advanced-earlier io (opened io bs n) (p ∷ ps) (recv_advance sys (opened io bs n)) refl
        (ground arith)
        (recv_advance-Advanced sys unread arrived (opened io bs n) p ps [] o stream fits.0 st
          (ap (λ l. some (record { lenght = l; raw = [] })) len, refl, parts.1, omega arith))

  -- the rest of the round once _recvBeginNewMsg has returned
  abbrev advance_if : Bool → Action N Bool
  advance_if begun = if begun then recv_advance sys else pure false

  few_frames : (ps : List Packet) → length (frames sys.order ps) < 4 → ps ≡ []
  few_frames [] l = refl
  few_frames (p ∷ ps) l = absurd (omega arith)

  waiting-Advanced :
      (io io' : Io N) (ps : List Packet)
      → io'.sock.rx_fifo ≡ io.sock.rx_fifo
      → io'.sock.rx_lenght ≡ 0
      → unread io'.net ≡ frames sys.order ps
      → (arrived ≡ true → length (unread io'.net) < 4)
      → Advanced sys unread arrived io ps (and_then advance_if (waiting sys io'))
  unfolding waiting
  waiting-Advanced io io' ps f z e few = (
    [],
    ps,
    refl,
    f ∙ sym (append_nil io.sock.rx_fifo),
    boundary sys unread arrived
        (record io' { sock = record io'.sock { rx_state = rx_idle; rx_msg = none } }) ps z e,
    λ g. absurd (cc (g)),
    λ g w. few_frames ps (let k = few w in let k' = ap length e in omega arith),
  )

  peeked-Advanced :
      (io : Io N) (ps : List Packet) (r : RecvResult × N)
      → IsByteOrder sys.order
      → IsStream sys unread arrived
      → AllFit ps
      → io.sock.rx_state ≡ rx_data
      → io.sock.rx_lenght ≡ 0
      → unread io.net ≡ frames sys.order ps
      → Peeks sys unread arrived io.net 4 r
      → Advanced sys unread arrived io ps (
          and_then advance_if (
            and_then
              (peeked sys)
              (receive_result sys r (record io { sock = record io.sock { rx_msg = none } }))))
  unfolding peeked
  peeked-Advanced io ps (received bs, n) o stream fits st z e (same, again, short) =
      unfold receive_result in
      elim (Bool-cases (length bs == 4)) [
        | inl t ↦
            let (n', reads, cut) = again (ground arith) in
            rw (t) (
              unfold socket_receive in
              subst
                (λ r. Advanced sys unread arrived io ps (
                  and_then advance_if (
                    and_then (consumed sys) (
                      receive_result sys r
                        (record io { sock = record io.sock { rx_msg = none }; net = n })))))
                (sym reads)
                (unfold consumed in
                  rw (t) (opened-Advanced io ps bs n' o stream fits st e cut (ground arith))))
        | inr t ↦ rw (t) (
            waiting-Advanced io (record io { sock = record io.sock { rx_msg = none }; net = n }) ps
              refl z (same ∙ e)
              (λ w.
                let k = short w (ne_of_== (length bs) 4 t) in
                let k' = ap length same in omega arith))
      ]
  peeked-Advanced io ps (not_received x, n) o stream fits st z e (k, same, none_left) = rw (k) (
      subst
        (λ out. Advanced sys unread arrived io ps (and_then advance_if (and_then (peeked sys) out)))
        (sym (
          receive_result_ewouldblock sys unread arrived
            (record io { sock = record io.sock { rx_msg = none } }) n))
        (waiting-Advanced io
          (record io { sock = record io.sock { rx_msg = none }; net = n; errno = ewouldblock }) ps
          refl z (same ∙ e) (λ w. let k = ap length (same ∙ none_left w) in omega arith)))

  pub recv_round-Advanced :
      (io : Io N) (ps : List Packet)
      → IsByteOrder sys.order
      → IsStream sys unread arrived
      → AllFit ps
      → io.sock.rx_state ≡ rx_data
      → Pending sys unread io ps
      → Advanced sys unread arrived io ps (recv_round sys io)
  unfolding recv_round recv_begin_new_msg socket_receive
  recv_round-Advanced io [] o stream fits st (z, e) =
      let at_start : (io.sock.rx_lenght == 0) ≡ true = ground arith in
      rw (at_start)
        (peeked-Advanced io [] (sys.recv io.net 4 true) o stream fits st z e (stream.peek io.net))
  recv_round-Advanced io (p ∷ ps) o stream fits st (inl (z, e)) =
      let at_start : (io.sock.rx_lenght == 0) ≡ true = ground arith in
      rw (at_start) (
        peeked-Advanced io (p ∷ ps) (sys.recv io.net 4 true) o stream fits st z e
          (stream.peek io.net))
  recv_round-Advanced io (p ∷ ps) o stream fits st (inr (raw, (m0, m1, m2, m3))) =
      let inside : (io.sock.rx_lenght == 0) ≡ false = ground arith in
      rw (inside)
        (recv_advance-Advanced sys unread arrived io p ps raw o stream fits.0 st (m0, m1, m2, m3))
