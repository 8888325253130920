-- ===== src/MsgSocket/Receive/Portions.antt =====
-- The portions of a message that MsgSocket.cpp reads from a stream.
use mathlib.Core.Path.{subst}
use hex.Base.{
  ℕ, suc, ◌+◌, ◌-◌, ◌*◌, ◌≤◌, ◌<◌, ◌≡◌, refl, sym, ap, ◌∙◌, Bool, true, false, ◌⊎◌, inl, inr, some,
  List, [], ◌∷◌, ◌++◌, map, arith, length, ltb, ◌==◌, if◌then◌else◌, Bool-cases, length-append,
}
use hex.Protocol.{Bytes, TransferDirection, from_server, from_client}
use hex.Server.{ignore}
use hex.MsgSocket.{
  System, RecvResult, received, not_received, ewouldblock, Io, Out, ok, raised, ◌>>=◌, rx_data,
  SockState, rx_error_type, rx_error_type_at, get_rx_error_type, direction_byte, sock_null,
  sock_error, sock_disconnected, sock_connecting, sock_connected,
}
use hex.MsgSocket.Receive.{
  msg_size, receive_result, receive_refused, is_idle_error, socket_receive, stored, complete,
  queued, is_positive, advance_at, recv_advance,
}
use hex.MsgSocket.Stream.{
  IsByteOrder, Reads, IsStream, Packet, Fits, delivered, tail, frames, short_of-short_bytes,
  append_cancel, append_nil, append_assoc, bind_ok,
}

ewouldblock_ignored :
    (from : TransferDirection) (st : SockState) → rx_error_type_at from st ewouldblock ≡ some ignore
unfolding rx_error_type_at rx_error_type
ewouldblock_ignored from_server st = refl
ewouldblock_ignored from_client sock_null = refl
ewouldblock_ignored from_client sock_error = refl
ewouldblock_ignored from_client sock_disconnected = refl
ewouldblock_ignored from_client sock_connecting = refl
ewouldblock_ignored from_client sock_connected = refl

-- the message `p` is under reception, with the bytes `raw` read behind its length
abbrev pub Midway :
    {N : Type 0} → System N → (N → Bytes) → Io N → Packet → List Packet → (raw : Bytes) → Type 0
Midway sys unread io p ps raw =
    (io.sock.rx_msg ≡ some (record { lenght = 8 + length p.l1_body; raw = raw }))
    × (io.sock.rx_lenght ≡ 4 + length raw)
    × (raw ++ unread io.net ≡ tail sys.order p ++ frames sys.order ps)
    × (length raw ≤ 4 + length p.l1_body)

-- the messages `ps` are to come, the first of them in part read
abbrev pub Pending : {N : Type 0} → System N → (N → Bytes) → Io N → List Packet → Type 0
Pending sys unread io [] = (io.sock.rx_lenght ≡ 0) × (unread io.net ≡ [])
Pending sys unread io (p ∷ ps) =
    ((io.sock.rx_lenght ≡ 0) × (unread io.net ≡ frames sys.order (p ∷ ps)))
    ⊎ ((raw : Bytes) × Midway sys unread io p ps raw)

abbrev pub left : {N : Type 0} → (N → Bytes) → Io N → ℕ
left unread io = 2 * length (unread io.net) + (if io.sock.rx_lenght == 0 then 0 else 1)

-- messages move from the stream to the queue, and where the loop goes on there is less to do
abbrev pub Advanced :
    {N : Type 0} → System N → (N → Bytes) → Bool → Io N → List Packet → Out N Bool → Type 0
Advanced sys unread arrived io ps (raised e io') = ⊥
Advanced sys unread arrived io ps (ok go io') =
    (done more : List Packet) × (ps ≡ done ++ more)
    × (io'.sock.rx_fifo ≡ io.sock.rx_fifo ++ map delivered done)
    × Pending sys unread io' more
    × (go ≡ true → (io'.sock.rx_state ≡ rx_data) × (left unread io' < left unread io))
    × (go ≡ false → arrived ≡ true → more ≡ [])

module _ {N : Type 0} (sys : System N) (unread : N → Bytes) (arrived : Bool) where
  pub receive_result_ewouldblock :
      (io : Io N) (n' : N)
      → receive_result sys (not_received ewouldblock, n') io
        ≡ ok (not_received ewouldblock) (record io { net = n'; errno = ewouldblock })
  unfolding receive_result receive_refused get_rx_error_type
  receive_result_ewouldblock io n' = rw (ewouldblock_ignored io.sock.from io.sock.sock_state) refl

  stored-Advanced :
      (io : Io N) (p : Packet) (ps : List Packet) (raw : Bytes) (r : RecvResult × N)
      → Fits p
      → io.sock.rx_state ≡ rx_data
      → Midway sys unread io p ps raw
      → length raw < 4 + length p.l1_body
      → Reads sys unread arrived io.net (8 + length p.l1_body - io.sock.rx_lenght) r
      → Advanced sys unread arrived io (p ∷ ps) (
          (receive_result sys r
              >>= stored sys (record { lenght = 8 + length p.l1_body; raw = raw }))
            io)
  unfolding stored is_idle_error
  stored-Advanced io p ps raw (received [], n') fits st m l (a, b, e) = absurd (omega arith)
  stored-Advanced io p ps raw (received (b ∷ bs), n') fits st (m0, m1, m2, m3) l (a, k, e) =
      unfold receive_result in
      let room : ltb msg_size (io.sock.rx_lenght + suc (length bs)) ≡ false = ground arith in
      let read : length (unread io.net) ≡ suc (length bs) + length (unread n') =
        ap length e ∙ length-append (b ∷ bs) (unread n') in
      rw (room) (
        [],
        p ∷ ps,
        refl,
        sym (append_nil io.sock.rx_fifo),
        inr (
          raw ++ b ∷ bs,
          (
            refl,
            omega (arith, m1, length-append raw (b ∷ bs)),
            append_assoc raw (b ∷ bs) (unread n') ∙ ap (λ t. raw ++ t) (sym e) ∙ m2,
            omega (arith, length-append raw (b ∷ bs)),
          ),
        ),
        λ g. (st, ground arith),
        λ g w. absurd (cc (g)),
      )
  stored-Advanced io p ps raw (not_received e, n') fits st (m0, m1, m2, m3) l (k, same, none_left) =
      rw (k) (
        subst (Advanced sys unread arrived io (p ∷ ps))
          (sym (
            bind_ok (receive_result sys (not_received ewouldblock, n')) _ io
              (receive_result_ewouldblock io n')))
          (
            [],
            p ∷ ps,
            refl,
            sym (append_nil io.sock.rx_fifo),
            inr (raw, (m0, m1, ap (λ t. raw ++ t) same ∙ m2, m3)),
            λ g. absurd (cc (g)),
            λ g w. absurd (
                let k = ap length m2 in
                let k1 = length-append raw (unread io.net) in
                let k2 = ap length (none_left w) in
                let k3 = length-append p.l1_body (frames sys.order ps) in omega arith),
          ))

  pub boundary :
      (io : Io N) (ps : List Packet)
      → io.sock.rx_lenght ≡ 0
      → unread io.net ≡ frames sys.order ps
      → Pending sys unread io ps
  boundary io [] z e = (z, e)
  boundary io (p ∷ ps) z e = inl (z, e)

  complete-delivered :
      (p : Packet) (raw : Bytes)
      → IsByteOrder sys.order
      → Fits p
      → raw ≡ tail sys.order p
      → complete sys (record { lenght = 8 + length p.l1_body; raw = raw }) ≡ delivered p
  unfolding complete
  complete-delivered p raw o fits e =
      rw
        (
          e,
          short_of-short_bytes (sys.order.htons p.id)
              (direction_byte p.from ∷ p.notyetused ∷ p.l1_body) (o.htons_bound p.id),
          o.ntohs-htons p.id fits.0,
        )
        refl

  advance_at-Advanced :
      (io : Io N) (p : Packet) (ps : List Packet) (raw : Bytes)
      → IsByteOrder sys.order
      → IsStream sys unread arrived
      → Fits p
      → io.sock.rx_state ≡ rx_data
      → Midway sys unread io p ps raw
      → Advanced sys unread arrived io
          (p ∷ ps)
          (advance_at sys (some (record { lenght = 8 + length p.l1_body; raw = raw })) io)
  unfolding advance_at socket_receive is_positive queued
  advance_at-Advanced io p ps raw o stream fits st (m0, m1, m2, m3) =
      elim (Bool-cases (ltb (length raw) (4 + length p.l1_body))) [
        | inl t ↦
            let more : ltb io.sock.rx_lenght (8 + length p.l1_body) ≡ true = ground arith in
            let small : ltb (8 + length p.l1_body) 2147483648 ≡ true = ground arith in
            rw (more, small)
              (stored-Advanced io p ps raw
                (sys.recv io.net (8 + length p.l1_body - io.sock.rx_lenght) false) fits st
                (m0, m1, m2, m3) (ground arith)
                (stream.read io.net (8 + length p.l1_body - io.sock.rx_lenght) (ground arith)))
        | inr t ↦
            let full : ltb io.sock.rx_lenght (8 + length p.l1_body) ≡ false = ground arith in
            let all : (8 + length p.l1_body == io.sock.rx_lenght) ≡ true = ground arith in
            let small : ltb (8 + length p.l1_body) 2147483648 ≡ true = ground arith in
            let cut =
              append_cancel raw (tail sys.order p) (unread io.net) (frames sys.order ps)
                (ground arith) m2 in
            rw (full, small, all)
              (
                p ∷ [],
                ps,
                refl,
                ap (λ m. io.sock.rx_fifo ++ m ∷ []) (complete-delivered p raw o fits cut.0),
                boundary
                    (record io {
                      sock =
                          queued sys (record { lenght = 8 + length p.l1_body; raw = raw }) io.sock;
                    })
                    ps refl cut.1,
                λ g. (st, ground arith),
                λ g w. absurd (cc (g)),
              )
      ]

  pub recv_advance-Advanced :
      (io : Io N) (p : Packet) (ps : List Packet) (raw : Bytes)
      → IsByteOrder sys.order
      → IsStream sys unread arrived
      → Fits p
      → io.sock.rx_state ≡ rx_data
      → Midway sys unread io p ps raw
      → Advanced sys unread arrived io (p ∷ ps) (recv_advance sys io)
  unfolding recv_advance
  recv_advance-Advanced io p ps raw o stream fits st m =
      subst (λ held. Advanced sys unread arrived io (p ∷ ps) (advance_at sys held io)) (sym m.0)
        (advance_at-Advanced io p ps raw o stream fits st m)
