-- ===== src/Request.antt =====
-- ClientServerFileTransferRequest.h and .cpp, ClientServerRequest.h and .cpp: the request to send a
-- buffer of any length (ClientServerMsgTransferRequest), cut into messages by buildNextL2Msg.
pub mod Any
pub mod Bodies
pub mod File
pub mod Segments
mod Tests
use hex.Base.{
  ℕ, zero, suc, ◌+◌, ◌-◌, ◌/◌, ◌%◌, Bool, Option, none, some, List, [], ◌∷◌, ◌==◌, ltb, leb, ◌<◌,
  ◌≡◌, if◌then◌else◌, take, drop,
}
use hex.Protocol.{
  Bytes, L1MessageId, none_id, data_transfer_req, transfer_data_blk, write_at, write_int,
  max_l1_msg_body_size,
}

-- htonl, htons, ntohl and ntohs of the system
pub record ByteOrder : Type 0 where
  pub htonl : ℕ → ℕ
  pub htons : ℕ → ℕ
  pub ntohl : ℕ → ℕ
  pub ntohs : ℕ → ℕ

-- the byte order of the network, on 32 and on 16 bits
pub record IsByteOrder (o : ByteOrder) : Type 0 where
  pub htonl_bound : (v : ℕ) → o.htonl v < 4294967296
  pub htons_bound : (v : ℕ) → o.htons v < 65536
  pub ntohl-htonl : (v : ℕ) → v < 4294967296 → o.ntohl (o.htonl v) ≡ v
  pub ntohs-htons : (v : ℕ) → v < 65536 → o.ntohs (o.htons v) ≡ v

-- `msg` is the body that `msg_ptr` points to, the same for all messages of the transfer
pub record TransferRequest : Type 0 where
  pub l2_payload_length : ℕ
  pub nb_payload_bytes_sent : ℕ
  pub transfer_id : ℕ
  pub l2_action : ℕ
  pub source_buffer : Bytes
  pub msg : Bytes

-- sizeof of the three headers: long and size_t have 8 bytes and are aligned to 8
abbrev pub file_transfer_req_header_size : ℕ
file_transfer_req_header_size = 280

abbrev pub data_transfer_req_header_size : ℕ
data_transfer_req_header_size = 24

abbrev pub data_transfer_header_size : ℕ
data_transfer_header_size = 16

-- sizeof of the payloads of DataTransferReq and DataTransferBlk
abbrev pub req_payload_size : ℕ
req_payload_size = 8168

abbrev pub blk_payload_size : ℕ
blk_payload_size = 8176

-- a `long` or `size_t` that is given an unsigned 32-bit value
unfoldable pub write_long : (off value : ℕ) → Bytes → Bytes
unfolding write_int
write_long off v buf = write_int (off + 4) 0 (write_int off v buf)

unfoldable pub write_short : (off value : ℕ) → Bytes → Bytes
unfolding write_at
write_short off v buf = write_at off (v % 256 ∷ v / 256 % 256 ∷ []) buf

unfoldable pub some_data_to_send : TransferRequest → Bool
some_data_to_send r = ltb r.nb_payload_bytes_sent r.l2_payload_length

-- `nb`, the rest to send or the size of the payload where the rest is longer
unfoldable pub portion : (size : ℕ) → TransferRequest → ℕ
portion size r =
    let nb = r.l2_payload_length - r.nb_payload_bytes_sent in if ltb size nb then size else nb

-- the buffer with the header of the first message, and of a later one
unfoldable pub write_req_header : ByteOrder → TransferRequest → Bytes
unfolding write_long write_short
write_req_header o r =
    write_short 16 (o.htons r.l2_action)
      (write_long 0 (o.htonl r.transfer_id) (write_long 8 (o.htonl r.l2_payload_length) r.msg))

unfoldable pub write_blk_header : ByteOrder → TransferRequest → Bytes
unfolding write_long write_int
write_blk_header o r =
    write_long 0 (o.htonl r.transfer_id) (write_int 8 (o.htonl r.nb_payload_bytes_sent) r.msg)

-- the branches of buildNextL2Msg: the request, the identifier and the length
unfoldable pub first_msg : ByteOrder → TransferRequest → TransferRequest × (L1MessageId × ℕ)
unfolding portion write_req_header write_at
first_msg o r =
    let nb = portion req_payload_size r in
    (
      record r {
        msg =
            write_at data_transfer_req_header_size (take nb r.source_buffer) (write_req_header o r);
        nb_payload_bytes_sent = nb;
      },
      (data_transfer_req, nb + file_transfer_req_header_size),
    )

unfoldable pub data_blk : ByteOrder → TransferRequest → TransferRequest × (L1MessageId × ℕ)
unfolding portion write_blk_header write_at
data_blk o r =
    let nb = portion blk_payload_size r in
    (
      record r {
        msg =
            write_at data_transfer_header_size
              (take nb (drop r.nb_payload_bytes_sent r.source_buffer)) (write_blk_header o r);
        nb_payload_bytes_sent = r.nb_payload_bytes_sent + nb;
      },
      (transfer_data_blk, nb + data_transfer_header_size),
    )

-- buildNextL2Msg: `out` holds the arguments msg_id and length, which are passed by reference;
-- `none` is the failed assertion
unfoldable pub build_next_l2_msg :
    ByteOrder
    → TransferRequest
    → (out : L1MessageId × ℕ) → Option (TransferRequest × (L1MessageId × ℕ))
unfolding some_data_to_send first_msg data_blk
build_next_l2_msg o r out =
    let built = if r.nb_payload_bytes_sent == 0 then first_msg o r else data_blk o r in
    if some_data_to_send r
    then (if leb built.0.nb_payload_bytes_sent built.0.l2_payload_length then some built else none)
    else some (r, out)

-- one message as it goes out
pub record Segment : Type 0 where
  pub l1_msg_id : L1MessageId
  pub nb_bytes : ℕ
  pub body : Bytes

abbrev pub segment : TransferRequest × (L1MessageId × ℕ) → Segment
segment (r, (id, n)) = record { l1_msg_id = id; nb_bytes = n; body = r.msg }

abbrev pub consed : Segment → Option (List Segment) → Option (List Segment)
consed s none = none
consed s (some ss) = some (s ∷ ss)

-- the messages that the sending loop gets out of a request while it has data to send, on fuel
unfoldable pub segments : ByteOrder → ℕ → TransferRequest → Option (List Segment)
segments o zero r = none
segments o (suc fuel) r =
    if some_data_to_send r
    then (elim (build_next_l2_msg o r (none_id, 0)) [
      | none ↦ none
      | some built ↦ consed (segment built) (segments o fuel built.0)
    ])
    else some []
