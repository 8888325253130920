-- ===== src/Request/File/Messages.antt =====
-- What a receiver reads in the messages of a file transfer (ClientServerFileTransferRequest.cpp):
-- the file that the first one announces, and the position and the bytes that each one carries.
use hex.Base.{
  ℕ, ◌+◌, ◌-◌, ◌≤◌, ◌<◌, ◌≡◌, ap, ◌∙◌, Option, none, some, List, [], ◌∷◌, ◌++◌, arith, length, take,
  replicate, length-take, if◌then◌else◌, ◌==◌, u32, u32_bound,
}
use hex.Protocol.{Bytes, L1MessageId, file_transfer_req, transfer_data_blk, read_int, write_int}
use hex.Request.{
  ByteOrder, IsByteOrder, Segment, file_transfer_req_header_size, data_transfer_header_size,
  write_long,
}
use hex.Request.Bodies.{
  length-write_at, read-write_at, length-write_int, length-write_long, length-write_short,
}
use hex.Request.File.{
  FileTransferRequest, file_name_length, file_name_offset, file_payload_size, write_file_name,
  write_file_header, write_file_blk_header, first_file_msg, file_data_blk, file_segment,
}
use hex.Request.File.Slices.{
  slice, slice_below, slice_below-short, slice_above-short, slice_below-long, slice_above-long,
  read_int-eq_of_slice, read_int-write_int, read_int-write_long, slice-over,
}

-- the payload of a message, told by its identifier and its length
abbrev file_payload_at : L1MessageId → (nb_bytes : ℕ) → Bytes → Bytes
file_payload_at file_transfer_req n body =
    slice file_transfer_req_header_size (n - file_transfer_req_header_size) body
file_payload_at transfer_data_blk n body =
    slice data_transfer_header_size (n - data_transfer_header_size) body
file_payload_at _ n body = []

abbrev pub file_payload : Segment → Bytes
file_payload s = file_payload_at s.l1_msg_id s.nb_bytes s.body

-- where the payload stands in the file
abbrev file_position_at : ByteOrder → L1MessageId → Bytes → ℕ
file_position_at o transfer_data_blk body = o.ntohl (read_int 8 body)
file_position_at o _ body = 0

abbrev pub file_position : ByteOrder → Segment → ℕ
file_position o s = file_position_at o s.l1_msg_id s.body

-- What a receiver that puts each payload behind the earlier ones gets, `none` where a payload does
-- not stand where the earlier ones end.
abbrev pub rebuilt : ByteOrder → (so_far : Bytes) → List Segment → Option Bytes
rebuilt o acc [] = some acc
rebuilt o acc (s ∷ ss) =
    let rest = rebuilt o (acc ++ file_payload s) ss in
    if file_position o s == length acc then rest else none

-- the size and the name in the header of a first message
abbrev pub announced : ByteOrder → Segment → ℕ × Bytes
announced o s = (o.ntohl (read_int 0 s.body), slice file_name_offset file_name_length s.body)

-- the name as it stands in the header: the first 256 bytes of it, filled up with spaces
abbrev pub padded : Bytes → Bytes
padded name =
    take file_name_length name
    ++ replicate (file_name_length - length (take file_name_length name)) 32

module _ {F : Type 0} (o : ByteOrder) (order : IsByteOrder o) (r : FileTransferRequest F)
    (room : length r.msg ≡ 8192) (bs : Bytes) where
  named : Bytes
  named = write_file_name r.file_name r.msg

  length-named : length named ≡ 8192
  unfolding named write_file_name
  length-named =
      length-write_at file_name_offset (take file_name_length r.file_name) _
      ∙ length-write_at file_name_offset (replicate file_name_length 32) r.msg
      ∙ room

  sized : Bytes
  sized = write_long 0 (o.htonl (u32 r.l2_payload_length)) named

  length-sized : length sized ≡ 8192
  unfolding sized
  length-sized = length-write_long 0 (o.htonl (u32 r.l2_payload_length)) named ∙ length-named

  length-header : length (write_file_header o r) ≡ 8192
  unfolding write_file_header sized named
  length-header =
      length-write_short 16 (o.htons r.l2_action) _
      ∙ length-write_long 8 (o.htonl r.transfer_id) _
      ∙ length-sized

  pub first_file_msg-room : length (first_file_msg o r bs).0.msg ≡ 8192
  unfolding first_file_msg
  first_file_msg-room =
      length-write_at file_transfer_req_header_size bs (write_file_header o r) ∙ length-header

  pub first_file_msg-payload :
      length bs ≤ file_payload_size → file_payload (file_segment (first_file_msg o r bs)) ≡ bs
  unfolding first_file_msg
  first_file_msg-payload l =
      let e : length bs + file_transfer_req_header_size - file_transfer_req_header_size
          ≡ length bs =
        omega arith in
      rw e (
        read-write_at file_transfer_req_header_size bs (write_file_header o r)
          (omega (arith, length-header)))

  -- a slice before the payload, and out of the way of the identifier and the action
  low_slice : (k n : ℕ) → k + n ≤ 8 → slice k n (first_file_msg o r bs).0.msg ≡ slice k n sized
  unfolding first_file_msg write_file_header sized named
  low_slice k n l =
      slice_below k n file_transfer_req_header_size bs (write_file_header o r) (omega arith)
      ∙ slice_below-short k n 16 (o.htons r.l2_action) (write_long 8 (o.htonl r.transfer_id) sized)
          (omega arith)
      ∙ slice_below-long k n 8 (o.htonl r.transfer_id) sized l

  name_slice :
      slice file_name_offset file_name_length (first_file_msg o r bs).0.msg
      ≡ slice file_name_offset file_name_length named
  unfolding first_file_msg write_file_header sized named
  name_slice =
      slice_below 18 256 file_transfer_req_header_size bs (write_file_header o r) (omega arith)
      ∙ slice_above-short 18 256 16 (o.htons r.l2_action)
          (write_long 8 (o.htonl r.transfer_id) sized) (omega arith)
      ∙ slice_above-long 18 256 8 (o.htonl r.transfer_id) sized (omega arith)
      ∙ slice_above-long 18 256 0 (o.htonl (u32 r.l2_payload_length)) named (omega arith)

  named-padded : slice file_name_offset file_name_length named ≡ padded r.file_name
  unfolding named write_file_name
  named-padded =
      slice-over 18 256 32 (take file_name_length r.file_name) r.msg
        (omega (arith, length-take 256 r.file_name)) (omega (arith, room))

  pub first_file_msg-announced :
      announced o (file_segment (first_file_msg o r bs))
      ≡ (u32 r.l2_payload_length, padded r.file_name)
  unfolding sized
  first_file_msg-announced =
      let size : read_int 0 (first_file_msg o r bs).0.msg ≡ o.htonl (u32 r.l2_payload_length) =
        read_int-eq_of_slice 0 (first_file_msg o r bs).0.msg sized (low_slice 0 4 (omega arith))
        ∙ read_int-write_long 0 (o.htonl (u32 r.l2_payload_length)) named
            (omega (arith, length-named)) (order.htonl_bound (u32 r.l2_payload_length)) in
      let number : o.ntohl (read_int 0 (first_file_msg o r bs).0.msg) ≡ u32 r.l2_payload_length =
        ap o.ntohl size
        ∙ order.ntohl-htonl (u32 r.l2_payload_length) (u32_bound r.l2_payload_length) in
      let name : slice file_name_offset file_name_length (first_file_msg o r bs).0.msg
          ≡ padded r.file_name =
        name_slice ∙ named-padded in
      λ i. (number i, name i)

  positioned : Bytes
  positioned = write_int 8 (o.htonl r.nb_payload_bytes_sent) r.msg

  length-positioned : length positioned ≡ 8192
  unfolding positioned
  length-positioned = length-write_int 8 (o.htonl r.nb_payload_bytes_sent) r.msg ∙ room

  length-blk_header : length (write_file_blk_header o r) ≡ 8192
  unfolding write_file_blk_header positioned
  length-blk_header = length-write_long 0 (o.htonl r.transfer_id) positioned ∙ length-positioned

  pub file_data_blk-room : length (file_data_blk o r bs).0.msg ≡ 8192
  unfolding file_data_blk
  file_data_blk-room =
      length-write_at data_transfer_header_size bs (write_file_blk_header o r) ∙ length-blk_header

  pub file_data_blk-payload :
      length bs ≤ 8176 → file_payload (file_segment (file_data_blk o r bs)) ≡ bs
  unfolding file_data_blk
  file_data_blk-payload l =
      let e : length bs + data_transfer_header_size - data_transfer_header_size ≡ length bs =
        omega arith in
      rw e (
        read-write_at data_transfer_header_size bs (write_file_blk_header o r)
          (omega (arith, length-blk_header)))

  position_slice : slice 8 4 (file_data_blk o r bs).0.msg ≡ slice 8 4 positioned
  unfolding file_data_blk write_file_blk_header positioned
  position_slice =
      slice_below 8 4 data_transfer_header_size bs (write_file_blk_header o r) (omega arith)
      ∙ slice_above-long 8 4 0 (o.htonl r.transfer_id) positioned (omega arith)

  pub file_data_blk-position :
      r.nb_payload_bytes_sent < 4294967296
      → file_position o (file_segment (file_data_blk o r bs)) ≡ r.nb_payload_bytes_sent
  unfolding file_data_blk positioned
  file_data_blk-position l =
      ap o.ntohl (
        read_int-eq_of_slice 8 (file_data_blk o r bs).0.msg positioned position_slice
        ∙ read_int-write_int 8 (o.htonl r.nb_payload_bytes_sent) r.msg (omega (arith, room))
            (order.htonl_bound r.nb_payload_bytes_sent))
      ∙ order.ntohl-htonl r.nb_payload_bytes_sent l
