-- ===== src/Request/File.antt =====
-- ClientServerFileTransferRequest.h and .cpp: the request to send a file, read piece by piece as its
-- messages are built. The files of the system are a parameter.
pub mod Slices
pub mod Messages
pub mod Reads
pub mod Whole
pub mod Misplaced
pub mod Broken
use hex.Base.{
  ℕ, zero, suc, ◌+◌, Bool, true, false, Option, none, some, List, [], ◌∷◌, ◌==◌, ltb, leb,
  if◌then◌else◌, take, length, replicate, ℤ, pos, int32, u32, ltb_ℤ, leb_ℤ,
}
use hex.Protocol.{
  Bytes, L1MessageId, none_id, file_transfer_req, transfer_data_blk, write_at, write_int,
}
use hex.Request.{
  ByteOrder, write_long, write_short, file_transfer_req_header_size, data_transfer_header_size,
  blk_payload_size, Segment,
}

pub data Whence : Type 0 where
  seek_set seek_end : Whence

-- The system, with states in `W` and its objects FILE in `F`. `read` is given the descriptor of the
-- FILE by fileno, and returns `none` for -1; `fclose` tells whether it failed.
pub record FileSystem (W F : Type 0) : Type 0 where
  pub fopen : W → Bytes → Option F × W
  pub fclose : W → F → Bool × W
  pub feof : W → F → Bool
  pub ftell : W → F → ℤ
  pub fseek : W → F → ℤ → Whence → W
  pub read : W → F → ℕ → Option Bytes × W

-- what a function can end with: a result, an exception that is a text, or a failed assertion
pub data FileOut (W A : Type 0) : Type 0 where
  done : A → W → FileOut W A
  thrown : W → FileOut W A
  asserted : W → FileOut W A

abbrev pub then_do : {W A B : Type 0} → (A → W → FileOut W B) → FileOut W A → FileOut W B
then_do k (done a w) = k a w
then_do k (thrown w) = thrown w
then_do k (asserted w) = asserted w

-- `msg` is the body that `msg_ptr` points to
pub record FileTransferRequest (F : Type 0) : Type 0 where
  pub l2_payload_length : ℤ
  pub nb_payload_bytes_sent : ℕ
  pub transfer_id : ℕ
  pub l2_action : ℕ
  pub file : F
  pub file_name : Bytes
  pub msg : Bytes

abbrev pub file_name_length : ℕ
file_name_length = 256

-- sizeof the payload of FileTransferReq
abbrev pub file_payload_size : ℕ
file_payload_size = 7912

-- the offset of file_name in FileTransferReqHeader
abbrev pub file_name_offset : ℕ
file_name_offset = 18

unfoldable pub file_data_to_send : {F : Type 0} → FileTransferRequest F → Bool
file_data_to_send r = ltb_ℤ (pos r.nb_payload_bytes_sent) r.l2_payload_length

-- `memset`, and `copy` of the name without a terminator
unfoldable pub write_file_name : Bytes → Bytes → Bytes
unfolding write_at
write_file_name name buf =
    write_at file_name_offset (take file_name_length name)
      (write_at file_name_offset (replicate file_name_length 32) buf)

unfoldable pub write_file_header : {F : Type 0} → ByteOrder → FileTransferRequest F → Bytes
unfolding write_file_name write_long write_short
write_file_header o r = write_short 16 (o.htons r.l2_action) (
    write_long 8 (o.htonl r.transfer_id)
      (write_long 0 (o.htonl (u32 r.l2_payload_length)) (write_file_name r.file_name r.msg)))

unfoldable pub write_file_blk_header : {F : Type 0} → ByteOrder → FileTransferRequest F → Bytes
unfolding write_long write_int
write_file_blk_header o r =
    write_long 0 (o.htonl r.transfer_id) (write_int 8 (o.htonl r.nb_payload_bytes_sent) r.msg)

-- the request, and the arguments msg_id and length, which are passed by reference
abbrev pub FileBuilt : Type 0 → Type 0
FileBuilt F = FileTransferRequest F × (L1MessageId × ℕ)

-- what buildNextL2Msg does with the bytes `bs` that were read
unfoldable pub first_file_msg :
    {F : Type 0} → ByteOrder → FileTransferRequest F → (bs : Bytes) → FileBuilt F
unfolding write_file_header write_at
first_file_msg o r bs = (
  record r {
    msg = write_at file_transfer_req_header_size bs (write_file_header o r);
    nb_payload_bytes_sent = length bs;
  },
  (file_transfer_req, length bs + file_transfer_req_header_size),
)

unfoldable pub file_data_blk :
    {F : Type 0} → ByteOrder → FileTransferRequest F → (bs : Bytes) → FileBuilt F
unfolding write_file_blk_header write_at
file_data_blk o r bs = (
  record r {
    msg = write_at data_transfer_header_size bs (write_file_blk_header o r);
    nb_payload_bytes_sent = r.nb_payload_bytes_sent + length bs;
  },
  (transfer_data_blk, length bs + data_transfer_header_size),
)

-- the assertion behind both branches
unfoldable pub within_file : {W F : Type 0} → FileBuilt F → W → FileOut W (FileBuilt F)
within_file b w =
    if leb_ℤ (pos b.0.nb_payload_bytes_sent) b.0.l2_payload_length then done b w else asserted w

abbrev pub file_segment : {F : Type 0} → FileBuilt F → Segment
file_segment (r, (id, n)) = record { l1_msg_id = id; nb_bytes = n; body = r.msg }

abbrev pub file_consed :
    {W : Type 0} → Segment → Option (FileOut W (List Segment)) → Option (FileOut W (List Segment))
file_consed s none = none
file_consed s (some out) = some (then_do (λ ss w. done (s ∷ ss) w) out)

abbrev pub continue_file :
    {W F : Type 0}
    → (FileTransferRequest F → W → Option (FileOut W (List Segment)))
    → FileOut W (FileBuilt F)
    → Option (FileOut W (List Segment))
continue_file rest (done b w) = file_consed (file_segment b) (rest b.0 w)
continue_file rest (thrown w) = some (thrown w)
continue_file rest (asserted w) = some (asserted w)

module _ {W F : Type 0} (fs : FileSystem W F) where
  unfoldable pub eof : F → W → Bool
  eof f w = fs.feof w f

  unfoldable pub rewind : F → W → W
  rewind f w = fs.fseek w f (pos 0) seek_set

  unfoldable pub file_size : F → W → ℤ × W
  file_size f w =
      let w1 = fs.fseek w f (pos 0) seek_end in
      (int32 (fs.ftell w1 f), fs.fseek w1 f (int32 (fs.ftell w f)) seek_set)

  read_result : Option Bytes × W → FileOut W Bytes
  read_result (none, w) = thrown w
  read_result (some bs, w) = done bs w

  unfoldable pub file_read_data : F → (nb_bytes : ℕ) → W → FileOut W Bytes
  unfolding read_result
  file_read_data f n w = read_result (fs.read w f n)

  with_file :
      (name : Bytes) (transfer_id : ℕ) (msg : Bytes)
      → Option F × W
      → FileOut W (FileTransferRequest F)
  unfolding file_size
  with_file name id msg (none, w) = thrown w
  with_file name id msg (some f, w) =
      let (size, w') = file_size f w in
      done
        (record {
          l2_payload_length = size;
          nb_payload_bytes_sent = 0;
          transfer_id = id;
          l2_action = 0;
          file = f;
          file_name = name;
          msg = msg;
        })
        w'

  -- The constructor. It hands 0 on to that of the base class in place of its own argument l2_action,
  -- and does not initialise transfer_id and the new body, which have the values given here.
  unfoldable pub file_transfer_request :
      (name : Bytes) (l2_action transfer_id : ℕ) (msg : Bytes)
      → W
      → FileOut W (FileTransferRequest F)
  unfolding with_file
  file_transfer_request name action id msg w = with_file name id msg (fs.fopen w name)

  closed : Bool × W → FileOut W (Unit {0})
  closed (true, w) = thrown w
  closed (false, w) = done tt w

  -- the destructor
  unfoldable pub close_file : FileTransferRequest F → W → FileOut W (Unit {0})
  unfolding closed
  close_file r w = closed (fs.fclose w r.file)

  -- buildNextL2Msg, with `out` the arguments msg_id and length
  unfoldable pub build_next_file_msg :
      ByteOrder → FileTransferRequest F → (out : L1MessageId × ℕ) → W → FileOut W (FileBuilt F)
  unfolding file_data_to_send file_read_data first_file_msg file_data_blk within_file
  build_next_file_msg o r out w =
      if file_data_to_send r
      then (if r.nb_payload_bytes_sent == 0
          then then_do (λ bs. within_file (first_file_msg o r bs))
              (file_read_data r.file file_payload_size w)
          else then_do (λ bs. within_file (file_data_blk o r bs))
              (file_read_data r.file blk_payload_size w))
      else done (r, out) w

  -- The messages that a sending loop gets out of the request while it has data to send; `none`
  -- where the fuel runs out.
  unfoldable pub file_segments :
      ByteOrder → ℕ → FileTransferRequest F → W → Option (FileOut W (List Segment))
  file_segments o zero r w = none
  file_segments o (suc fuel) r w =
      if file_data_to_send r
      then continue_file (file_segments o fuel) (build_next_file_msg o r (none_id, 0) w)
      else some (done [] w)
