-- ===== src/Request/File/Reads.antt =====
-- The messages of a transfer (ClientServerFileTransferRequest.cpp), of a file that nobody changes
-- while it is sent.
use hex.Base.{
  ℤ, int32, int32_pos, ℕ, suc, ◌+◌, ◌≤◌, ◌<◌, ◌≡◌, ap, ◌∙◌, true, false, some, [], arith, length,
  take, drop, length-take, length-drop, ◌==◌, pos,
}
use hex.Protocol.{Bytes, none_id}
use hex.Request.{ByteOrder, IsByteOrder, blk_payload_size}
use hex.Request.File.{
  file_size, file_transfer_request, with_file, FileSystem, FileTransferRequest, FileBuilt, done,
  then_do, seek_set, seek_end, file_payload_size, first_file_msg, file_data_blk,
  build_next_file_msg, file_read_data, read_result, file_segment, file_segments, file_consed,
  continue_file, file_data_to_send, within_file,
}
use hex.Request.File.Messages.{first_file_msg-room, file_data_blk-room}

-- a read returns some of the bytes from the descriptor's offset on, at least one where there is one
pub record Reading {W F : Type 0} (fs : FileSystem W F) (f : F) (contents : Bytes) (offset : W → ℕ)
    (w : W) (n : ℕ) : Type 0 where
  pub amount : ℕ
  pub state : W
  pub returned : fs.read w f n ≡ (some (take amount (drop (offset w) contents)), state)
  pub some_byte : offset w < length contents → 0 < amount
  pub fits : amount ≤ n
  pub within : offset w + amount ≤ length contents
  pub advanced : offset state ≡ offset w + amount

-- `f` is a regular file that holds `contents`, with `stream` the position of the FILE, which ftell
-- and fseek are about, and `offset` that of its descriptor, which read is about; where fseek leaves
-- the latter is not told.
pub record IsFile {W F : Type 0} (fs : FileSystem W F) (f : F) (contents : Bytes)
    (stream offset : W → ℕ) : Type 0 where
  pub tell : (w : W) → fs.ftell w f ≡ pos (stream w)
  pub seek_start : (w : W) (n : ℕ) → stream (fs.fseek w f (pos n) seek_set) ≡ n
  pub seek_last : (w : W) → stream (fs.fseek w f (pos 0) seek_end) ≡ length contents
  pub reading :
      (w : W) (n : ℕ) → 0 < n → offset w ≤ length contents → Reading fs f contents offset w n

-- the state once the constructor has taken the size
abbrev pub measured : {W F : Type 0} → FileSystem W F → F → W → W
measured fs f w = fs.fseek (fs.fseek w f (pos 0) seek_end) f (pos 0) seek_set

module _ {W F : Type 0} (fs : FileSystem W F) (o : ByteOrder) (order : IsByteOrder o) (f : F)
    (contents : Bytes) (stream offset : W → ℕ) (law : IsFile fs f contents stream offset)
    (small : length contents < 2147483648) (start : ℕ) where
  -- between two messages: what has been sent was read from the offset `start` on
  pub record Midway (r : FileTransferRequest F) (w : W) : Type 0 where
    pub size : r.l2_payload_length ≡ pos (length contents)
    pub same_file : r.file ≡ f
    pub room : length r.msg ≡ 8192
    pub position : offset w ≡ start + r.nb_payload_bytes_sent
    pub not_beyond : start + r.nb_payload_bytes_sent ≤ length contents

  -- the bytes that a read of `n` returns
  abbrev pub got : (w : W) (n : ℕ) → Reading fs f contents offset w n → Bytes
  got w n t = take t.amount (drop (offset w) contents)

  pub length-got :
      (w : W) (n : ℕ) (t : Reading fs f contents offset w n) → length (got w n t) ≡ t.amount
  length-got w n t =
      let k = length-take t.amount (drop (offset w) contents) in
      let m = length-drop (offset w) contents in let b = t.within in ground arith

  file_read_data-got :
      (g : F) (w : W) (n : ℕ) (t : Reading fs f contents offset w n)
      → g ≡ f
      → file_read_data fs g n w ≡ done (got w n t) t.state
  unfolding file_read_data read_result
  file_read_data-got g w n t e =
      ap (λ h. read_result fs (fs.read w h n)) e ∙ ap (read_result fs) t.returned

  pub file_segments-stop :
      (fuel : ℕ) (r : FileTransferRequest F) (w : W)
      → r.l2_payload_length ≡ pos (length contents)
      → length contents ≤ r.nb_payload_bytes_sent
      → file_segments fs o (suc fuel) r w ≡ some (done [] w)
  unfolding file_segments file_data_to_send
  file_segments-stop fuel r w e l = ground arith

  pub data_left :
      (r : FileTransferRequest F)
      → r.l2_payload_length ≡ pos (length contents)
      → r.nb_payload_bytes_sent < length contents
      → file_data_to_send r ≡ true
  unfolding file_data_to_send
  data_left r e l = ground arith

  within_file-done :
      (b : FileBuilt F) (w : W)
      → b.0.l2_payload_length ≡ pos (length contents)
      → b.0.nb_payload_bytes_sent ≤ length contents
      → within_file b w ≡ done b w
  unfolding within_file
  within_file-done b w e l = ground arith

  pub file_segments-step :
      (fuel : ℕ) (r : FileTransferRequest F) (w : W) (b : FileBuilt F) (w' : W)
      → file_data_to_send r ≡ true
      → build_next_file_msg fs o r (none_id, 0) w ≡ done b w'
      → file_segments fs o (suc fuel) r w
        ≡ file_consed (file_segment b) (file_segments fs o fuel b.0 w')
  unfolding file_segments
  file_segments-step fuel r w b w' more e =
      rw (more) (ap (continue_file (file_segments fs o fuel)) e)

  module _ (r : FileTransferRequest F) (w : W) (mid : Midway r w) where
    pub blk_built :
        (t : Reading fs f contents offset w blk_payload_size)
        → 0 < r.nb_payload_bytes_sent
        → r.nb_payload_bytes_sent < length contents
        → build_next_file_msg fs o r (none_id, 0) w
          ≡ done (file_data_blk o r (got w blk_payload_size t)) t.state
    unfolding build_next_file_msg file_data_blk
    blk_built t p l =
        let later : (r.nb_payload_bytes_sent == 0) ≡ false = ground arith in
        rw (data_left r mid.size l, later)
          (ap (then_do (λ bs. within_file (file_data_blk o r bs)))
              (file_read_data-got r.file w blk_payload_size t mid.same_file)
            ∙ within_file-done (file_data_blk o r (got w blk_payload_size t)) t.state mid.size
                (omega (arith, length-got w blk_payload_size t, t.within, mid.position)))

    pub first_built :
        (t : Reading fs f contents offset w file_payload_size)
        → r.nb_payload_bytes_sent ≡ 0
        → 0 < length contents
        → build_next_file_msg fs o r (none_id, 0) w
          ≡ done (first_file_msg o r (got w file_payload_size t)) t.state
    unfolding build_next_file_msg first_file_msg
    first_built t z l =
        let first : (r.nb_payload_bytes_sent == 0) ≡ true = ground arith in
        rw (data_left r mid.size (omega arith), first)
          (ap (then_do (λ bs. within_file (first_file_msg o r bs)))
              (file_read_data-got r.file w file_payload_size t mid.same_file)
            ∙ within_file-done (first_file_msg o r (got w file_payload_size t)) t.state mid.size
                (omega (arith, length-got w file_payload_size t, t.within)))

    pub blk-Midway :
        (t : Reading fs f contents offset w blk_payload_size)
        → Midway (file_data_blk o r (got w blk_payload_size t)).0 t.state
    unfolding file_data_blk
    blk-Midway t = record {
      size = mid.size;
      same_file = mid.same_file;
      room = file_data_blk-room o order r mid.room (got w blk_payload_size t);
      position = omega (arith, length-got w blk_payload_size t, t.advanced, mid.position);
      not_beyond = omega (arith, length-got w blk_payload_size t, t.within, mid.position);
    }

    pub first-Midway :
        (t : Reading fs f contents offset w file_payload_size)
        → r.nb_payload_bytes_sent ≡ 0
        → Midway (first_file_msg o r (got w file_payload_size t)).0 t.state
    unfolding first_file_msg
    first-Midway t z = record {
      size = mid.size;
      same_file = mid.same_file;
      room = first_file_msg-room o order r mid.room (got w file_payload_size t);
      position = omega (arith, length-got w file_payload_size t, t.advanced, mid.position);
      not_beyond = omega (arith, length-got w file_payload_size t, t.within);
    }

  -- what the constructor makes of the file
  abbrev pub new_request : Bytes → (transfer_id : ℕ) → Bytes → FileTransferRequest F
  new_request name id msg = record {
    l2_payload_length = pos (length contents);
    nb_payload_bytes_sent = 0;
    transfer_id = id;
    l2_action = 0;
    file = f;
    file_name = name;
    msg = msg;
  }

  abbrev sized_by : Bytes → (transfer_id : ℕ) → Bytes → ℤ → FileTransferRequest F
  sized_by name id msg z = record (new_request name id msg) { l2_payload_length = z }

  file_size_whole :
      (w : W) → stream w ≡ 0 → file_size fs f w ≡ (pos (length contents), measured fs f w)
  unfolding file_size
  file_size_whole w z =
      let end_of = fs.fseek w f (pos 0) seek_end in
      let size : int32 (fs.ftell end_of f) ≡ pos (length contents) =
        ap int32 (law.tell end_of ∙ ap pos (law.seek_last w)) ∙ int32_pos (length contents) small in
      let back : int32 (fs.ftell w f) ≡ pos 0 = ap int32 (law.tell w ∙ ap pos z) in
      λ i. (size i, fs.fseek end_of f (back i) seek_set)

  pub constructed :
      (w w1 : W) (name : Bytes) (action id : ℕ) (msg : Bytes)
      → fs.fopen w name ≡ (some f, w1)
      → stream w1 ≡ 0
      → file_transfer_request fs name action id msg w
        ≡ done (new_request name id msg) (measured fs f w1)
  unfolding file_transfer_request with_file
  constructed w w1 name action id msg found z =
      ap (with_file fs name id msg) found
      ∙ ap (λ (p : ℤ × W). done (sized_by name id msg p.0) p.1) (file_size_whole w1 z)
