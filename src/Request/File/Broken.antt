-- ===== src/Request/File/Broken.antt =====
-- Transfers that do not bring a file over (ClientServerFileTransferRequest.cpp): a file that has
-- been cut, and one that is too large.
use hex.Base.{
  ℕ, zero, suc, ◌-◌, ◌≤◌, ◌<◌, ◌≡◌, refl, ap, ◌∙◌, true, none, some, inl, inr, [], arith, ◌==◌,
  Bool-cases, pos, negsuc, int32,
}
use hex.Protocol.{Bytes, none_id}
use hex.Request.{ByteOrder, blk_payload_size}
use hex.Request.File.{
  FileSystem, FileTransferRequest, done, then_do, seek_set, seek_end, file_payload_size,
  first_file_msg, file_data_blk, build_next_file_msg, file_read_data, read_result, FileBuilt,
  file_segment, file_segments, file_consed, continue_file, file_size, with_file,
  file_transfer_request, file_data_to_send, within_file,
}

module _ {W F : Type 0} (fs : FileSystem W F) (o : ByteOrder) (f : F) where
  -- reads at the end of a file: no byte is returned, and the position stays there
  pub record AtEnd (ended : W → Type 0) : Type 0 where
    pub nothing : (w : W) (n : ℕ) → ended w → (w' : W) × (fs.read w f n ≡ (some [], w')) × ended w'

  module _ (ended : W → Type 0) (law : AtEnd ended) where
    read_nothing :
        (w : W) (n : ℕ) → ended w → (w' : W) × (file_read_data fs f n w ≡ done [] w') × ended w'
    unfolding file_read_data read_result
    read_nothing w n h = let (w', e, h') = law.nothing w n h in (w', ap (read_result fs) e, h')

    allowed : (b : FileBuilt F) (w : W) → file_data_to_send b.0 ≡ true → within_file b w ≡ done b w
    unfolding file_data_to_send within_file
    allowed b w more = ground arith

    -- a message with no payload, behind which as much is left as before
    stuck_step :
        (r : FileTransferRequest F) (w : W)
        → r.file ≡ f
        → file_data_to_send r ≡ true
        → ended w
        → (b : FileBuilt F) × (w' : W) × (build_next_file_msg fs o r (none_id, 0) w ≡ done b w')
          × ended w'
          × (b.0.file ≡ f)
          × (file_data_to_send b.0 ≡ true)
    unfolding build_next_file_msg
    stuck_step r w same more h = elim (Bool-cases (r.nb_payload_bytes_sent == 0)) [
      | inl z ↦
          let (w', e, h') = read_nothing w file_payload_size h in
          let b = first_file_msg o r [] in
          let left : file_data_to_send b.0 ≡ true =
            unfold file_data_to_send first_file_msg in ground arith in
          let e' = ap (λ g. file_read_data fs g file_payload_size w) same ∙ e in
          (
            b,
            w',
            rw (more, z)
                (ap (then_do (λ bs. within_file (first_file_msg o r bs))) e' ∙ allowed b w' left),
            h',
            unfold first_file_msg in same,
            left,
          )
      | inr nz ↦
          let (w', e, h') = read_nothing w blk_payload_size h in
          let b = file_data_blk o r [] in
          let left : file_data_to_send b.0 ≡ true =
            unfold file_data_to_send file_data_blk in ground arith in
          let e' = ap (λ g. file_read_data fs g blk_payload_size w) same ∙ e in
          (
            b,
            w',
            rw (more, nz)
                (ap (then_do (λ bs. within_file (file_data_blk o r bs))) e' ∙ allowed b w' left),
            h',
            unfold file_data_blk in same,
            left,
          )
    ]

    -- Where every further read of the file returns no byte, as from a file that has been cut, and
    -- bytes of the length taken by the constructor are missing, the messages do not end within any
    -- fuel.
    pub file_segments_endless :
        (fuel : ℕ) (r : FileTransferRequest F) (w : W)
        → r.file ≡ f
        → file_data_to_send r ≡ true
        → ended w
        → file_segments fs o fuel r w ≡ none
    unfolding file_segments
    file_segments_endless zero r w same more h = refl
    file_segments_endless (suc fuel) r w same more h =
        let (b, w', e, h', same', more') = stuck_step r w same more h in
        rw (more) (
          ap (continue_file (file_segments fs o fuel)) e
          ∙ ap (file_consed (file_segment b)) (file_segments_endless fuel b.0 w' same' more' h'))

-- a file of a size, which ftell tells at its end
pub record IsSized {W F : Type 0} (fs : FileSystem W F) (f : F) (size : ℕ) : Type 0 where
  pub size_told : (w : W) → fs.ftell (fs.fseek w f (pos 0) seek_end) f ≡ pos size

module _ {W F : Type 0} (fs : FileSystem W F) (o : ByteOrder) (f : F) where
  negative :
      (size : ℕ)
      → 2147483648 ≤ size
      → size < 4294967296
      → int32 (pos size) ≡ negsuc (4294967295 - size)
  negative size l b = ground arith

  -- A file of 2^31 bytes or more, and less than 2^32, is with_file with no exception, and then nothing
  -- of it is sent.
  pub file_segments_large :
      (w w1 : W) (name : Bytes) (action id fuel size : ℕ) (msg : Bytes)
      → IsSized fs f size
      → fs.fopen w name ≡ (some f, w1)
      → 2147483648 ≤ size
      → size < 4294967296
      → (r : FileTransferRequest F) × (w2 : W) × (file_transfer_request fs name action id msg w
          ≡ done r w2)
        × (file_segments fs o (suc fuel) r w2 ≡ some (done [] w2))
  unfolding file_transfer_request with_file file_size file_segments file_data_to_send
  file_segments_large w w1 name action id fuel size msg law found l b =
      let at_end = fs.fseek w1 f (pos 0) seek_end in
      let w2 = fs.fseek at_end f (int32 (fs.ftell w1 f)) seek_set in
      let taken : int32 (fs.ftell at_end f) ≡ negsuc (4294967295 - size) =
        ap int32 (law.size_told w1) ∙ negative size l b in
      (
        record {
          l2_payload_length = negsuc (4294967295 - size);
          nb_payload_bytes_sent = 0;
          transfer_id = id;
          l2_action = 0;
          file = f;
          file_name = name;
          msg = msg;
        },
        w2,
        ap (with_file fs name id msg) found ∙ λ i.
            done
              (record {
                l2_payload_length = taken i;
                nb_payload_bytes_sent = 0;
                transfer_id = id;
                l2_action = 0;
                file = f;
                file_name = name;
                msg = msg;
              })
              w2,
        ground arith,
      )
