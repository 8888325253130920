-- ===== src/Request/File/Misplaced.antt =====
-- A transfer (ClientServerFileTransferRequest.cpp) where fseek, called for the FILE, does not bring its
-- descriptor back to the start of the file.
use hex.Base.{
  ℕ, zero, suc, ◌≤◌, ◌<◌, ◌≡◌, refl, ap, ◌∙◌, none, some, inl, inr, arith, length, ◌==◌, Bool-cases,
}
use hex.Protocol.{Bytes}
use hex.Request.{ByteOrder, IsByteOrder, blk_payload_size}
use hex.Request.File.{
  FileSystem, FileTransferRequest, done, file_payload_size, first_file_msg, file_data_blk,
  file_segment, file_segments, file_consed, file_transfer_request,
}
use hex.Request.File.Reads.{
  IsFile, measured, Midway, got, data_left, file_segments-step, blk_built, first_built, blk-Midway,
  first-Midway, new_request, constructed,
}

module _ {W F : Type 0} (fs : FileSystem W F) (o : ByteOrder) (order : IsByteOrder o) (f : F)
    (contents : Bytes) (stream offset : W → ℕ) (law : IsFile fs f contents stream offset)
    (small : length contents < 2147483648) (start : ℕ) (past : 0 < start) where
  abbrev MidwayFrom : FileTransferRequest F → W → Type 0
  MidwayFrom r w = Midway fs o order f contents stream offset law small start r w

  unfinished :
      (fuel : ℕ) (r : FileTransferRequest F) (w : W)
      → MidwayFrom r w
      → file_segments fs o fuel r w ≡ none
  unfinished zero r w mid = unfold file_segments in refl
  unfinished (suc fuel) r w mid =
      let left : r.nb_payload_bytes_sent < length contents = omega (arith, mid.not_beyond) in
      let more = data_left fs o order f contents stream offset law small start r mid.size left in
      let at : offset w ≤ length contents = omega (arith, mid.position, mid.not_beyond) in
      elim (Bool-cases (r.nb_payload_bytes_sent == 0)) [
        | inl z ↦
            let none_sent : r.nb_payload_bytes_sent ≡ 0 = ground arith in
            let t = law.reading w file_payload_size (omega arith) at in
            let bs =
              got fs o order f contents stream offset law small start w file_payload_size t in
            let b = first_file_msg o r bs in
            file_segments-step fs o order f contents stream offset law small start fuel r w b
              t.state more
              (first_built fs o order f contents stream offset law small start r w mid t none_sent
                (omega arith))
            ∙ ap (file_consed (file_segment b)) (
                unfinished fuel b.0 t.state (
                  first-Midway fs o order f contents stream offset law small start r w mid t
                    none_sent))
        | inr some_sent ↦
            let t = law.reading w blk_payload_size (omega arith) at in
            let bs = got fs o order f contents stream offset law small start w blk_payload_size t in
            let b = file_data_blk o r bs in
            file_segments-step fs o order f contents stream offset law small start fuel r w b
              t.state more
              (blk_built fs o order f contents stream offset law small start r w mid t
                (ground arith) left)
            ∙ ap (file_consed (file_segment b)) (
                unfinished fuel b.0 t.state
                  (blk-Midway fs o order f contents stream offset law small start r w mid t))
      ]

  -- Where the file is there, shorter than 2^31 bytes, nobody changes it, each read returns at least
  -- one byte where there is one, the body has the size of ClientServerMsgBody, and the descriptor
  -- does not stand at the start of the file, but behind it or at its end, once fseek has been called
  -- for the FILE: the constructor makes its request, and the messages of the transfer never come to
  -- an end, whatever fuel they are given, with no exception and no failed assertion.
  pub file_segments-misplaced :
      (w w1 : W) (name : Bytes) (action id fuel : ℕ) (msg : Bytes)
      → fs.fopen w name ≡ (some f, w1)
      → stream w1 ≡ 0
      → offset (measured fs f w1) ≡ start
      → start ≤ length contents
      → length msg ≡ 8192
      → (r : FileTransferRequest F) × (w2 : W) × (file_transfer_request fs name action id msg w
          ≡ done r w2)
        × (file_segments fs o fuel r w2 ≡ none)
  file_segments-misplaced w w1 name action id fuel msg found z at l room =
      let r = new_request fs o order f contents stream offset law small start name id msg in
      (
        r,
        measured fs f w1,
        constructed fs o order f contents stream offset law small start w w1 name action id msg
            found z,
        unfinished fuel r (measured fs f w1) (record {
          size = refl;
          same_file = refl;
          room = room;
          position = omega (arith, at);
          not_beyond = omega arith;
        }),
      )
