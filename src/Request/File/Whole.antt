-- ===== src/Request/File/Whole.antt =====
-- A transfer as a whole (ClientServerFileTransferRequest.cpp), of a file that nobody changes while
-- it is sent.
use hex.Base.{
  length-take, ◌≤◌, ==-self, ◌++◌, ℕ, zero, suc, ◌+◌, ◌-◌, ◌<◌, ◌≡◌, refl, sym, ap, ◌∙◌, some, inl,
  inr, List, [], ◌∷◌, arith, length, take, drop, ltb, Bool-cases, ℤ, u32,
}
use hex.Protocol.{Bytes, none_id}
use hex.Request.{ByteOrder, IsByteOrder, Segment, blk_payload_size}
use hex.Request.File.{
  FileBuilt, build_next_file_msg, FileSystem, FileTransferRequest, done, file_payload_size,
  first_file_msg, file_data_blk, file_segment, file_segments, file_consed, file_transfer_request,
}
use hex.Request.File.Messages.{
  file_position, file_payload, rebuilt, announced, padded, first_file_msg-payload,
  first_file_msg-announced, file_data_blk-payload, file_data_blk-position,
}
use hex.Request.File.Slices.{take_add, take_all}
use hex.Request.File.Reads.{
  file_segments-stop, measured, new_request, constructed, Reading, IsFile, Midway, got, length-got,
  data_left, file_segments-step, blk_built, first_built, blk-Midway, first-Midway,
}

module _ {W F : Type 0} (fs : FileSystem W F) (o : ByteOrder) (order : IsByteOrder o) (f : F)
    (contents : Bytes) (stream offset : W → ℕ) (law : IsFile fs f contents stream offset)
    (small : length contents < 2147483648) where
  -- the messages sent from a request on bring a receiver that has the first bytes of the file to
  -- the whole
  abbrev Completes : ℕ → FileTransferRequest F → W → Type 0
  Completes fuel r w =
      (ss : List Segment) × (w' : W) × (file_segments fs o fuel r w ≡ some (done ss w'))
      × (rebuilt o (take r.nb_payload_bytes_sent contents) ss ≡ some contents)

  at_sent :
      (r : FileTransferRequest F) (w : W)
      → Midway fs o order f contents stream offset law small 0 r w
      → offset w ≡ r.nb_payload_bytes_sent
  at_sent r w mid = omega (arith, mid.position)

  rebuilt-cons :
      (acc : Bytes) (s : Segment) (ss : List Segment) (whole next : Bytes)
      → file_position o s ≡ length acc
      → acc ++ file_payload s ≡ next
      → rebuilt o next ss ≡ some whole
      → rebuilt o acc (s ∷ ss) ≡ some whole
  rebuilt-cons acc s ss whole next p e k =
      rw (p, ==-self (length acc)) (ap (λ t. rebuilt o t ss) e ∙ k)

  Completes-stop :
      (fuel : ℕ) (r : FileTransferRequest F) (w : W)
      → Midway fs o order f contents stream offset law small 0 r w
      → length contents ≤ r.nb_payload_bytes_sent
      → Completes (suc fuel) r w
  Completes-stop fuel r w mid l = (
    [],
    w,
    file_segments-stop fs o order f contents stream offset law small 0 fuel r w mid.size l,
    ap some (take_all r.nb_payload_bytes_sent contents l),
  )

  -- a message that carries what was read, with the rest of the transfer behind it
  Completes-cons :
      (fuel n : ℕ) (r : FileTransferRequest F) (w : W)
      (mid : Midway fs o order f contents stream offset law small 0 r w) (b : FileBuilt F)
      (t : Reading fs f contents offset w n)
      → r.nb_payload_bytes_sent < length contents
      → build_next_file_msg fs o r (none_id, 0) w ≡ done b t.state
      → file_position o (file_segment b) ≡ r.nb_payload_bytes_sent
      → file_payload (file_segment b) ≡ got fs o order f contents stream offset law small 0 w n t
      → b.0.nb_payload_bytes_sent ≡ r.nb_payload_bytes_sent + t.amount
      → Completes fuel b.0 t.state
      → Completes (suc fuel) r w
  Completes-cons fuel n r w mid b t l e at pay sent (ss, w', run, whole) =
      let size : length (take r.nb_payload_bytes_sent contents) ≡ r.nb_payload_bytes_sent =
        let k = length-take r.nb_payload_bytes_sent contents in ground arith in
      (
        file_segment b ∷ ss,
        w',
        file_segments-step fs o order f contents stream offset law small 0 fuel r w b t.state
              (data_left fs o order f contents stream offset law small 0 r mid.size l) e
            ∙ ap (file_consed (file_segment b)) run,
        rebuilt-cons (take r.nb_payload_bytes_sent contents) (file_segment b) ss contents
            (take b.0.nb_payload_bytes_sent contents) (at ∙ sym size)
            (ap (λ u. take r.nb_payload_bytes_sent contents ++ u)
                (pay ∙ ap (λ k. take t.amount (drop k contents)) (at_sent r w mid))
              ∙ take_add r.nb_payload_bytes_sent t.amount contents
              ∙ ap (λ k. take k contents) (sym sent))
            whole,
      )

  blks-Completes :
      (fuel : ℕ) (r : FileTransferRequest F) (w : W)
      → Midway fs o order f contents stream offset law small 0 r w
      → 0 < r.nb_payload_bytes_sent
      → length contents - r.nb_payload_bytes_sent < fuel
      → Completes fuel r w
  blks-Completes zero r w mid p l = absurd (omega arith)
  blks-Completes (suc fuel) r w mid p l =
      elim (Bool-cases (ltb r.nb_payload_bytes_sent (length contents))) [
        | inl more ↦
            let left : r.nb_payload_bytes_sent < length contents = ground arith in
            let t = law.reading w blk_payload_size (omega arith) (omega (arith, mid.position)) in
            let bs = got fs o order f contents stream offset law small 0 w blk_payload_size t in
            let sent : length bs ≡ t.amount =
              length-got fs o order f contents stream offset law small 0 w blk_payload_size t in
            Completes-cons fuel blk_payload_size r w mid (file_data_blk o r bs) t left
              (blk_built fs o order f contents stream offset law small 0 r w mid t p left)
              (file_data_blk-position o order r mid.room bs (omega arith))
              (file_data_blk-payload o order r mid.room bs (omega (arith, t.fits)))
              (unfold file_data_blk in ap (λ k. r.nb_payload_bytes_sent + k) sent)
              (blks-Completes fuel (file_data_blk o r bs).0 t.state
                (blk-Midway fs o order f contents stream offset law small 0 r w mid t)
                (unfold file_data_blk in omega arith)
                (unfold file_data_blk in omega (arith, t.some_byte (omega (arith, mid.position)))))
        | inr e ↦ Completes-stop fuel r w mid (ground arith)
      ]

  begun-Completes :
      (fuel : ℕ) (r : FileTransferRequest F) (w : W)
      → Midway fs o order f contents stream offset law small 0 r w
      → r.nb_payload_bytes_sent ≡ 0
      → 0 < length contents
      → length contents < fuel
      → (s : Segment) × (ss : List Segment) × (w' : W) × (file_segments fs o fuel r w
          ≡ some (done (s ∷ ss) w'))
        × (rebuilt o [] (s ∷ ss) ≡ some contents)
        × (announced o s ≡ (length contents, padded r.file_name))
  begun-Completes zero r w mid z p l = absurd (omega arith)
  begun-Completes (suc fuel) r w mid z p l =
      let left : r.nb_payload_bytes_sent < length contents = omega arith in
      let t = law.reading w file_payload_size (omega arith) (omega (arith, mid.position)) in
      let bs = got fs o order f contents stream offset law small 0 w file_payload_size t in
      let sent : length bs ≡ t.amount =
        length-got fs o order f contents stream offset law small 0 w file_payload_size t in
      let b = first_file_msg o r bs in
      let (ss, w', run, whole) =
        blks-Completes fuel b.0 t.state
          (first-Midway fs o order f contents stream offset law small 0 r w mid t z)
          (unfold first_file_msg in omega (arith, t.some_byte (omega (arith, mid.position))))
          (unfold first_file_msg in omega (arith, t.some_byte (omega (arith, mid.position)))) in
      (
        file_segment b,
        ss,
        w',
        file_segments-step fs o order f contents stream offset law small 0 fuel r w b t.state
              (data_left fs o order f contents stream offset law small 0 r mid.size left)
              (first_built fs o order f contents stream offset law small 0 r w mid t z p)
            ∙ ap (file_consed (file_segment b)) run,
        rebuilt-cons [] (file_segment b) ss contents (take b.0.nb_payload_bytes_sent contents)
            (unfold first_file_msg in refl)
            (first_file_msg-payload o order r mid.room bs (omega (arith, t.fits))
              ∙ ap (λ k. take t.amount (drop k contents)) (at_sent r w mid ∙ z)
              ∙ ap (λ k. take k contents) (sym (unfold first_file_msg in sent)))
            whole,
        first_file_msg-announced o order r mid.room bs
            ∙ ap (λ (z : ℤ). (u32 z, padded r.file_name)) mid.size
            ∙ ap (λ (k : ℕ). (k, padded r.file_name)) (omega arith),
      )

  -- Where the file is there, shorter than 2^31 bytes and not empty, nobody changes it, each read
  -- returns at least one byte, the body has the size of ClientServerMsgBody, and the descriptor
  -- stands at the start of the file once fseek has been called for the FILE: the constructor makes
  -- a request with the action 0, whatever action it is given, and its messages are built within any
  -- fuel above the number of bytes, with no exception and no failed assertion; the first one
  -- announces the size of the file and its name, cut to 256 bytes or filled up with spaces, and a
  -- receiver that puts the payloads one behind the other gets the file, each payload standing at
  -- the position that its message tells.
  pub file_segments-rebuilt :
      (w w1 : W) (name : Bytes) (action id fuel : ℕ) (msg : Bytes)
      → fs.fopen w name ≡ (some f, w1)
      → stream w1 ≡ 0
      → offset (measured fs f w1) ≡ 0
      → length msg ≡ 8192
      → 0 < length contents
      → length contents < fuel
      → (r : FileTransferRequest F) × (w2 : W) × (file_transfer_request fs name action id msg w
          ≡ done r w2)
        × (r.l2_action ≡ 0)
        × (s : Segment) × (ss : List Segment) × (w' : W) × (file_segments fs o fuel r w2
            ≡ some (done (s ∷ ss) w'))
        × (rebuilt o [] (s ∷ ss) ≡ some contents)
        × (announced o s ≡ (length contents, padded name))
  file_segments-rebuilt w w1 name action id fuel msg found z back room p l =
      let (s, ss, w', run, whole, head) =
        begun-Completes fuel
          (new_request fs o order f contents stream offset law small 0 name id msg)
          (measured fs f w1)
          (record {
            size = refl;
            same_file = refl;
            room = room;
            position = back;
            not_beyond = omega arith;
          })
          refl p l in
      (
        new_request fs o order f contents stream offset law small 0 name id msg,
        measured fs f w1,
        constructed fs o order f contents stream offset law small 0 w w1 name action id msg found z,
        refl,
        s,
        ss,
        w',
        run,
        whole,
        head,
      )
