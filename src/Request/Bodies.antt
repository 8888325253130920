-- ===== src/Request/Bodies.antt =====
-- The bodies of the messages of a transfer: what buildNextL2Msg puts into one, read back.
use hex.Base.{
  ◌⊎◌, inl, inr, ℕ, zero, suc, ◌+◌, ◌-◌, ◌/◌, ◌%◌, ◌≤◌, ◌<◌, ◌≡◌, refl, sym, ap, ◌∙◌, some, List,
  [], ◌∷◌, ◌++◌, arith, length, take, drop, length-take, length-drop,
}
use hex.Protocol.{Bytes, L1MessageId, data_transfer_req, transfer_data_blk, write_at, write_int}
use hex.Request.{
  ByteOrder, TransferRequest, req_payload_size, blk_payload_size, data_transfer_header_size,
  data_transfer_req_header_size, file_transfer_req_header_size, write_long, write_short,
  write_req_header, write_blk_header, portion, first_msg, data_blk, build_next_l2_msg, Segment,
  segment,
}

pub length-write_at : (off : ℕ) (bs buf : Bytes) → length (write_at off bs buf) ≡ length buf
unfolding write_at
length-write_at zero [] buf = refl
length-write_at zero (b ∷ bs) [] = refl
length-write_at zero (b ∷ bs) (c ∷ buf) = ap suc (length-write_at zero bs buf)
length-write_at (suc off) bs [] = refl
length-write_at (suc off) bs (c ∷ buf) = ap suc (length-write_at off bs buf)

pub take-write_at :
    (bs buf : Bytes) → length bs ≤ length buf → take (length bs) (write_at 0 bs buf) ≡ bs
unfolding write_at
take-write_at [] buf l = refl
take-write_at (b ∷ bs) [] l = absurd (omega arith)
take-write_at (b ∷ bs) (c ∷ buf) l = ap (λ t. b ∷ t) (take-write_at bs buf (omega arith))

pub length-write_int : (off v : ℕ) (buf : Bytes) → length (write_int off v buf) ≡ length buf
unfolding write_int
length-write_int off v buf =
    length-write_at off (v % 256 ∷ v / 256 % 256 ∷ v / 65536 % 256 ∷ v / 16777216 % 256 ∷ []) buf

pub length-write_long : (off v : ℕ) (buf : Bytes) → length (write_long off v buf) ≡ length buf
unfolding write_long
length-write_long off v buf =
    length-write_int (off + 4) 0 (write_int off v buf) ∙ length-write_int off v buf

pub length-write_short : (off v : ℕ) (buf : Bytes) → length (write_short off v buf) ≡ length buf
unfolding write_short
length-write_short off v buf = length-write_at off (v % 256 ∷ v / 256 % 256 ∷ []) buf

-- what was written is read back
pub read-write_at :
    (off : ℕ) (bs buf : Bytes)
    → off + length bs ≤ length buf
    → take (length bs) (drop off (write_at off bs buf)) ≡ bs
unfolding write_at
read-write_at zero bs buf l = take-write_at bs buf (omega arith)
read-write_at (suc off) bs [] l = absurd (omega arith)
read-write_at (suc off) bs (c ∷ buf) l = read-write_at off bs buf (omega arith)

pub drop-drop : (k n : ℕ) (s : Bytes) → drop (k + n) s ≡ drop n (drop k s)
drop-drop zero n s = ap (λ m. drop m s) (omega arith)
drop-drop (suc k) zero [] = let e : suc k + 0 ≡ suc k = omega arith in rw e refl
drop-drop (suc k) (suc n) [] = let e : suc k + suc n ≡ suc (k + suc n) = omega arith in rw e refl
drop-drop (suc k) n (x ∷ s) =
    let e : suc k + n ≡ suc (k + n) = omega arith in rw e (drop-drop k n s)

pub drop_all : (k : ℕ) (s : Bytes) → length s ≤ k → drop k s ≡ []
drop_all zero [] l = refl
drop_all zero (x ∷ s) l = absurd (omega arith)
drop_all (suc k) [] l = refl
drop_all (suc k) (x ∷ s) l = drop_all k s (omega arith)

pub portion_lem :
    (size : ℕ) (r : TransferRequest)
    → (portion size r ≤ size)
      × (portion size r ≤ r.l2_payload_length - r.nb_payload_bytes_sent)
      × (0 < size → r.nb_payload_bytes_sent < r.l2_payload_length → 0 < portion size r)
unfolding portion
portion_lem size r = ground arith

-- The payload of a message: the bytes behind its header, as many as its length tells, less what
-- buildNextL2Msg adds to their number. For the first message this is 256 more than the header has.
abbrev payload_at : L1MessageId → (nb_bytes : ℕ) → Bytes → Bytes
payload_at data_transfer_req n body =
    take (n - file_transfer_req_header_size) (drop data_transfer_req_header_size body)
payload_at transfer_data_blk n body =
    take (n - data_transfer_header_size) (drop data_transfer_header_size body)
payload_at _ n body = []

abbrev pub payload : Segment → Bytes
payload s = payload_at s.l1_msg_id s.nb_bytes s.body

abbrev pub payloads : List Segment → Bytes
payloads [] = []
payloads (s ∷ ss) = payload s ++ payloads ss

-- the length that a message tells, against its payload
abbrev pub Told : Segment → Type 0
Told s =
    ((s.l1_msg_id ≡ data_transfer_req)
      × (s.nb_bytes ≡ data_transfer_req_header_size + 256 + length (payload s)))
    ⊎ ((s.l1_msg_id ≡ transfer_data_blk)
        × (s.nb_bytes ≡ data_transfer_header_size + length (payload s)))

abbrev pub AllTold : List Segment → Type 0
AllTold [] = Unit
AllTold (s ∷ ss) = Told s × (0 < length (payload s)) × AllTold ss

-- the body has the size of ClientServerMsgBody, and the length is that of the buffer
pub record Ready (r : TransferRequest) : Type 0 where
  pub room : length r.msg ≡ 8192
  pub whole : length r.source_buffer ≡ r.l2_payload_length

-- what the next message carries
abbrev pub chunk : ℕ → TransferRequest → Bytes
chunk size r = take (portion size r) (drop r.nb_payload_bytes_sent r.source_buffer)

module _ (o : ByteOrder) (r : TransferRequest) (ok : Ready r) where
  pub length-chunk : (size : ℕ) → length (chunk size r) ≡ portion size r
  length-chunk size = omega (
    arith,
    length-take (portion size r) (drop r.nb_payload_bytes_sent r.source_buffer),
    length-drop r.nb_payload_bytes_sent r.source_buffer,
    portion_lem size r,
    ok.whole,
  )

  write_req_header-length : length (write_req_header o r) ≡ 8192
  unfolding write_req_header
  write_req_header-length =
      length-write_short 16 (o.htons r.l2_action) _
      ∙ length-write_long 0 (o.htonl r.transfer_id) _
      ∙ length-write_long 8 (o.htonl r.l2_payload_length) r.msg
      ∙ ok.room

  write_blk_header-length : length (write_blk_header o r) ≡ 8192
  unfolding write_blk_header
  write_blk_header-length =
      length-write_long 0 (o.htonl r.transfer_id) _
      ∙ length-write_int 8 (o.htonl r.nb_payload_bytes_sent) r.msg
      ∙ ok.room

  -- a chunk that was copied behind a header of the message is read back
  copied :
      (size off : ℕ) (buf : Bytes)
      → off + size ≤ 8192
      → length buf ≡ 8192
      → take (portion size r) (drop off (write_at off (chunk size r) buf)) ≡ chunk size r
  copied size off buf l e =
      ap (λ n. take n (drop off (write_at off (chunk size r) buf))) (sym (length-chunk size))
      ∙ read-write_at off (chunk size r) buf (omega (arith, length-chunk size, portion_lem size r))

  pub data_blk-payload : payload (segment (data_blk o r)) ≡ chunk blk_payload_size r
  unfolding data_blk
  data_blk-payload =
      let n = portion blk_payload_size r in
      let e : n + data_transfer_header_size - data_transfer_header_size ≡ n = omega arith in
      ap (λ k. take k (drop data_transfer_header_size (data_blk o r).0.msg)) e
      ∙ copied blk_payload_size data_transfer_header_size (write_blk_header o r) (omega arith)
          write_blk_header-length

  pub data_blk-Ready : Ready (data_blk o r).0
  unfolding data_blk
  data_blk-Ready = record {
    room =
        length-write_at data_transfer_header_size (chunk blk_payload_size r) (write_blk_header o r)
        ∙ write_blk_header-length;
    whole = ok.whole;
  }

  pub first_msg-Ready : Ready (first_msg o r).0
  unfolding first_msg
  first_msg-Ready = record {
    room =
        length-write_at data_transfer_req_header_size
          (take (portion req_payload_size r) r.source_buffer) (write_req_header o r)
        ∙ write_req_header-length;
    whole = ok.whole;
  }

  pub first_msg-payload :
      r.nb_payload_bytes_sent ≡ 0 → payload (segment (first_msg o r)) ≡ chunk req_payload_size r
  unfolding first_msg
  first_msg-payload z =
      let n = portion req_payload_size r in
      let e : n + file_transfer_req_header_size - file_transfer_req_header_size ≡ n = omega arith in
      ap (λ k. take k (drop data_transfer_req_header_size (first_msg o r).0.msg)) e
      ∙ ap
          (λ k. take (portion req_payload_size r) (
            drop data_transfer_req_header_size (
              write_at data_transfer_req_header_size
                (take (portion req_payload_size r) (drop k r.source_buffer))
                (write_req_header o r))))
          (sym z)
      ∙ copied req_payload_size data_transfer_req_header_size (write_req_header o r) (omega arith)
          write_req_header-length

  pub data_blk-Told :
      r.nb_payload_bytes_sent < r.l2_payload_length
      → Told (segment (data_blk o r)) × (0 < length (payload (segment (data_blk o r))))
  unfolding data_blk
  data_blk-Told l =
      let k = ap length data_blk-payload ∙ length-chunk blk_payload_size in
      (
        inr (refl, omega (arith, k)),
        omega (arith, k, (portion_lem blk_payload_size r).2 (omega arith) l),
      )

  pub first_msg-Told :
      r.nb_payload_bytes_sent ≡ 0
      → r.nb_payload_bytes_sent < r.l2_payload_length
      → Told (segment (first_msg o r)) × (0 < length (payload (segment (first_msg o r))))
  unfolding first_msg
  first_msg-Told z l =
      let k = ap length (first_msg-payload z) ∙ length-chunk req_payload_size in
      (
        inl (refl, omega (arith, k)),
        omega (arith, k, (portion_lem req_payload_size r).2 (omega arith) l),
      )

  -- the two parts of buildNextL2Msg
  pub build_first :
      (out : L1MessageId × ℕ)
      → r.nb_payload_bytes_sent ≡ 0
      → 0 < r.l2_payload_length
      → build_next_l2_msg o r out ≡ some (first_msg o r)
  unfolding build_next_l2_msg first_msg
  build_first out z p = let q = portion_lem req_payload_size r in ground arith

  pub build_blk :
      (out : L1MessageId × ℕ)
      → 0 < r.nb_payload_bytes_sent
      → r.nb_payload_bytes_sent < r.l2_payload_length
      → build_next_l2_msg o r out ≡ some (data_blk o r)
  unfolding build_next_l2_msg data_blk
  build_blk out z p = let q = portion_lem blk_payload_size r in ground arith
