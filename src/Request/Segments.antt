-- ===== src/Request/Segments.antt =====
-- What the messages of a transfer carry.
use hex.Base.{
  ℕ, zero, suc, ◌+◌, ◌-◌, ◌≤◌, ◌<◌, ◌≡◌, refl, sym, ap, ◌∙◌, true, inl, inr, some, List, [], ◌∷◌,
  ◌++◌, arith, length, drop, take-append-drop, Bool-cases, ltb,
}
use hex.Protocol.{none_id, L1MessageId, data_transfer_req}
use hex.Request.{
  ByteOrder, TransferRequest, req_payload_size, blk_payload_size, some_data_to_send, portion,
  first_msg, data_blk, build_next_l2_msg, Segment, segment, segments, consed,
  file_transfer_req_header_size,
}
use hex.Request.Bodies.{
  drop-drop, drop_all, portion_lem, chunk, payload, payloads, Told, AllTold, data_blk-Told,
  first_msg-Told, Ready, data_blk-payload, data_blk-Ready, first_msg-Ready, first_msg-payload,
  build_first, build_blk,
}

segments-stop :
    (o : ByteOrder) (f : ℕ) (r : TransferRequest)
    → r.l2_payload_length ≤ r.nb_payload_bytes_sent
    → segments o (suc f) r ≡ some []
unfolding segments some_data_to_send
segments-stop o f r l = ground arith

segments-step :
    (o : ByteOrder) (f : ℕ) (r : TransferRequest) (b : TransferRequest × (L1MessageId × ℕ))
    → r.nb_payload_bytes_sent < r.l2_payload_length
    → ((out : L1MessageId × ℕ) → build_next_l2_msg o r out ≡ some b)
    → segments o (suc f) r ≡ consed (segment b) (segments o f b.0)
unfolding segments
segments-step o f r b l e = rw (some_data, e (none_id, 0)) refl
  where
    some_data : some_data_to_send r ≡ true
    some_data = unfold some_data_to_send in ground arith

chunk-append-drop :
    (size : ℕ) (r : TransferRequest)
    → chunk size r ++ drop (r.nb_payload_bytes_sent + portion size r) r.source_buffer
      ≡ drop r.nb_payload_bytes_sent r.source_buffer
chunk-append-drop size r =
    ap (λ s. chunk size r ++ s) (drop-drop r.nb_payload_bytes_sent (portion size r) r.source_buffer)
    ∙ take-append-drop (portion size r) (drop r.nb_payload_bytes_sent r.source_buffer)

-- the messages sent from a request on carry the rest of its buffer
abbrev Carries : ByteOrder → ℕ → TransferRequest → Type 0
Carries o f r =
    (ss : List Segment) × (segments o f r ≡ some ss)
    × (payloads ss ≡ drop r.nb_payload_bytes_sent r.source_buffer)
    × AllTold ss

Carries-consed :
    (o : ByteOrder) (f : ℕ) (r : TransferRequest) (b : TransferRequest × (L1MessageId × ℕ))
    (size : ℕ)
    → segments o (suc f) r ≡ consed (segment b) (segments o f b.0)
    → payload (segment b) ≡ chunk size r
    → Told (segment b) × (0 < length (payload (segment b)))
    → b.0.nb_payload_bytes_sent ≡ r.nb_payload_bytes_sent + portion size r
    → b.0.source_buffer ≡ r.source_buffer
    → Carries o f b.0
    → Carries o (suc f) r
Carries-consed o f r b size step pay told sent same (ss, e, k, all) = (
  segment b ∷ ss,
  step ∙ ap (consed (segment b)) e,
  ap (λ t. t ++ payloads ss) pay
      ∙ ap (λ t. chunk size r ++ t) (k ∙ (rw (sent, same) refl))
      ∙ chunk-append-drop size r,
  (told.0, told.1, all),
)

data_blk-Carries :
    (o : ByteOrder) (f : ℕ) (r : TransferRequest)
    → Ready r
    → 0 < r.nb_payload_bytes_sent
    → r.l2_payload_length - r.nb_payload_bytes_sent < f
    → Carries o f r
unfolding data_blk
data_blk-Carries o zero r ok p l = absurd (omega arith)
data_blk-Carries o (suc f) r ok p l =
    elim (Bool-cases (ltb r.nb_payload_bytes_sent r.l2_payload_length)) [
      | inl t ↦
          Carries-consed o f r (data_blk o r) blk_payload_size
            (segments-step o f r (data_blk o r) (ground arith)
              (λ out. build_blk o r ok out p (ground arith)))
            (data_blk-payload o r ok) (data_blk-Told o r ok (ground arith)) refl refl
            (data_blk-Carries o f (data_blk o r).0 (data_blk-Ready o r ok) (omega arith)
              (let q = portion_lem blk_payload_size r in ground arith))
      | inr e ↦ (
        [],
        segments-stop o f r (ground arith),
        sym (drop_all r.nb_payload_bytes_sent r.source_buffer (let w = ok.whole in ground arith)),
        tt,
      )
    ]

-- Where the body has the size of ClientServerMsgBody, the length is that of the buffer and nothing
-- has been sent, buildNextL2Msg is called until there is no more to send, within any fuel above
-- the number of bytes and with no assertion failing; the bytes that stand behind the headers of the
-- messages, as many as each length tells less what is added for the header, are, put together, the
-- buffer; none of these portions is empty; and the length of each message is that of its header and
-- its portion, but for the first one, whose length is 256 bytes too large.
pub segments-payloads :
    (o : ByteOrder) (f : ℕ) (r : TransferRequest)
    → Ready r
    → r.nb_payload_bytes_sent ≡ 0
    → r.l2_payload_length < f
    → (ss : List Segment) × (segments o f r ≡ some ss)
      × (payloads ss ≡ r.source_buffer)
      × AllTold ss
unfolding first_msg
segments-payloads o zero r ok z l = absurd (omega arith)
segments-payloads o (suc f) r ok z l = elim (Bool-cases (ltb 0 r.l2_payload_length)) [
  | inl t ↦
      let (ss, e, k, all) =
        Carries-consed o f r (first_msg o r) req_payload_size
          (segments-step o f r (first_msg o r) (ground arith)
            (λ out. build_first o r ok out z (ground arith)))
          (first_msg-payload o r ok z) (first_msg-Told o r ok z (ground arith)) (omega arith) refl
          (data_blk-Carries o f (first_msg o r).0 (first_msg-Ready o r ok)
            (let q = portion_lem req_payload_size r in ground arith)
            (let q = portion_lem req_payload_size r in ground arith)) in
      (ss, e, k ∙ ap (λ n. drop n r.source_buffer) z, all)
  | inr e ↦ (
    [],
    segments-stop o f r (ground arith),
    sym (drop_all 0 r.source_buffer (let w = ok.whole in ground arith)),
    tt,
  )
]

-- Where the body has the size of ClientServerMsgBody and nothing has been sent, the first message
-- of a buffer of more than 7912 bytes is given a length beyond the size of its body.
pub build_next_l2_msg_oversized :
    (o : ByteOrder) (r : TransferRequest) (out : L1MessageId × ℕ)
    → Ready r
    → r.nb_payload_bytes_sent ≡ 0
    → 7912 < r.l2_payload_length
    → (r' : TransferRequest) × (n : ℕ) × (build_next_l2_msg o r out
        ≡ some (r', (data_transfer_req, n)))
      × (length r'.msg < n)
unfolding first_msg
build_next_l2_msg_oversized o r out ok z l = (
  (first_msg o r).0,
  portion req_payload_size r + file_transfer_req_header_size,
  build_first o r ok out z (omega arith),
  (let q = first_msg-Ready o r ok in let w = q.room in unfold portion in ground arith),
)
