-- ===== src/Request/Any.antt =====
-- ClientServerRequest.h and .cpp: the requests behind the abstract class ClientServerRequest, and the
-- request for a single message (ClientServerMsgRequest).
use hex.Base.{ℕ, ◌+◌, ◌≡◌, ap, Bool, Option, none, some, ltb, if◌then◌else◌}
use hex.Protocol.{Bytes, L1MessageId, MsgRequest}
use hex.Request.{ByteOrder, TransferRequest, some_data_to_send, build_next_l2_msg}

-- `sent` is nb_payload_bytes_sent
pub data AnyRequest : Type 0 where
  single : MsgRequest → (sent : ℕ) → AnyRequest
  transfer : TransferRequest → AnyRequest

unfoldable pub has_data_to_send : AnyRequest → Bool
unfolding some_data_to_send
has_data_to_send (single m sent) = ltb sent m.nb_bytes
has_data_to_send (transfer r) = some_data_to_send r

-- what the virtual buildNextL2Msg leaves: the request, the arguments msg_id and length, and the body
-- that it returns, `none` for nullptr
pub record Built : Type 0 where
  pub request : AnyRequest
  pub msg_id : L1MessageId
  pub nb_bytes : ℕ
  pub body : Option Bytes

built_transfer : Option (TransferRequest × (L1MessageId × ℕ)) → Option Built
built_transfer none = none
built_transfer (some (r, (id, n))) =
    some (record { request = transfer r; msg_id = id; nb_bytes = n; body = some r.msg })

-- `none` is a failed assertion
unfoldable pub build_next : ByteOrder → AnyRequest → L1MessageId → ℕ → Option Built
unfolding build_next_l2_msg built_transfer
build_next o (single m sent) id n = some (
    if ltb sent m.nb_bytes
    then record {
      request = single m (sent + m.nb_bytes);
      msg_id = m.l1_msg_id;
      nb_bytes = m.nb_bytes;
      body = some m.msg;
    }
    else record { request = single m sent; msg_id = id; nb_bytes = n; body = none })
build_next o (transfer r) id n = built_transfer (build_next_l2_msg o r (id, n))

pub build_next-transfer :
    (o : ByteOrder) (r r' : TransferRequest) (id id' : L1MessageId) (n n' : ℕ)
    → build_next_l2_msg o r (id, n) ≡ some (r', (id', n'))
    → build_next o (transfer r) id n
      ≡ some (record { request = transfer r'; msg_id = id'; nb_bytes = n'; body = some r'.msg })
unfolding build_next built_transfer
build_next-transfer o r r' id id' n n' e = ap built_transfer e
