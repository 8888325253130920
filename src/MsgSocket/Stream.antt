-- ===== src/MsgSocket/Stream.antt =====
-- What recv does on a socket of type SOCK_STREAM that neither fails nor is closed (MsgSocket.cpp
-- relies on it), and the messages on the stream, as hex1Protocol.h lays them out.
use hex.Base.{
  ℕ, ◌+◌, ◌≤◌, ◌<◌, ◌≡◌, ◌≢◌, refl, ap, Bool, true, false, List, [], ◌∷◌, ◌++◌, arith, length,
}
use hex.Protocol.{Bytes, TransferDirection, int_of}
use hex.Request.{ByteOrder}
pub use hex.Request.{IsByteOrder}
use hex.MsgSocket.{
  Io, Action, ok, and_then, ◌>>=◌, System, sent, RecvResult, received, not_received, ewouldblock,
  RxMsg, int_bytes, short_bytes, direction_byte,
}
use hex.MsgSocket.Receive.{short_of}

module _ {N : Type 0} (sys : System N) (unread : N → Bytes) (arrived : Bool) where
  -- a read takes some of the bytes that the peer has sent and that are not yet read, or none of
  -- them has arrived
  abbrev pub Reads : (n : N) (len : ℕ) → RecvResult × N → Type 0
  Reads n len (received bs, n') = (0 < length bs) × (length bs ≤ len) × (unread n ≡ bs ++ unread n')
  Reads n len (not_received e, n') =
      (e ≡ ewouldblock) × (unread n' ≡ unread n) × (arrived ≡ true → unread n ≡ [])

  -- a peek leaves the bytes, and the read that follows a peek that has filled the buffer returns
  -- the same
  abbrev pub Peeks : (n : N) (len : ℕ) → RecvResult × N → Type 0
  Peeks n len (received bs, n') =
      (unread n' ≡ unread n)
      × (length bs ≡ len
          → (n'' : N) × (sys.recv n' len false ≡ (received bs, n''))
            × (unread n ≡ bs ++ unread n''))
      × (arrived ≡ true → length bs ≢ len → length (unread n) < len)
  Peeks n len (not_received e, n') =
      (e ≡ ewouldblock) × (unread n' ≡ unread n) × (arrived ≡ true → unread n ≡ [])

-- `unread` are the bytes that the peer has sent and that are not yet read; `arrived` tells that all
-- of them have arrived
pub record IsStream {N : Type 0} (sys : System N) (unread : N → Bytes) (arrived : Bool)
    : Type 0 where
  pub read : (n : N) (len : ℕ) → 0 < len → Reads sys unread arrived n len (sys.recv n len false)
  pub peek : (n : N) → Peeks sys unread arrived n 4 (sys.recv n 4 true)

-- `send` takes the whole buffer: `wire` are the bytes sent, and `next` is the system afterwards
pub record SendsWhole {N : Type 0} (sys : System N) (wire : N → Bytes) (next : N → Bytes → N)
    : Type 0 where
  pub whole : (n : N) (bs : Bytes) → 0 < length bs → sys.send n bs ≡ (sent (length bs), next n bs)
  pub wire-next : (n : N) (bs : Bytes) → wire (next n bs) ≡ wire n ++ bs

-- a message in host order
pub record Packet : Type 0 where
  pub id : ℕ
  pub from : TransferDirection
  pub notyetused : ℕ
  pub l1_body : Bytes

abbrev pub Fits : Packet → Type 0
Fits p = (p.id < 65536) × (length p.l1_body ≤ 8192)

abbrev pub AllFit : List Packet → Type 0
AllFit [] = Unit
AllFit (p ∷ ps) = Fits p × AllFit ps

abbrev pub delivered : Packet → RxMsg
delivered p = record {
  lenght = 8 + length p.l1_body;
  id = p.id;
  from = direction_byte p.from;
  l1_body = p.l1_body;
}

-- the bytes of a message behind its length
abbrev pub tail : ByteOrder → Packet → Bytes
tail o p = short_bytes (o.htons p.id) ++ direction_byte p.from ∷ p.notyetused ∷ p.l1_body

-- the bytes of messages, one after the other
abbrev pub frames : ByteOrder → List Packet → Bytes
frames o [] = []
frames o (p ∷ ps) = int_bytes (o.htonl (8 + length p.l1_body)) ++ (tail o p ++ frames o ps)

pub int_of-int_bytes : (v : ℕ) → v < 4294967296 → int_of (int_bytes v) ≡ v
unfolding int_of
int_of-int_bytes v l = omega arith

pub short_of-short_bytes : (v : ℕ) (bs : Bytes) → v < 65536 → short_of (short_bytes v ++ bs) ≡ v
short_of-short_bytes v bs l = omega arith

pub append_nil : {A : Type 0} (xs : List A) → xs ++ [] ≡ xs
append_nil [] = refl
append_nil (x ∷ xs) = ap (λ t. x ∷ t) (append_nil xs)

pub append_assoc : {A : Type 0} (xs ys zs : List A) → (xs ++ ys) ++ zs ≡ xs ++ (ys ++ zs)
append_assoc [] ys zs = refl
append_assoc (x ∷ xs) ys zs = ap (λ t. x ∷ t) (append_assoc xs ys zs)

pub append_cancel :
    (xs ys us vs : Bytes) → length xs ≡ length ys → xs ++ us ≡ ys ++ vs → (xs ≡ ys) × (us ≡ vs)
append_cancel [] [] us vs l e = (refl, e)
append_cancel [] (y ∷ ys) us vs l e = absurd (omega arith)
append_cancel (x ∷ xs) [] us vs l e = absurd (omega arith)
append_cancel (x ∷ xs) (y ∷ ys) us vs l e =
    let r = append_cancel xs ys us vs (omega arith) (cc (e)) in (cc (e, r.0), r.1)

pub bind_ok :
    {N A B : Type 0} (m : Action N A) (f : A → Action N B) (io : Io N) {a : A} {io' : Io N}
    → m io ≡ ok a io'
    → (m >>= f) io ≡ f a io'
bind_ok m f io e = ap (and_then f) e

pub frames_cons :
    (o : ByteOrder) (p : Packet) (ps : List Packet)
    → frames o (p ∷ []) ++ frames o ps ≡ frames o (p ∷ ps)
frames_cons o p ps =
    ap
      (λ t.
        int_bytes (o.htonl (8 + length p.l1_body))
        ++ (short_bytes (o.htons p.id) ++ direction_byte p.from ∷ p.notyetused ∷ t))
      (append_assoc p.l1_body [] (frames o ps))
