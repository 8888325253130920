-- ===== src/Server/Admission.antt =====
-- The life of a connection: what it takes to be registered.
use mathlib.Core.Path.{subst}
use hex.Base.{
  ap, ◌≡◌, ◌⊎◌, inl, inr, refl, sym, ◌∙◌, Bool, true, false, not, ◌&&◌, ◌||◌, Option, none, some,
  List, [], ◌∷◌, arith, Option-cases,
}
use hex.Protocol.{
  Bytes, L1MessageId, connection_req, user_logging_req, registration_req, L1Msg, string_eq,
  c_string, main_version,
}
use hex.Server.{
  Outcome, done, threw, remaining, State, empty, registering, registered, Connection,
  new_connection, Accounts, name_field, password_field, mail_field,
}
use hex.Server.Messages.{handle_client_message, handle_messages, dispatch, after}

none-ne-some : {o : Outcome} → ◌≡◌ {A = Option Outcome} none (some o) → ⊥
none-ne-some e = cc

-- the states from which a client can still get registered, or is
abbrev pub is_hopeful : State → Bool
is_hopeful empty = true
is_hopeful registering = true
is_hopeful registered = true
is_hopeful _ = false

abbrev opening_by : L1MessageId → Bytes → Bool
opening_by connection_req body = string_eq (c_string body) main_version
opening_by _ body = false

abbrev credential_by : L1MessageId → Accounts → Bytes → Bool
credential_by registration_req a body =
    not (a.known_user (name_field body)) && not (a.correct_email (mail_field body))
credential_by user_logging_req a body =
    a.known_user (name_field body) && a.passwd_ok (name_field body) (password_field body)
credential_by _ a body = false

-- CONNECTION_REQ with the version of the server
abbrev pub is_opening : L1Msg → Bool
is_opening m = opening_by m.l1_msg_id m.l1_body

-- credentials that the look-ups accept
abbrev pub is_credential : Accounts → L1Msg → Bool
is_credential a m = credential_by m.l1_msg_id a m.l1_body

step_hopeless :
    (a : Accounts) (id : L1MessageId) (raw body : Bytes) (c : Connection) (o : Outcome)
    → is_hopeful c.state ≡ false
    → dispatch id a raw body c ≡ some o
    → is_hopeful (remaining o).state ≡ false
unfolding dispatch
step_hopeless a connection_req raw body c o q h = ground arith
step_hopeless a _ raw body c o q h = ground arith

step_empty :
    (a : Accounts) (id : L1MessageId) (raw body : Bytes) (c : Connection) (o : Outcome)
    → c.state ≡ empty
    → dispatch id a raw body c ≡ some o
    → ((remaining o).state ≡ empty)
      ⊎ ((is_hopeful (remaining o).state ≡ false)
          ⊎ (((remaining o).state ≡ registering) × (opening_by id body ≡ true)))
unfolding dispatch
step_empty a connection_req raw body c o q h = ground arith
step_empty a _ raw body c o q h = ground arith

step_registering :
    (a : Accounts) (id : L1MessageId) (raw body : Bytes) (c : Connection) (o : Outcome)
    → c.state ≡ registering
    → dispatch id a raw body c ≡ some o
    → ((remaining o).state ≡ registering)
      ⊎ ((is_hopeful (remaining o).state ≡ false)
          ⊎ (((remaining o).state ≡ registered) × (credential_by id a body ≡ true)))
unfolding dispatch
step_registering a connection_req raw body c o q h = ground arith
step_registering a _ raw body c o q h = ground arith

dispatch_lem :
    (a : Accounts) (raw : Bytes) (m : L1Msg) (c : Connection)
    → handle_client_message a raw m c ≡ dispatch m.l1_msg_id a raw m.l1_body c
unfolding handle_client_message
dispatch_lem a raw m c = refl

-- what handle_messages ends with for a first message whose handler does not assert
messages_step :
    (a : Accounts) (raw : Bytes) (m : L1Msg) (ms : List (Bytes × L1Msg)) (c : Connection)
    (o : Outcome)
    → handle_messages a ((raw, m) ∷ ms) c ≡ some o
    → (d : Outcome) × (dispatch m.l1_msg_id a raw m.l1_body c ≡ some d)
      × (after (handle_messages a ms) (some d) ≡ some o)
unfolding handle_messages
messages_step a raw m ms c o h = elim (Option-cases (handle_client_message a raw m c)) [
  | inl n ↦ absurd (none-ne-some (rw (n, handle_messages) at h))
  | inr (d, e) ↦ (d, sym (dispatch_lem a raw m c) ∙ e, rw (e, handle_messages) at h)
]

messages_done :
    (a : Accounts) (c : Connection) (o : Outcome) → handle_messages a [] c ≡ some o → done c ≡ o
unfolding handle_messages
messages_done a c o h = cc

threw_lem :
    (rest : Connection → Option Outcome) (d : Connection) (o : Outcome)
    → after rest (some (threw d)) ≡ some o
    → threw d ≡ o
threw_lem rest d o h = cc

-- an exception leaves the connection as it is, and otherwise the messages that are left are handled
continued :
    (rest : Connection → Option Outcome) (d o : Outcome)
    → after rest (some d) ≡ some o
    → (remaining d ≡ remaining o) ⊎ (rest (remaining d) ≡ some o)
continued rest (done c) o k = inr k
continued rest (threw c) o k = inl (ap remaining (threw_lem rest c o k))

-- Where the messages that follow are handled with no assertion failing, whether an exception ends
-- them or not, a connection in a state from which there is no way to a registration is in such a
-- state after them.
pub handle_messages-hopeless :
    (a : Accounts) (ms : List (Bytes × L1Msg)) (c : Connection) (o : Outcome)
    → is_hopeful c.state ≡ false
    → handle_messages a ms c ≡ some o
    → is_hopeful (remaining o).state ≡ false
handle_messages-hopeless a [] c o q h =
    subst (λ p. is_hopeful (remaining p).state ≡ false) (messages_done a c o h) q
handle_messages-hopeless a ((raw, m) ∷ ms) c o q h =
    let (d, e, k) = messages_step a raw m ms c o h in
    let p = step_hopeless a m.l1_msg_id raw m.l1_body c d q e in
    elim (continued (handle_messages a ms) d o k) [
      | inl same ↦ subst (λ c1. is_hopeful c1.state ≡ false) same p
      | inr rest ↦ handle_messages-hopeless a ms (remaining d) o p rest
    ]

-- some message carries credentials that are accepted
abbrev pub has_credential : Accounts → List (Bytes × L1Msg) → Bool
has_credential a [] = false
has_credential a ((raw, m) ∷ ms) = is_credential a m || has_credential a ms

-- some message opens the connection, and a later one carries credentials that are accepted
abbrev pub is_admitted : Accounts → List (Bytes × L1Msg) → Bool
is_admitted a [] = false
is_admitted a ((raw, m) ∷ ms) = (is_opening m && has_credential a ms) || is_admitted a ms

registering_needs :
    (a : Accounts) (ms : List (Bytes × L1Msg)) (c : Connection) (o : Outcome)
    → c.state ≡ registering
    → handle_messages a ms c ≡ some o
    → (remaining o).state ≡ registered
    → has_credential a ms ≡ true
registering_needs a [] c o q h r =
    let e = ap (λ p. (remaining p).state) (messages_done a c o h) in ground arith
registering_needs a ((raw, m) ∷ ms) c o q h r =
    let (d, e, k) = messages_step a raw m ms c o h in
    elim (continued (handle_messages a ms) d o k) [
      | inl same ↦
          let reg = ap (λ c1. c1.state) same ∙ r in
          elim (step_registering a m.l1_msg_id raw m.l1_body c d q e) [
            | inl stays ↦ ground arith
            | inr (inl lost) ↦ ground arith
            | inr (inr (_, now)) ↦ ground arith
          ]
      | inr rest ↦ elim (step_registering a m.l1_msg_id raw m.l1_body c d q e) [
        | inl stays ↦
            let later = registering_needs a ms (remaining d) o stays rest r in ground arith
        | inr (inl lost) ↦
            let no_hope = handle_messages-hopeless a ms (remaining d) o lost rest in ground arith
        | inr (inr (_, now)) ↦ ground arith
      ]
    ]

empty_needs :
    (a : Accounts) (ms : List (Bytes × L1Msg)) (c : Connection) (o : Outcome)
    → c.state ≡ empty
    → handle_messages a ms c ≡ some o
    → (remaining o).state ≡ registered
    → is_admitted a ms ≡ true
empty_needs a [] c o q h r =
    let e = ap (λ p. (remaining p).state) (messages_done a c o h) in ground arith
empty_needs a ((raw, m) ∷ ms) c o q h r =
    let (d, e, k) = messages_step a raw m ms c o h in
    elim (continued (handle_messages a ms) d o k) [
      | inl same ↦
          let reg = ap (λ c1. c1.state) same ∙ r in
          elim (step_empty a m.l1_msg_id raw m.l1_body c d q e) [
            | inl stays ↦ ground arith
            | inr (inl lost) ↦ ground arith
            | inr (inr (opened, now)) ↦ ground arith
          ]
      | inr rest ↦ elim (step_empty a m.l1_msg_id raw m.l1_body c d q e) [
        | inl stays ↦ let later = empty_needs a ms (remaining d) o stays rest r in ground arith
        | inr (inl lost) ↦
            let no_hope = handle_messages-hopeless a ms (remaining d) o lost rest in ground arith
        | inr (inr (opened, now)) ↦
            let later = registering_needs a ms (remaining d) o opened rest r in ground arith
      ]
    ]

-- A new connection is registered by a sequence of messages, whether an exception ends it or not,
-- only if the sequence has a CONNECTION_REQ with the version of the server and, later, a
-- registration or a login that the look-ups accept.
pub registered_needs :
    (a : Accounts) (ms : List (Bytes × L1Msg)) (o : Outcome)
    → handle_messages a ms new_connection ≡ some o
    → (remaining o).state ≡ registered
    → is_admitted a ms ≡ true
registered_needs a ms o h r = empty_needs a ms new_connection o new_state h r
  where
    new_state : new_connection.state ≡ empty
    new_state = unfold new_connection in refl
