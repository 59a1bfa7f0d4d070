-- ===== src/Messages/Plain.antt =====
-- The messages of handshake_messages.go that are a type, a length and bytes: serverKeyExchangeMsg,
-- clientKeyExchangeMsg, newSessionTicketMsg, and those that are empty.
use goktls.Base.{
  ℕ, ◌+◌, ◌-◌, ◌<◌, ◌==◌, ◌≡◌, Bool, not, List, [], ◌∷◌, ◌++◌, Option, none, some, length,
  if◌then◌else◌, arith, ltb, drop,
}
use goktls.Messages.{type_server_key_exchange, type_client_key_exchange, type_new_session_ticket}
use goktls.Messages.Bytes.{uint16, uint24, read16, read24, sub32}
use goktls.Messages.Framing.{marshal_with}

pub record ServerKeyExchangeMsg : Type 0 where
  pub raw : Option (List ℕ)
  pub key : List ℕ

pub record ClientKeyExchangeMsg : Type 0 where
  pub raw : Option (List ℕ)
  pub ciphertext : List ℕ

pub record NewSessionTicketMsg : Type 0 where
  pub raw : Option (List ℕ)
  pub ticket : List ℕ

-- The type, the length of the body and the body.
abbrev pub with_length : ℕ → List ℕ → List ℕ
with_length typ body = typ ∷ (uint24 (length body) ++ body)

unfoldable pub marshal_server_key_exchange :
    ServerKeyExchangeMsg → Option (List ℕ × ServerKeyExchangeMsg)
unfolding marshal_with
marshal_server_key_exchange m =
    marshal_with m.raw m (λ bytes. record m { raw = some bytes })
      (some (with_length type_server_key_exchange m.key))

-- The length is not looked at.
unfoldable pub unmarshal_server_key_exchange : List ℕ → Option ServerKeyExchangeMsg
unmarshal_server_key_exchange bytes =
    if ltb (length bytes) 4 then none else some (record { raw = some bytes; key = drop 4 bytes })

unfoldable pub marshal_client_key_exchange :
    ClientKeyExchangeMsg → Option (List ℕ × ClientKeyExchangeMsg)
unfolding marshal_with
marshal_client_key_exchange m =
    marshal_with m.raw m (λ bytes. record m { raw = some bytes })
      (some (with_length type_client_key_exchange m.ciphertext))

unfoldable pub unmarshal_client_key_exchange : List ℕ → Option ClientKeyExchangeMsg
unmarshal_client_key_exchange bytes =
    if ltb (length bytes) 4
    then none
    else if not (read24 bytes 1 == length bytes - 4)
    then none
    else some (record { raw = some bytes; ciphertext = drop 4 bytes })

-- The lifetime hint, bytes 4 to 7, stays 0.
unfoldable pub marshal_new_session_ticket :
    NewSessionTicketMsg → Option (List ℕ × NewSessionTicketMsg)
unfolding marshal_with
marshal_new_session_ticket m =
    marshal_with m.raw m (λ bytes. record m { raw = some bytes })
      (some (
        type_new_session_ticket
        ∷ (uint24 (2 + 4 + length m.ticket)
            ++ (0 ∷ 0 ∷ 0 ∷ 0 ∷ (uint16 (length m.ticket) ++ m.ticket)))))

unfoldable pub unmarshal_new_session_ticket : List ℕ → Option NewSessionTicketMsg
unmarshal_new_session_ticket bytes =
    if ltb (length bytes) 10
    then none
    else if not (sub32 (length bytes) 4 == read24 bytes 1)
    then none
    else if not (length bytes - 10 == read16 bytes 8)
    then none
    else some (record { raw = some bytes; ticket = drop 10 bytes })

-- endOfEarlyDataMsg, serverHelloDoneMsg and helloRequestMsg hold nothing.
abbrev pub marshal_empty : ℕ → List ℕ
marshal_empty typ = typ ∷ 0 ∷ 0 ∷ 0 ∷ []

abbrev pub unmarshal_empty : List ℕ → Bool
unmarshal_empty bytes = length bytes == 4

pub unmarshal-marshal_server_key_exchange :
    (m : ServerKeyExchangeMsg) {bytes : List ℕ} {m' : ServerKeyExchangeMsg}
    → m.raw ≡ none
    → marshal_server_key_exchange m ≡ some (bytes, m')
    → unmarshal_server_key_exchange bytes ≡ some m'
unfolding marshal_server_key_exchange unmarshal_server_key_exchange
unmarshal-marshal_server_key_exchange m fresh e = ground arith

pub unmarshal-marshal_client_key_exchange :
    (m : ClientKeyExchangeMsg) {bytes : List ℕ} {m' : ClientKeyExchangeMsg}
    → m.raw ≡ none
    → length m.ciphertext < 16777216
    → marshal_client_key_exchange m ≡ some (bytes, m')
    → unmarshal_client_key_exchange bytes ≡ some m'
unfolding marshal_client_key_exchange unmarshal_client_key_exchange
unmarshal-marshal_client_key_exchange m fresh small e = ground arith

-- A session ticket of at most 65535 bytes is read back as it is, with the bytes kept.
pub unmarshal-marshal_new_session_ticket :
    (m : NewSessionTicketMsg) {bytes : List ℕ} {m' : NewSessionTicketMsg}
    → m.raw ≡ none
    → length m.ticket < 65536
    → marshal_new_session_ticket m ≡ some (bytes, m')
    → unmarshal_new_session_ticket bytes ≡ some m'
unfolding marshal_new_session_ticket unmarshal_new_session_ticket
unmarshal-marshal_new_session_ticket m fresh small e = ground arith
