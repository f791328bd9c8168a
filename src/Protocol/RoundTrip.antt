-- ===== src/Protocol/RoundTrip.antt =====
-- What is serialised is read back.
use cloud_storage_system.Base.{◌≡◌, refl, some}
use cloud_storage_system.Base.Text.{text_eq}
use cloud_storage_system.Protocol.Json.{Codec, IsLossless, set, find, at, get_int, get_string}
use cloud_storage_system.Protocol.Messages.{
  MessageType, create_account_message, deposit_message, transfer_message, get_balance_message,
  top_spenders_message, schedule_payment_message, cancel_payment_message, merge_accounts_message,
  authenticate_message, heartbeat_message, error_message, unlisted_message, Request, Response,
  message_code, message_of_code, status_code, status_of_code,
}
use cloud_storage_system.Protocol.Serial.{
  request_json, serialize_request, request_of_json, deserialize_request, serialize_response,
  response_of_json, deserialize_response,
}

-- An enumerator names the type.
abbrev pub IsListed : MessageType → Type 0
IsListed (unlisted_message _) = ⊥
IsListed _ = Unit

message_of_code-message_code : (m : MessageType) → IsListed m → message_of_code (message_code m) ≡ m
unfolding message_code message_of_code
message_of_code-message_code create_account_message h = refl
message_of_code-message_code deposit_message h = refl
message_of_code-message_code transfer_message h = refl
message_of_code-message_code get_balance_message h = refl
message_of_code-message_code top_spenders_message h = refl
message_of_code-message_code schedule_payment_message h = refl
message_of_code-message_code cancel_payment_message h = refl
message_of_code-message_code merge_accounts_message h = refl
message_of_code-message_code authenticate_message h = refl
message_of_code-message_code heartbeat_message h = refl
message_of_code-message_code error_message h = refl
message_of_code-message_code (unlisted_message n) h = absurd h

-- A request whose type an enumerator names is read back as it was, if printing and parsing JSON lose
-- nothing.
pub deserialize_request-serialize_request :
    (c : Codec) (r : Request)
    → IsLossless c
    → IsListed r.type
    → deserialize_request c (serialize_request c r) ≡ some r
unfolding serialize_request request_json deserialize_request request_of_json set find at get_int
    get_string text_eq
deserialize_request-serialize_request c r lossless listed =
    rw (lossless.reads_back _, message_of_code-message_code r.type listed) refl

-- A response whose status an enumerator names is read back as it was, if printing and parsing JSON
-- lose nothing.
pub deserialize_response-serialize_response :
    (c : Codec) (r : Response)
    → IsLossless c
    → status_of_code (status_code r.status) ≡ r.status
    → deserialize_response c (serialize_response c r) ≡ some r
unfolding serialize_response deserialize_response response_of_json set find at get_int get_string
    text_eq
deserialize_response-serialize_response c r lossless listed =
    rw (lossless.reads_back _, listed) refl
