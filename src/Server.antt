-- ===== src/Server.antt =====
-- BankingServer::handleRequest (banking_server.cpp): sessions, and what is queued.
pub mod Sessions
pub mod Login
mod Tests
use cloud_storage_system.Base.{
  Bool, true, false, ◌||◌, not, Option, none, some, List, [], ◌∷◌, ◌++◌, if◌then◌else◌, ◌>>=◌,
  get_or,
}
use cloud_storage_system.Base.Int.{ℤ, pos, ltb_ℤ}
use cloud_storage_system.Base.Text.{Text, text, text_eq, to_string}
use cloud_storage_system.Base.Dict.{Dict, lookup, insert}
use cloud_storage_system.Protocol.Json.{
  Json, null, object, at, get_int, get_string, Codec, Fields, end, field,
}
use cloud_storage_system.Protocol.Messages.{
  MessageType, deposit_message, transfer_message, schedule_payment_message, authenticate_message,
  heartbeat_message, message_code, error_status, unauthorized_status, Request, Response,
}
use cloud_storage_system.Protocol.Responses.{error, success, authenticated}
use cloud_storage_system.Protocol.Serial.{deserialize_request, serialize_response}

-- ai::TransactionData, as extractTransactionData fills it.
pub record TransactionData : Type 0 where
  pub account_id : Text
  pub transaction_type : Text
  pub amount : ℤ
  pub timestamp : ℤ
  pub source_ip : Text
  pub location : Text
  pub metadata : Dict Text

-- What handleRequest changes: the sessions, the queue of the transaction processor, and that of the
-- fraud agent.
pub record Server : Type 0 where
  pub active_sessions : Dict Text
  pub transactions : List Text
  pub analysed : List TransactionData

unfoldable pub is_authenticate : MessageType → Bool
is_authenticate authenticate_message = true
is_authenticate _ = false

unfoldable pub is_heartbeat : MessageType → Bool
is_heartbeat heartbeat_message = true
is_heartbeat _ = false

unfoldable pub is_financial : MessageType → Bool
is_financial transfer_message = true
is_financial deposit_message = true
is_financial schedule_payment_message = true
is_financial _ = false

unfoldable pub is_authorized : Request → Server → Bool
is_authorized request s = elim (lookup request.client_id s.active_sessions) [
  | none ↦ false
  | some token ↦ text_eq token request.session_token
]

unfoldable pub token_of : Text → ℤ → Text
token_of client_id timestamp = text "session_" ++ (client_id ++ (text "_" ++ to_string timestamp))

abbrev pub new_token : Request → Text
new_token request = token_of request.client_id request.timestamp

-- payload.contains(key): only an object contains keys.
unfoldable pub find_field : Text → Fields → Option Json
find_field k end = none
find_field k (field j v fs) = if text_eq j k then some v else find_field k fs

unfoldable pub contained : Text → Json → Option Json
contained k (object fs) = find_field k fs
contained k _ = none

-- The switch of extractTransactionData; no result where reading the amount throws. Without a key
-- `amount` the code's read of a const object is undefined, and is counted as throwing here.
unfoldable pub type_and_amount : MessageType → Json → Option (Text × ℤ)
type_and_amount deposit_message payload =
    at (text "amount") payload >>= λ a. get_int a >>= λ x. some (text "DEPOSIT", x)
type_and_amount transfer_message payload =
    at (text "amount") payload >>= λ a. get_int a >>= λ x. some (text "TRANSFER", x)
type_and_amount schedule_payment_message payload =
    at (text "amount") payload >>= λ a. get_int a >>= λ x. some (text "PAYMENT", x)
type_and_amount _ payload = some (text "UNKNOWN", pos 0)

unfoldable pub extract_transaction_data : Request → Option TransactionData
extract_transaction_data request = do
  kind ← type_and_amount request.type request.payload
  account_id ← elim (contained (text "account_id") request.payload) [
    | none ↦ some request.client_id
    | some v ↦ get_string v
  ]
  some record {
    account_id = account_id;
    transaction_type = kind.0;
    amount = kind.1;
    timestamp = request.timestamp;
    source_ip = [];
    location = [];
    metadata = (text "operation", to_string (message_code request.type)) ∷ [];
  }

-- The answer in the catch block.
unfoldable pub failure : Response
failure = error error_status (text "Request processing failed") (pos 0)

-- The part of handleRequest for a request that is to be processed. An exception of
-- extractTransactionData comes after the transaction is queued.
unfoldable pub submit : Text → Request → Server → Server × Response
submit request_json request s =
    let s' = record s { transactions = s.transactions ++ request_json ∷ [] } in
    let queued = success (text "Request queued for processing") request.timestamp null in
    if is_financial request.type
    then elim (extract_transaction_data request) [
      | none ↦ (s', failure)
      | some tx_data ↦ (record s' { analysed = s'.analysed ++ tx_data ∷ [] }, queued)
    ]
    else (s', queued)

-- handleRequest past the deserialisation.
unfoldable pub handle : Text → Request → Server → Server × Response
handle request_json request s =
    if not (is_authenticate request.type || (is_heartbeat request.type || is_authorized request s))
    then (s, error unauthorized_status (text "Invalid session") request.timestamp)
    else (if is_authenticate request.type
        then (
          record s {
            active_sessions = insert request.client_id (new_token request) s.active_sessions;
          },
          authenticated (new_token request) request.timestamp,
        )
        else (if is_heartbeat request.type
            then (s, success (text "Heartbeat acknowledged") request.timestamp null)
            else submit request_json request s))

unfoldable pub handle_request : Codec → Text → Server → Server × Text
handle_request c request_json s = elim (deserialize_request c request_json) [
  | none ↦ (s, serialize_response c failure)
  | some request ↦
      (let (s', response) = handle request_json request s in (s', serialize_response c response))
]
