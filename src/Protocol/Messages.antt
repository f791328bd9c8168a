-- ===== src/Protocol/Messages.antt =====
-- The message types, the response statuses, and the two structures of network/protocol.hpp. The code
-- treats a payload as a JSON object throughout, and so does this model.
use cloud_storage_system.Base.{◌==◌, if◌then◌else◌}
use cloud_storage_system.Base.Int.{ℤ, pos, negsuc}
use cloud_storage_system.Base.Text.{Text}
use cloud_storage_system.Protocol.Json.{Json}

-- enum class MessageType. A static_cast can make a value that no enumerator names.
pub data MessageType : Type 0 where
  create_account_message : MessageType
  deposit_message : MessageType
  transfer_message : MessageType
  get_balance_message : MessageType
  top_spenders_message : MessageType
  schedule_payment_message : MessageType
  cancel_payment_message : MessageType
  merge_accounts_message : MessageType
  authenticate_message : MessageType
  heartbeat_message : MessageType
  error_message : MessageType
  unlisted_message : ℤ → MessageType

-- static_cast<int>(type)
unfoldable pub message_code : MessageType → ℤ
message_code create_account_message = pos 0
message_code deposit_message = pos 1
message_code transfer_message = pos 2
message_code get_balance_message = pos 3
message_code top_spenders_message = pos 4
message_code schedule_payment_message = pos 5
message_code cancel_payment_message = pos 6
message_code merge_accounts_message = pos 7
message_code authenticate_message = pos 8
message_code heartbeat_message = pos 9
message_code error_message = pos 10
message_code (unlisted_message n) = n

-- static_cast<MessageType>(n)
unfoldable pub message_of_code : ℤ → MessageType
message_of_code (negsuc n) = unlisted_message (negsuc n)
message_of_code (pos n) =
    if n == 0
    then create_account_message
    else (if n == 1
        then deposit_message
        else (if n == 2
            then transfer_message
            else (if n == 3
                then get_balance_message
                else (if n == 4
                    then top_spenders_message
                    else (if n == 5
                        then schedule_payment_message
                        else (if n == 6
                            then cancel_payment_message
                            else (if n == 7
                                then merge_accounts_message
                                else (if n == 8
                                    then authenticate_message
                                    else (if n == 9
                                        then heartbeat_message
                                        else (if n == 10
                                            then error_message
                                            else (unlisted_message (pos n))))))))))))

-- enum class Status
pub data Status : Type 0 where
  success_status : Status
  error_status : Status
  invalid_request_status : Status
  unauthorized_status : Status
  account_not_found_status : Status
  insufficient_funds_status : Status
  unlisted_status : ℤ → Status

-- static_cast<int>(status)
unfoldable pub status_code : Status → ℤ
status_code success_status = pos 0
status_code error_status = pos 1
status_code invalid_request_status = pos 2
status_code unauthorized_status = pos 3
status_code account_not_found_status = pos 4
status_code insufficient_funds_status = pos 5
status_code (unlisted_status n) = n

-- static_cast<Status>(n)
unfoldable pub status_of_code : ℤ → Status
status_of_code (negsuc n) = unlisted_status (negsuc n)
status_of_code (pos n) =
    if n == 0
    then success_status
    else (if n == 1
        then error_status
        else (if n == 2
            then invalid_request_status
            else (if n == 3
                then unauthorized_status
                else (if n == 4
                    then account_not_found_status
                    else (if n == 5
                        then insufficient_funds_status
                        else (unlisted_status (pos n)))))))

-- struct Request
pub record Request : Type 0 where
  pub type : MessageType
  pub timestamp : ℤ
  pub client_id : Text
  pub session_token : Text
  pub payload : Json

-- struct Response
pub record Response : Type 0 where
  pub status : Status
  pub message : Text
  pub timestamp : ℤ
  pub payload : Json
