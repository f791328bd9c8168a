-- ===== src/Protocol/Responses.antt =====
-- The builders of class Response (network/protocol.cpp).
use cloud_storage_system.Base.{List}
use cloud_storage_system.Base.Int.{ℤ}
use cloud_storage_system.Base.Text.{Text, text}
use cloud_storage_system.Protocol.Json.{
  Json, null, integer, string, array, object, end, set, items_of,
}
use cloud_storage_system.Protocol.Messages.{Status, success_status, Response}

unfoldable pub success : Text → ℤ → Json → Response
success message timestamp payload = record {
  status = success_status;
  message = message;
  timestamp = timestamp;
  payload = payload;
}

unfoldable pub error : Status → Text → ℤ → Response
error status message timestamp = record {
  status = status;
  message = message;
  timestamp = timestamp;
  payload = object end;
}

unfoldable pub account_created : Text → ℤ → Response
account_created account_id timestamp =
    success (text "Account created successfully") timestamp
      (object (set (text "account_id") (string account_id) end))

unfoldable pub deposit_result : ℤ → ℤ → Response
deposit_result new_balance timestamp =
    success (text "Deposit successful") timestamp
      (object (set (text "balance") (integer new_balance) end))

unfoldable pub transfer_result : ℤ → ℤ → Response
transfer_result new_source_balance timestamp =
    success (text "Transfer successful") timestamp
      (object (set (text "source_balance") (integer new_source_balance) end))

unfoldable pub balance_result : ℤ → ℤ → Response
balance_result balance timestamp =
    success (text "Balance retrieved") timestamp
      (object (set (text "balance") (integer balance) end))

unfoldable pub top_spenders_result : List Text → ℤ → Response
top_spenders_result spenders timestamp =
    success (text "Top spenders retrieved") timestamp
      (object (set (text "spenders") (array (items_of spenders)) end))

unfoldable pub payment_scheduled : Text → ℤ → Response
payment_scheduled payment_id timestamp =
    success (text "Payment scheduled") timestamp
      (object (set (text "payment_id") (string payment_id) end))

unfoldable pub payment_cancelled : ℤ → Response
payment_cancelled timestamp = success (text "Payment cancelled") timestamp null

unfoldable pub accounts_merged : ℤ → Response
accounts_merged timestamp = success (text "Accounts merged") timestamp null

unfoldable pub authenticated : Text → ℤ → Response
authenticated session_token timestamp =
    success (text "Authentication successful") timestamp
      (object (set (text "session_token") (string session_token) end))
