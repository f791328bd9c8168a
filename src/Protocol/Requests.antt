-- ===== src/Protocol/Requests.antt =====
-- The builders of class Request (network/protocol.cpp).
use cloud_storage_system.Base.{[]}
use cloud_storage_system.Base.Int.{ℤ}
use cloud_storage_system.Base.Text.{Text, text}
use cloud_storage_system.Protocol.Json.{integer, string, object, end, set}
use cloud_storage_system.Protocol.Messages.{
  Request, create_account_message, deposit_message, transfer_message, get_balance_message,
  top_spenders_message, schedule_payment_message, cancel_payment_message, merge_accounts_message,
  authenticate_message, heartbeat_message,
}

unfoldable pub create_account : ℤ → Text → Text → Text → Request
create_account timestamp client_id session_token account_id = record {
  type = create_account_message;
  timestamp = timestamp;
  client_id = client_id;
  session_token = session_token;
  payload = object (set (text "account_id") (string account_id) end);
}

unfoldable pub deposit : ℤ → Text → Text → Text → ℤ → Request
deposit timestamp client_id session_token account_id amount = record {
  type = deposit_message;
  timestamp = timestamp;
  client_id = client_id;
  session_token = session_token;
  payload =
      object
        (set (text "amount") (integer amount) (set (text "account_id") (string account_id) end));
}

unfoldable pub transfer : ℤ → Text → Text → Text → Text → ℤ → Request
transfer timestamp client_id session_token source_account target_account amount = record {
  type = transfer_message;
  timestamp = timestamp;
  client_id = client_id;
  session_token = session_token;
  payload = object (
      set (text "amount") (integer amount) (
        set (text "target_account") (string target_account)
          (set (text "source_account") (string source_account) end)));
}

unfoldable pub get_balance : ℤ → Text → Text → Text → ℤ → Request
get_balance timestamp client_id session_token account_id time_at = record {
  type = get_balance_message;
  timestamp = timestamp;
  client_id = client_id;
  session_token = session_token;
  payload =
      object
        (set (text "time_at") (integer time_at) (set (text "account_id") (string account_id) end));
}

unfoldable pub top_spenders : ℤ → Text → Text → ℤ → Request
top_spenders timestamp client_id session_token n = record {
  type = top_spenders_message;
  timestamp = timestamp;
  client_id = client_id;
  session_token = session_token;
  payload = object (set (text "n") (integer n) end);
}

unfoldable pub schedule_payment : ℤ → Text → Text → Text → ℤ → ℤ → Request
schedule_payment timestamp client_id session_token account_id amount delay = record {
  type = schedule_payment_message;
  timestamp = timestamp;
  client_id = client_id;
  session_token = session_token;
  payload = object (
      set (text "delay") (integer delay)
        (set (text "amount") (integer amount) (set (text "account_id") (string account_id) end)));
}

unfoldable pub cancel_payment : ℤ → Text → Text → Text → Text → Request
cancel_payment timestamp client_id session_token account_id payment_id = record {
  type = cancel_payment_message;
  timestamp = timestamp;
  client_id = client_id;
  session_token = session_token;
  payload = object (
      set (text "payment_id") (string payment_id)
        (set (text "account_id") (string account_id) end));
}

unfoldable pub merge_accounts : ℤ → Text → Text → Text → Text → Request
merge_accounts timestamp client_id session_token account_id_1 account_id_2 = record {
  type = merge_accounts_message;
  timestamp = timestamp;
  client_id = client_id;
  session_token = session_token;
  payload = object (
      set (text "account_id_2") (string account_id_2)
        (set (text "account_id_1") (string account_id_1) end));
}

unfoldable pub authenticate : ℤ → Text → Text → Request
authenticate timestamp username password = record {
  type = authenticate_message;
  timestamp = timestamp;
  client_id = [];
  session_token = [];
  payload =
      object
        (set (text "password") (string password) (set (text "username") (string username) end));
}

unfoldable pub heartbeat : ℤ → Text → Request
heartbeat timestamp client_id = record {
  type = heartbeat_message;
  timestamp = timestamp;
  client_id = client_id;
  session_token = [];
  payload = object end;
}
