-- ===== src/Server/Tests.antt =====
-- Small requests, and the theorems of this component applied to them.
use cloud_storage_system.Base.{[], ◌∷◌}
use cloud_storage_system.Base.Int.{pos}
use cloud_storage_system.Base.Text.{text}
use cloud_storage_system.Base.Lists.{All}
use cloud_storage_system.Protocol.Messages.{Request, authenticate_message}
use cloud_storage_system.Protocol.Requests.{deposit}
use cloud_storage_system.Protocol.Json.{object, end}
use cloud_storage_system.Protocol.Sample.{sample_codec}
use cloud_storage_system.Protocol.Serial.{serialize_request}
use cloud_storage_system.Base.{◌≡◌, refl}
use cloud_storage_system.Base.Text.{to_string}
use cloud_storage_system.Server.{token_of, handle, is_authenticate, is_heartbeat}
use cloud_storage_system.Server.Login.{handle-session}
use cloud_storage_system.Server.Sessions.{idle, serve, IsAdmitted, serve-IsAdmitted}

-- A request for a session that names its client.
abbrev named_login : Request
named_login = record {
  type = authenticate_message;
  timestamp = pos 7;
  client_id = text "alice";
  session_token = [];
  payload = object end;
}

abbrev first_deposit : Request
first_deposit = deposit (pos 8) (text "alice") (text "session_alice_7") (text "acc1") (pos 10)

serve-IsAdmitted_example :
    All
      (IsAdmitted sample_codec)
      (serve sample_codec
        (serialize_request sample_codec named_login
          ∷ serialize_request sample_codec first_deposit
          ∷ [])
        idle).transactions
serve-IsAdmitted_example =
    serve-IsAdmitted sample_codec (
      serialize_request sample_codec named_login
      ∷ serialize_request sample_codec first_deposit
      ∷ [])

handle-session_example :
    (handle
      (text "deposit")
      first_deposit
      (handle (text "login") named_login idle).0).0.transactions
    ≡ text "deposit" ∷ []
unfolding is_authenticate is_heartbeat deposit token_of to_string
handle-session_example =
    handle-session (text "login") (text "deposit") named_login first_deposit idle refl refl refl
      refl refl
