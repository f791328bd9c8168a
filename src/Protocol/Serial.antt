-- ===== src/Protocol/Serial.antt =====
-- serializeRequest, deserializeRequest, serializeResponse and deserializeResponse
-- (network/protocol.cpp). No result stands for an exception.
use cloud_storage_system.Base.{Option, some, ◌>>=◌}
use cloud_storage_system.Base.Text.{Text, text}
use cloud_storage_system.Protocol.Json.{
  Json, integer, string, object, end, set, at, get_int, get_string, Codec,
}
use cloud_storage_system.Protocol.Messages.{
  Request, Response, message_code, message_of_code, status_code, status_of_code,
}

unfoldable pub request_json : Request → Json
request_json request = object (
    set (text "payload") request.payload (
      set (text "session_token") (string request.session_token) (
        set (text "client_id") (string request.client_id) (
          set (text "timestamp") (integer request.timestamp)
            (set (text "type") (integer (message_code request.type)) end)))))

unfoldable pub serialize_request : Codec → Request → Text
serialize_request c request = c.dump (request_json request)

unfoldable pub request_of_json : Json → Option Request
request_of_json j = do
  type ← (at (text "type") j >>= get_int)
  timestamp ← (at (text "timestamp") j >>= get_int)
  client_id ← (at (text "client_id") j >>= get_string)
  session_token ← (at (text "session_token") j >>= get_string)
  payload ← at (text "payload") j
  some record {
    type = message_of_code type;
    timestamp = timestamp;
    client_id = client_id;
    session_token = session_token;
    payload = payload;
  }

unfoldable pub deserialize_request : Codec → Text → Option Request
deserialize_request c json_str = c.parse json_str >>= request_of_json

unfoldable pub serialize_response : Codec → Response → Text
serialize_response c response = c.dump (
    object (
      set (text "payload") response.payload (
        set (text "timestamp") (integer response.timestamp) (
          set (text "message") (string response.message)
            (set (text "status") (integer (status_code response.status)) end)))))

unfoldable pub response_of_json : Json → Option Response
response_of_json j = do
  status ← (at (text "status") j >>= get_int)
  message ← (at (text "message") j >>= get_string)
  timestamp ← (at (text "timestamp") j >>= get_int)
  payload ← at (text "payload") j
  some record {
    status = status_of_code status;
    message = message;
    timestamp = timestamp;
    payload = payload;
  }

unfoldable pub deserialize_response : Codec → Text → Option Response
deserialize_response c json_str = c.parse json_str >>= response_of_json
