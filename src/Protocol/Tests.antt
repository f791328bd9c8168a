-- ===== src/Protocol/Tests.antt =====
-- A request and a response on their way through the sample codec.
use cloud_storage_system.Base.{◌≡◌, some}
use cloud_storage_system.Base.Int.{pos}
use cloud_storage_system.Base.Text.{text}
use cloud_storage_system.Protocol.Requests.{transfer}
use cloud_storage_system.Protocol.Serial.{serialize_request, deserialize_request}
use cloud_storage_system.Protocol.RoundTrip.{deserialize_request-serialize_request}
use cloud_storage_system.Protocol.Sample.{sample_codec, sample_codec-IsLossless}

deserialize_request-serialize_request_example :
    deserialize_request sample_codec (
      serialize_request sample_codec
        (transfer (pos 5) (text "alice") (text "token") (text "acc1") (text "acc2") (pos 30)))
    ≡ some (transfer (pos 5) (text "alice") (text "token") (text "acc1") (text "acc2") (pos 30))
unfolding transfer
deserialize_request-serialize_request_example =
    deserialize_request-serialize_request sample_codec
      (transfer (pos 5) (text "alice") (text "token") (text "acc1") (text "acc2") (pos 30))
      sample_codec-IsLossless tt
