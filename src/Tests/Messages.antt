-- ===== src/Tests/Messages.antt =====
-- The reports, the request and the telemetry at concrete inputs.
use garagelight.Prelude.{
  ℕ, ◌≤◌, ◌≡◌, refl, true, false, [], ◌++◌, some, none, arith, codes, length, take, if◌then◌else◌,
  ltb, negsuc, is_empty,
}
use garagelight.Ota.Base64.{
  basic_authorization, basic_fill, base64_fill, group, b64, unwrap_or, prefix,
}
use garagelight.Ota.Base64.Groups.{encode}
use garagelight.Ota.Base64.Basic.{basic_authorization-encode}
use garagelight.Ota.Url.{Uri}
use garagelight.Ota.Link.Request.{build_request, write_auth, write_pieces, write_str}
use garagelight.Ota.Link.Request.Text.{request_text, build_request-ok}
use garagelight.Sensor.{Sample}
use garagelight.Telemetry.{Ipv4, encode_sample, parse_broker}
use garagelight.Telemetry.Payload.{IsWire, payload, encode_sample-payload}
use garagelight.Telemetry.Broker.{broker_text, parse_broker-text}

basic_authorization-encode_example : take 10 (codes "Basic YTpi..") ≡ prefix ++ encode (codes "a:b")
unfolding basic_authorization basic_fill base64_fill group b64 unwrap_or
    garagelight.Ota.Base64.is_empty
basic_authorization-encode_example =
    basic_authorization-encode (codes "a") (codes "b") (codes "............") 10
      (codes "Basic YTpi..") (omega arith, tt) (omega arith, tt) refl

abbrev home : Uri
home = record { tls = false; host = codes "fw.lan"; port = 80; path = codes "/light" }

build_request-ok_example :
    (request_text [] [] home (codes "version") ≡ request_text [] [] home (codes "version"))
    × (length (request_text [] [] home (codes "version")) ≤ 512)
unfolding build_request write_auth write_pieces write_str is_empty
build_request-ok_example =
    build_request-ok [] [] home (codes "version") (request_text [] [] home (codes "version")) tt tt
      refl

abbrev cold : Sample
cold = record { temperature = negsuc 127; relative_humidity = 255 }

abbrev cold_wire : IsWire cold
cold_wire = record {
  temperature_least = omega arith;
  temperature_most = omega arith;
  humidity_most = omega arith;
}

encode_sample-payload_example :
    (length (payload cold 4_294_967_295) ≤ 54)
    × ((size : ℕ)
        → encode_sample cold 4_294_967_295 size ≡ (
            if ltb size (length (payload cold 4_294_967_295))
            then none
            else some (payload cold 4_294_967_295)))
encode_sample-payload_example = encode_sample-payload cold 4_294_967_295 cold_wire (omega arith)

abbrev broker : Ipv4
broker = record { a = 192; b = 168; c = 0; d = 10 }

parse_broker-text_example : parse_broker (broker_text true broker none) ≡ some (broker, 1883)
parse_broker-text_example =
    parse_broker-text true broker none (omega arith) (omega arith) (omega arith) (omega arith)
      (omega arith) (omega arith)
