-- ===== src/Tests/Sinking.antt =====
-- The sink on concrete points, batches and answers.
use ingestion_service.Common.{
  ℕ, ◌+◌, ◌-◌, ◌*◌, ◌%◌, ◌≡◌, refl, ℤ, Bool, false, ◌&&◌, some, [], ◌∷◌, ◌++◌, map, take, ltb, leb,
  arith,
}
use ingestion_service.Wal.Types.{WalEvent}
use ingestion_service.Model.Messages.{Str, SensorMessage, sensor_message}
use ingestion_service.Sink.Point.{
  Point, str, line_of, esc_measurement, esc_tag_key, esc_string_field,
}
use ingestion_service.Sink.Point.Reading.{Line, read_one_line}
use ingestion_service.Sink.Point.RoundTrip.{IsPlain}
use ingestion_service.Sink.Point.Newlines.{newlines, Passes, in_tags, in_fields, newlines-line_of}
use ingestion_service.Sink.Influx.{failed, status, encode, build_body, write}
use ingestion_service.Sink.Influx.Names.{device_status, device_id, ssid}
use ingestion_service.Sink.Influx.Attempts.{first_decisive, tries, all_attempts, write-decides}
use ingestion_service.Sink.Influx.Encoded.{IsSensorLine, encode-IsSensorLine}
use ingestion_service.Sink.Influx.Body.{lines, build_body-lines}
use ingestion_service.Tests.{message_of}

abbrev show_digit : ℕ → Str
show_digit n = (b'0' + n % 10) ∷ []

show_digit-IsPlain : (n : ℕ) → IsPlain (show_digit n)
show_digit-IsPlain n = (ground arith, tt)

-- A sensor that says that it is cold, in "a, b=c".
abbrev cold : SensorMessage ℕ
cold = record (message_of (b'a' ∷ b',' ∷ b' ' ∷ b'b' ∷ b'=' ∷ b'c' ∷ []) 7) {
  warmed_up = some false;
  time_ms = ℤ.pos 5;
}

encode-IsSensorLine_example :
    (line : Str) × (l : Line) × (encode show_digit (sensor_message cold) [] ≡ [] ++ line)
    × (read_one_line line ≡ some l)
    × IsSensorLine show_digit show_digit-IsPlain cold l
encode-IsSensorLine_example = encode-IsSensorLine show_digit show_digit-IsPlain cold [] refl

abbrev event_of : Str → WalEvent
event_of payload = record { topic = []; ts_ms = ℤ.pos 0; payload = payload }

build_body-lines_example :
    lines (build_body (event_of (b'a' ∷ []) ∷ event_of (b'b' ∷ b'c' ∷ []) ∷ []))
    ≡ map (λ (v : WalEvent). v.payload) (event_of (b'a' ∷ []) ∷ event_of (b'b' ∷ b'c' ∷ []) ∷ [])
build_body-lines_example =
    build_body-lines (event_of (b'a' ∷ [])) (event_of (b'b' ∷ b'c' ∷ []) ∷ [])
      ((refl, λ e. cc e), ((refl, λ e. cc e), tt))

abbrev is_success : ℕ → Bool
is_success code = leb 200 code && ltb code 300

abbrev is_client_error : ℕ → Bool
is_client_error code = leb 400 code && ltb code 500

-- No answer, then "too many requests", then "bad request".
write-decides_example :
    write is_success is_client_error
      (event_of (b'a' ∷ []) ∷ [])
      (failed ∷ status 429 ∷ status 400 ∷ [])
    ≡ (
      some (first_decisive is_success is_client_error (failed ∷ status 429 ∷ status 400 ∷ [])),
      take
          (2 * tries is_success is_client_error (failed ∷ status 429 ∷ status 400 ∷ []) - 1)
          (all_attempts is_success is_client_error (build_body (event_of (b'a' ∷ []) ∷ []))),
    )
write-decides_example =
    write-decides is_success is_client_error (event_of (b'a' ∷ [])) [] failed (status 429)
      (status 400) []

-- A device with a newline in its name.
abbrev broken : Point ℕ
broken = record {
  measurement = device_status;
  tags = (device_id, b'a' ∷ 10 ∷ b'b' ∷ []) ∷ [];
  fields = (ssid, str []) ∷ [];
  timestamp_ms = some (ℤ.pos 5);
}

show_digit-line : (n : ℕ) → newlines (show_digit n) ≡ 0
show_digit-line n = ground arith

newlines-line_of_example :
    Passes esc_measurement
    × Passes esc_tag_key
    × Passes esc_string_field
    × (newlines (line_of show_digit broken)
        ≡ newlines broken.measurement
          + in_tags broken.tags
          + in_fields show_digit show_digit-line broken.fields)
newlines-line_of_example = newlines-line_of show_digit show_digit-line broken

-- That line is two.
broken_in_two :
    newlines broken.measurement
      + in_tags broken.tags
      + in_fields show_digit show_digit-line broken.fields
    ≡ 1
broken_in_two = refl
