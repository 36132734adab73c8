-- ===== src/Tests.antt =====
-- The properties of topics, the cache and the pipeline on concrete data.
mod Transforming
mod Configuring
mod Queues
mod Sinking
use ingestion_service.Common.{
  ℕ, ℤ, ◌+◌, ◌-◌, ◌≤◌, ◌≡◌, refl, ◌↔◌, inr, Bool, true, false, none, some, [], ◌∷◌, ok, err, length,
  ltb, arith, if◌then◌else◌,
}
use ingestion_service.Wal.Append.{Sending, AckRead}
use ingestion_service.Model.Messages.{
  MessageType, Str, HandledMessage, SensorMessage, SensorData, StatusMessage, status_message,
}
use ingestion_service.Model.Topic.{
  TopicPattern, lit, one, matches, split, normalize, trim_matches, drop_while, reverse,
  is_whitespace, cons_part, str_eq, match_from,
}
use ingestion_service.Model.Topic.Matching.{Matches, matches_iff}
use ingestion_service.Cache.{
  CacheState, normalize_device_id, update_sensor, snapshot_sensor, to_ascii_lowercase,
}
use ingestion_service.Cache.Bounded.{update_sensor-bounded}
use ingestion_service.Cache.Http.{IsShown, update_sensor-IsShown}
use ingestion_service.Pipeline.Library.{Library}
use ingestion_service.Pipeline.Router.{
  Router, validate_raw, first_match, validate_route, validate_time_iso_rfc3339,
  message_type_for_topic, deserialize,
}
use ingestion_service.Pipeline.Router.Dispatch.{IsMessage, validate_raw-deserialize}
use ingestion_service.Pipeline.Context.{
  PipelineContext, StageName, payload_utf8_missing, should_publish_dlq, mark_dlq, stage_failed,
}
use ingestion_service.Pipeline.Runner.{Stage, continue, run}
use ingestion_service.Pipeline.Runner.Flow.{here, next, run-stops}
use ingestion_service.Pipeline.Stages.{World}

-- "/a/+/" and "a/b"
abbrev a_plus : Str
a_plus = b'/' ∷ b'a' ∷ b'/' ∷ b'+' ∷ b'/' ∷ []

abbrev pub a_b : Str
a_b = b'a' ∷ b'/' ∷ b'b' ∷ []

abbrev pub a_plus_pattern : TopicPattern
a_plus_pattern = record { segments = lit (b'a' ∷ []) ∷ one ∷ []; device_id_index = some 1 }

matches_iff_example :
    (matches a_plus_pattern a_b ≡ true)
    ↔ Matches (lit (b'a' ∷ []) ∷ one ∷ []) (split (normalize a_b))
matches_iff_example = matches_iff a_plus_pattern a_b

abbrev pub values_of : ℕ → SensorData ℕ
values_of n = record {
  temp_c = n;
  rel_hum_perc = n;
  pressure_hpa = n;
  gas_ohm = n;
  iaq_score = n;
  iaq_text = [];
  dew_point_c = n;
  heat_index_c = n;
  altitude_m = n;
}

abbrev pub message_of : Str → ℕ → SensorMessage ℕ
message_of id n = record {
  device_id = id;
  room = [];
  device_class = [];
  fw_version = [];
  time_ms = ℤ.pos 0;
  time_iso = [];
  time_valid = true;
  boot_id = none;
  seq = none;
  warmed_up = none;
  replayed = false;
  values = values_of n;
}

-- A cache for one sensor, which holds "a".
abbrev pub full_cache : CacheState ℕ
full_cache = record {
  sensors = (b'a' ∷ [], record { last_seen_ms = 5; value = values_of 1 }) ∷ [];
  ttl_ms = 100;
  max_sensors = 1;
  events = [];
}

update_sensor-bounded_example :
    length (update_sensor 9 (message_of (b'B' ∷ []) 2) full_cache).sensors ≤ 1
update_sensor-bounded_example =
    update_sensor-bounded 9 (message_of (b'B' ∷ []) 2) full_cache (omega arith) (omega arith)

b_normalized : normalize_device_id (b' ' ∷ b'b' ∷ []) ≡ normalize_device_id (b'B' ∷ [])
unfolding normalize_device_id to_ascii_lowercase trim_matches drop_while reverse is_whitespace
b_normalized = refl

update_sensor-IsShown_example :
    IsShown ℕ 9 200
      (message_of (b'B' ∷ []) 2)
      (b' ' ∷ b'b' ∷ [])
      full_cache
      (update_sensor 9 (message_of (b'B' ∷ []) 2) full_cache)
update_sensor-IsShown_example =
    update_sensor-IsShown ℕ 9 200 (message_of (b'B' ∷ []) 2) (b' ' ∷ b'b' ∷ []) full_cache
      b_normalized

-- JSON values are strings, and a schema is what it answers.
abbrev library : Library
library = record {
  F64 = ℕ;
  Value = Str;
  Schema = Bool;
  from_utf8 = λ b. some b;
  from_str = λ s. some s;
  str_field = λ v k. none;
  is_valid = λ s v. s;
  parses_as_rfc3339 = λ s. true;
  sensor_from_value = λ v. none;
  status_from_value = λ v. none;
  sensor_to_value = λ m. some [];
  status_to_value = λ m. some [];
}

abbrev pub some_status : StatusMessage
some_status = record {
  device_id = b'a' ∷ [];
  device_class = [];
  fw_version = [];
  ip = [];
  rssi = ℤ.pos 0;
  time_ms = ℤ.pos 0;
  time_iso = [];
  time_valid = true;
  uptime = ℤ.pos 0;
  free_mem = ℤ.pos 0;
  ssid = [];
  queued = none;
  dropped_total = none;
  samples_failed_total = none;
  mqtt_connects_total = none;
  sensor_read_failures_total = none;
  reset_reason = none;
}

abbrev handled : PipelineContext library
handled = record {
  topic = a_b;
  raw_payload = [];
  payload_utf8 = none;
  payload_json = some [];
  handled_message = some (status_message some_status);
  dlq_reason = none;
  ignored_reason = none;
}

abbrev full_queue : World library
full_queue = record {
  sending = Sending.queue_full;
  ack = AckRead.dropped;
  cached_at_ms = 8;
  now_ms = 9;
  offered = [];
  durable = [];
  published = [];
  cache = full_cache;
}

abbrev encode : HandledMessage ℕ → Str
encode m = b'x' ∷ []

-- Stages over a counter: one that counts, and one that fails.
abbrev counting : Stage library ℕ
counting = record { name = StageName.observe; run = λ ctx n. (ok continue, ctx, n + 1) }

abbrev failing : Stage library ℕ
failing = record { name = StageName.decode; run = λ ctx n. (err payload_utf8_missing, ctx, n) }

abbrev marked : PipelineContext library
marked = mark_dlq library (stage_failed StageName.decode payload_utf8_missing) handled

run-stops_example :
    run library
      (record { stages = counting ∷ failing ∷ counting ∷ []; failure_stage = some counting })
      handled
      0
    ≡ (if should_publish_dlq library marked then (marked, 2) else (marked, 1))
run-stops_example =
    run-stops library (counting ∷ []) (counting ∷ []) failing counting handled handled marked 0 1 1
      (next counting [] handled handled handled 0 1 1 refl (here handled 1))
      (inr (payload_utf8_missing, handled, refl, refl))

abbrev one_route : Router library
one_route = record {
  routes =
      record { message_type = MessageType.status; pattern' = a_plus_pattern; schema = true } ∷ [];
  strict = true;
}

a_b_validated : validate_raw library one_route a_b [] false ≡ ok (some MessageType.status)
unfolding validate_raw first_match validate_route validate_time_iso_rfc3339 matches match_from
    normalize trim_matches drop_while reverse is_whitespace split cons_part str_eq
a_b_validated = refl

validate_raw-deserialize_example :
    (message_type_for_topic library one_route a_b ≡ some MessageType.status)
    × IsMessage library MessageType.status (deserialize library one_route a_b (b'x' ∷ []))
validate_raw-deserialize_example =
    validate_raw-deserialize library one_route a_b [] false MessageType.status (b'x' ∷ [])
      a_b_validated
