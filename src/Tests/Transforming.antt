-- ===== src/Tests/Transforming.antt =====
-- The transformation, and the whole pipeline, on JSON objects whose numbers are natural.
use ingestion_service.Common.{
  List, ℕ, ◌+◌, ◌-◌, ◌*◌, ◌/◌, ◌^◌, ◌≡◌, refl, subst, ℤ, Bool, true, false, Option, none, some, [],
  ◌∷◌, ok, ltb, leb, if◌then◌else◌, ◌↔◌,
}
use ingestion_service.Wal.Append.{Sending, AckRead}
use ingestion_service.Model.Messages.{Str, MessageType}
use ingestion_service.Model.Topic.{is_whitespace, trim_matches, drop_while, reverse, str_eq}
use ingestion_service.Pipeline.Library.{Library}
use ingestion_service.Pipeline.Floats.{Floats}
use ingestion_service.Pipeline.Json.{Json}
use ingestion_service.Pipeline.Context.{new, raw_validation_failed}
use ingestion_service.Pipeline.Router.{RouteError, first_match}
use ingestion_service.Pipeline.Router.Build.{build_router, add_routes, type_of_key}
use ingestion_service.Pipeline.Runner.{run}
use ingestion_service.Pipeline.Stages.{World, decode_payload}
use ingestion_service.Pipeline.Stages.Outcome.{IsDeadLetter}
use ingestion_service.Pipeline.Stages.Fate.Unrouted.{run-unrouted}
use ingestion_service.Pipeline.Stages.Fate.{Setup, pipeline, Fate}
use ingestion_service.Pipeline.Transform.{
  then_write, Readings, set_field, trim_root_string, trim_all, transform_status_payload,
  required_f64_from_object, set_f64_in_object, read_data, write_data, transform_data,
  transform_sensor_payload,
}
use ingestion_service.Pipeline.Transform.Keys.{
  device_id, data', uptime, temp_c, rel_hum_perc, pressure_hpa, gas_ohm, altitude_m,
}
use ingestion_service.Pipeline.Transform.Fields.{trimmed, has_key, defaulted}
use ingestion_service.Pipeline.Transform.Data.{IsSafe, AreFinite, transform_data_iff}
use ingestion_service.Pipeline.Transform.Status.{status_field, transform_status_payload-fields}
use ingestion_service.Pipeline.Transform.Sensor.{
  IsTransformed, transform_sensor_payload-IsTransformed,
}
use ingestion_service.Tests.{a_plus_pattern, a_b, some_status, full_cache}

mutual
  pub data Val : Type 0 where
    text : Str → Val
    number : ℕ → Val
    integer : ℤ → Val
    object : Fields → Val

  pub data Fields : Type 0 where
    nothing : Fields
    with_field : Str → Val → Fields → Fields

abbrev get_field : Fields → Str → Option Val
get_field nothing k = none
get_field (with_field key v fs) k = if str_eq key k then some v else get_field fs k

abbrev text_of : Val → Option Str
text_of (text s) = some s
text_of (number n) = none
text_of (integer z) = none
text_of (object fs) = none

abbrev number_of : Val → Option ℕ
number_of (number n) = some n
number_of (text s) = none
number_of (integer z) = none
number_of (object fs) = none

abbrev fields_of : Val → Option Fields
fields_of (object fs) = some fs
fields_of (text s) = none
fields_of (number n) = none
fields_of (integer z) = none

abbrev one_text : Str → Val
one_text s = object (with_field device_id (text s) nothing)

-- A text is a JSON object with that text as its device.
abbrev json_library : Library
json_library = record {
  F64 = ℕ;
  Value = Val;
  Schema = Bool;
  from_utf8 = λ b. some b;
  from_str = λ s. some (one_text s);
  str_field = λ v k. none;
  is_valid = λ s v. s;
  parses_as_rfc3339 = λ s. true;
  sensor_from_value = λ v. none;
  status_from_value = λ v. some some_status;
  sensor_to_value = λ m. none;
  status_to_value = λ m. some (one_text []);
}

read_back : (x : ℕ) (v : Val) → some (number x) ≡ some v → number_of v ≡ some x
read_back x v h = let same : number x ≡ v = cc h in subst (λ u. number_of u ≡ some x) same refl

abbrev json : Json json_library
json = record {
  Map = Fields;
  as_object = fields_of;
  object = object;
  string = text;
  integer = integer;
  as_f64 = number_of;
  from_f64 = λ x. some (number x);
  as_str = text_of;
  get = get_field;
  insert = λ m k v. with_field k v m;
  as_object-object = λ m. refl;
  as_str-string = λ s. refl;
  as_f64-from_f64 = read_back;
  get-insert = λ m k k' v. refl;
}

instance abbrev floats : Floats ℕ
floats = record {
  decimal = λ digits places. digits / 10 ^ places;
  neg = λ x. 0;
  ln = λ x. x;
  sqrt = λ x. x;
  abs = λ x. x;
  add = λ x y. x + y;
  sub = λ x y. x - y;
  mul = λ x y. x * y;
  div = λ x y. x / y;
  lt = ltb;
  le = leb;
}

-- " a", and a status with that device and an `uptime`.
abbrev spaced : Str
spaced = b' ' ∷ b'a' ∷ []

abbrev status_fields : Fields
status_fields = with_field device_id (text spaced) (with_field uptime (integer (ℤ.pos 7)) nothing)

transform_status_payload-fields_example :
    ((transform_status_payload json_library json (object status_fields)).0 ≡ ok tt)
    × ((m' : Fields) × (fields_of
            (transform_status_payload json_library json (object status_fields)).1
          ≡ some m')
        × ((k : Str)
            → get_field m' k ≡ status_field json_library json k (get_field status_fields k)))
transform_status_payload-fields_example =
    transform_status_payload-fields json_library json (object status_fields) status_fields refl

-- What that means for one key.
device_trimmed :
    status_field json_library json device_id (get_field status_fields device_id)
    ≡ some (text (b'a' ∷ []))
unfolding status_field trimmed has_key str_eq defaulted trim_matches drop_while reverse
    is_whitespace
device_trimmed = refl

abbrev readings : Fields
readings = with_field temp_c (number 20) (
    with_field rel_hum_perc (number 50) (
      with_field pressure_hpa (number 1000)
        (with_field gas_ohm (number 50000) (with_field altitude_m (number 300) nothing))))

transform_data_iff_example :
    ((m' : Fields) × (transform_data json_library json readings ≡ (ok tt, m')))
    ↔ ((r : Readings ℕ) × IsSafe json_library json readings r × AreFinite json_library json r)
transform_data_iff_example = transform_data_iff json_library json readings

abbrev sensor_fields : Fields
sensor_fields = with_field device_id (text spaced) (with_field data' (object readings) nothing)

abbrev transformed_sensor : Val
transformed_sensor = (transform_sensor_payload json_library json (object sensor_fields)).1

transforms :
    transform_sensor_payload json_library json (object sensor_fields) ≡ (ok tt, transformed_sensor)
unfolding transform_sensor_payload trim_all trim_root_string set_field transform_data read_data
    write_data then_write set_f64_in_object required_f64_from_object str_eq
transforms = refl

transform_sensor_payload-IsTransformed_example :
    (m' : Fields) × (fields_of transformed_sensor ≡ some m')
    × IsTransformed json_library json sensor_fields m'
transform_sensor_payload-IsTransformed_example =
    transform_sensor_payload-IsTransformed json_library json (object sensor_fields)
      transformed_sensor sensor_fields refl transforms

abbrev status_setup : Setup json_library
status_setup = record {
  router = record {
    routes =
        record { message_type = MessageType.status; pattern' = a_plus_pattern; schema = true } ∷ [];
    strict = true;
  };
  enforce_topic_device_match = false;
  sensor_schema = true;
  status_schema = true;
  encode = λ m. b'x' ∷ [];
  dlq_topic = b'd' ∷ [];
}

abbrev answering : World json_library
answering = record {
  sending = Sending.sent;
  ack = AckRead.answered (ok tt);
  cached_at_ms = 8;
  now_ms = 9;
  offered = [];
  durable = [];
  published = [];
  cache = full_cache;
}

-- A router for the dead-letter topic alone.
abbrev dlq_routes : List (Str × Str)
dlq_routes = (b'D' ∷ b'L' ∷ b'Q' ∷ [], b'd' ∷ []) ∷ []

abbrev no_routes : Setup json_library
no_routes = record status_setup { router = record { routes = []; strict = true } }

no_routes_built : build_router json_library (λ t. some true) dlq_routes ≡ ok no_routes.router
unfolding build_router add_routes type_of_key str_eq
no_routes_built = refl

spaced_decoded : decode_payload json_library spaced ≡ ok (one_text spaced)
unfolding decode_payload
spaced_decoded = refl

none_matched : first_match json_library a_b [] ≡ none
unfolding first_match
none_matched = refl

run-unrouted_example :
    IsDeadLetter json_library true true no_routes.encode no_routes.dlq_topic
      (new json_library a_b spaced)
      answering
      (raw_validation_failed RouteError.no_route)
      (run json_library
        (pipeline json_library json no_routes)
        (new json_library a_b spaced)
        answering)
run-unrouted_example =
    run-unrouted json_library json no_routes (λ t. some true) dlq_routes a_b spaced
      (one_text spaced) answering no_routes_built spaced_decoded none_matched
