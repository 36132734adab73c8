-- ===== src/Pipeline/Router.antt =====
-- src/infrastructure/router.rs: the routes, and what they ask of a payload.
pub mod Dispatch
pub mod Build
use ingestion_service.Common.{
  Bool, Option, none, some, List, [], ◌∷◌, ◌++◌, Result, ok, err, ◌>>=◌, ok_or, if◌then◌else◌,
}
use ingestion_service.Model.Messages.{
  Str, MessageType, sensor, status, HandledMessage, sensor_message, status_message,
}
use ingestion_service.Model.Topic.{TopicPattern, matches, device_id_from_topic, str_eq}
use ingestion_service.Pipeline.Library.{Library}

pub record Route (lib : Library) : Type 0 where
  pub message_type : MessageType
  pub pattern' : TopicPattern
  pub schema : lib.Schema

-- The `anyhow` errors of the file, without their texts.
pub data RouteError : Type 0 where
  schema_invalid time_iso_invalid no_topic_device no_payload_device device_mismatch : RouteError
  deserialization no_route : RouteError

-- "time_iso" and "device_id"
abbrev pub time_iso_key : Str
time_iso_key = 116 ∷ 105 ∷ 109 ∷ 101 ∷ 95 ∷ 105 ∷ 115 ∷ 111 ∷ []

abbrev pub device_id_key : Str
device_id_key = 100 ∷ 101 ∷ 118 ∷ 105 ∷ 99 ∷ 101 ∷ 95 ∷ 105 ∷ 100 ∷ []

unfoldable pub validate_time_iso_rfc3339 :
    (lib : Library) → lib.Value → Result RouteError (Unit {0})
validate_time_iso_rfc3339 lib v = elim (lib.str_field v time_iso_key) [
  | some s ↦ if lib.parses_as_rfc3339 s then ok tt else err time_iso_invalid
  | none ↦ ok tt
]

unfoldable pub enforce_topic_payload_device_match :
    (lib : Library) → Route lib → Str → lib.Value → Result RouteError (Unit {0})
enforce_topic_payload_device_match lib r topic payload = do
  topic_dev ← ok_or (device_id_from_topic r.pattern' topic) no_topic_device
  payload_dev ← ok_or (lib.str_field payload device_id_key) no_payload_device
  if str_eq topic_dev payload_dev then ok tt else err device_mismatch

unfoldable pub validate_route :
    (lib : Library) → Route lib → Str → lib.Value → Bool → Result RouteError MessageType
validate_route lib r topic payload enforce = do
  _ ← (if lib.is_valid r.schema payload then ok tt else err schema_invalid)
  _ ← validate_time_iso_rfc3339 lib payload
  _ ← (if enforce then enforce_topic_payload_device_match lib r topic payload else ok tt)
  ok r.message_type

unfoldable pub deserialize_as :
    (lib : Library) → MessageType → lib.Value → Result RouteError (HandledMessage lib.F64)
deserialize_as lib sensor payload = do
  msg ← ok_or (lib.sensor_from_value payload) deserialization
  ok (sensor_message msg)
deserialize_as lib status payload = do
  msg ← ok_or (lib.status_from_value payload) deserialization
  ok (status_message msg)

pub record Router (lib : Library) : Type 0 where
  pub routes : List (Route lib)
  pub strict : Bool

unfoldable pub add_route : (lib : Library) → Route lib → Router lib → Router lib
add_route lib route r = record r { routes = r.routes ++ (route ∷ []) }

unfoldable pub first_match : (lib : Library) → Str → List (Route lib) → Option (Route lib)
first_match lib topic [] = none
first_match lib topic (r ∷ rs) =
    if matches r.pattern' topic then some r else first_match lib topic rs

abbrev pub find_route : (lib : Library) → Router lib → Str → Option (Route lib)
find_route lib r topic = first_match lib topic r.routes

unfoldable pub message_type_for_topic : (lib : Library) → Router lib → Str → Option MessageType
message_type_for_topic lib r topic = elim (find_route lib r topic) [
  | some route ↦ some route.message_type
  | none ↦ none
]

-- The end of both dispatching functions where no route was found.
unfoldable pub unrouted : {A : Type 0} (lib : Library) → Router lib → Result RouteError (Option A)
unrouted lib r = if r.strict then err no_route else ok none

unfoldable pub validate_raw :
    (lib : Library) → Router lib → Str → lib.Value → Bool → Result RouteError (Option MessageType)
validate_raw lib r topic payload enforce = elim (find_route lib r topic) [
  | some route ↦ validate_route lib route topic payload enforce >>= λ t. ok (some t)
  | none ↦ unrouted lib r
]

unfoldable pub deserialize :
    (lib : Library)
    → Router lib
    → Str
    → lib.Value
    → Result RouteError (Option (HandledMessage lib.F64))
deserialize lib r topic payload = elim (find_route lib r topic) [
  | some route ↦ deserialize_as lib route.message_type payload >>= λ m. ok (some m)
  | none ↦ unrouted lib r
]
