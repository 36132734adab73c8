-- ===== src/Pipeline/Router/Dispatch.antt =====
-- That the router's three dispatching functions use the same route.
use ingestion_service.Common.{
  ◌≡◌, inl, inr, Bool, Option, none, some, Result, ok, err, Option-cases, arith,
}
use ingestion_service.Model.Messages.{
  Str, MessageType, sensor, status, HandledMessage, sensor_message, status_message,
}
use ingestion_service.Pipeline.Library.{Library}
use ingestion_service.Pipeline.Router.{
  Route, RouteError, deserialization, Router, first_match, validate_route, deserialize_as, unrouted,
  validate_raw, deserialize, message_type_for_topic,
}

abbrev pub type_of : {F64 : Type 0} → HandledMessage F64 → MessageType
type_of (sensor_message m) = sensor
type_of (status_message m) = status

-- A payload as a message of a type, or the error that it is none.
abbrev pub IsMessage :
    (lib : Library) → MessageType → Result RouteError (Option (HandledMessage lib.F64)) → Type 0
IsMessage lib t (ok (some m)) = type_of m ≡ t
IsMessage lib t (ok none) = ⊥
IsMessage lib t (err e) = e ≡ deserialization

module _ (lib : Library) (r : Router lib) (topic : Str) where
  deserialize-IsMessage :
      (route : Route lib) (v : lib.Value)
      → first_match lib topic r.routes ≡ some route
      → IsMessage lib route.message_type (deserialize lib r topic v)
  unfolding deserialize deserialize_as
  deserialize-IsMessage route v found = ground (arith, found)

  -- Once the raw validation has named a type, the other lookups of the same topic name it too: the
  -- message type is that type, and any payload is read as a message of that type or refused because
  -- it does not deserialize, never for want of a route.
  pub validate_raw-deserialize :
      (payload : lib.Value) (enforce : Bool) (t : MessageType) (v : lib.Value)
      → validate_raw lib r topic payload enforce ≡ ok (some t)
      → (message_type_for_topic lib r topic ≡ some t) × IsMessage lib t (deserialize lib r topic v)
  unfolding validate_raw validate_route message_type_for_topic unrouted
  validate_raw-deserialize payload enforce t v h =
      elim (Option-cases (first_match lib topic r.routes)) [
        | inl e ↦ ground (arith, e, h)
        | inr (route, e) ↦
            let same : route.message_type ≡ t = ground (arith, e, h) in
            (ground (arith, e, same), rw (← same) (deserialize-IsMessage route v e))
      ]
