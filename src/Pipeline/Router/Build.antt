-- ===== src/Pipeline/Router/Build.antt =====
-- `Route::new` of src/infrastructure/router.rs and `build_router` of src/main.rs: the router from the
-- configured topics.
use ingestion_service.Common.{
  ◌≡◌, Bool, true, Option, none, some, List, [], ◌∷◌, Result, ok, err, ◌>>=◌, ok_or, bind-inv,
  if◌then◌else◌, arith, Option-cases, inl, inr,
}
use ingestion_service.Model.Messages.{Str, MessageType, sensor, status}
use ingestion_service.Model.Topic
use ingestion_service.Model.Topic.{TopicPattern, TopicError, str_eq}
use ingestion_service.Pipeline.Library.{Library}
use ingestion_service.Pipeline.Router.{
  Route, Router, RouteError, add_route, first_match, validate_raw, unrouted,
}

pub data BuildError : Type 0 where
  bad_topic : TopicError → BuildError
  bad_schema : BuildError

-- "SENSOR" and "STATUS"
abbrev pub sensor_key : Str
sensor_key = b'S' ∷ b'E' ∷ b'N' ∷ b'S' ∷ b'O' ∷ b'R' ∷ []

abbrev pub status_key : Str
status_key = b'S' ∷ b'T' ∷ b'A' ∷ b'T' ∷ b'U' ∷ b'S' ∷ []

-- The type that a topic's key names; the others, "DLQ" among them, are skipped.
unfoldable pub type_of_key : Str → Option MessageType
type_of_key key =
    if str_eq key sensor_key
    then some sensor
    else if str_eq key status_key
    then some status
    else none

abbrev pub pattern_or : Result TopicError TopicPattern → Result BuildError TopicPattern
pattern_or (ok p) = ok p
pattern_or (err e) = err (bad_topic e)

-- `compile` is `JsonSchema::new` on the schema text of a type.
module _ (lib : Library) (compile : MessageType → Option lib.Schema) where
  unfoldable pub new_route : MessageType → Str → Result BuildError (Route lib)
  new_route message_type topic = do
    pattern_ ← pattern_or (Topic.new topic)
    schema ← ok_or (compile message_type) bad_schema
    ok (record { message_type = message_type; pattern' = pattern_; schema = schema })

  -- The loop over the topics, with the router so far.
  unfoldable pub add_routes : List (Str × Str) → Router lib → Result BuildError (Router lib)
  add_routes [] r = ok r
  add_routes ((key, topic) ∷ routes) r = elim (type_of_key key) [
    | none ↦ add_routes routes r
    | some message_type ↦
        new_route message_type topic >>= λ route. add_routes routes (add_route lib route r)
  ]

  unfoldable pub build_router : List (Str × Str) → Result BuildError (Router lib)
  build_router routes = add_routes routes (record { routes = []; strict = true })

  add_routes-strict :
      (routes : List (Str × Str)) (r r' : Router lib)
      → add_routes routes r ≡ ok r'
      → r'.strict ≡ r.strict
  unfolding add_routes add_route
  add_routes-strict [] r r' h = ground (arith, h)
  add_routes-strict ((key, topic) ∷ routes) r r' h = elim (Option-cases (type_of_key key)) [
    | inl e ↦ add_routes-strict routes r r' (ground (arith, e, h))
    | inr (t, e) ↦
        let went : (new_route t topic >>= λ route. add_routes routes (add_route lib route r))
            ≡ ok r' =
          ground (arith, e, h) in
        let (route, made, rest) =
          bind-inv (new_route t topic) (λ route. add_routes routes (add_route lib route r)) r'
            went in
        add_routes-strict routes (add_route lib route r) r' rest
  ]

  -- A router that `build_router` makes ignores no message: one that has no route is refused.
  pub build_router-refuses :
      (routes : List (Str × Str)) (r : Router lib) (topic : Str) (payload : lib.Value)
      (enforce : Bool)
      → build_router routes ≡ ok r
      → first_match lib topic r.routes ≡ none
      → validate_raw lib r topic payload enforce ≡ err RouteError.no_route
  unfolding build_router validate_raw unrouted
  build_router-refuses routes r topic payload enforce h e =
      let strict = add_routes-strict routes (record { routes = []; strict = true }) r h in
      ground (arith, strict, e)
