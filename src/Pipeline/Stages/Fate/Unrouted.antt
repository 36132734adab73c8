-- ===== src/Pipeline/Stages/Fate/Unrouted.antt =====
-- Messages without a route, under the router that main.rs builds.
use ingestion_service.Common.{ℕ, ◌≡◌, none, List, Option, ok, err, subst, arith}
use ingestion_service.Model.Messages.{Str, MessageType}
use ingestion_service.Pipeline.Library.{Library}
use ingestion_service.Pipeline.Floats.{Floats}
use ingestion_service.Pipeline.Json.{Json}
use ingestion_service.Pipeline.Router.{RouteError, first_match}
use ingestion_service.Pipeline.Router.Build.{build_router, build_router-refuses}
use ingestion_service.Pipeline.Context.{raw_validation_failed, new}
use ingestion_service.Pipeline.Runner.{run}
use ingestion_service.Pipeline.Stages.{World, decode_payload}
use ingestion_service.Pipeline.Stages.Outcome.{IsDeadLetter}
use ingestion_service.Pipeline.Stages.Fate.{Setup, pipeline, understood, Fate}
use ingestion_service.Pipeline.Stages.Fate.Arrival.{run-Fate}

module _ (lib : Library) (json : Json lib) ⦃floats : Floats lib.F64⦄ (setup : Setup lib) where
  -- With the router that `main` builds from the configured topics, no message is ignored for want of a
  -- route: one that is JSON and whose topic has none is published on the dead-letter topic, once, and
  -- nothing else changes.
  pub run-unrouted :
      (compile : MessageType → Option lib.Schema) (routes : List (Str × Str)) (topic : Str)
      (raw : List ℕ) (payload : lib.Value) (w : World lib)
      → build_router lib compile routes ≡ ok setup.router
      → decode_payload lib raw ≡ ok payload
      → first_match lib topic setup.router.routes ≡ none
      → IsDeadLetter lib setup.sensor_schema setup.status_schema setup.encode setup.dlq_topic
          (new lib topic raw)
          w
          (raw_validation_failed RouteError.no_route)
          (run lib (pipeline lib json setup) (new lib topic raw) w)
  unfolding understood
  run-unrouted compile routes topic raw payload w built decoded unmatched =
      let refused =
        build_router-refuses lib compile routes setup.router topic payload
          setup.enforce_topic_device_match built unmatched in
      let known : understood lib json setup topic raw
          ≡ err (raw_validation_failed RouteError.no_route) =
        ground (arith, decoded, refused) in
      subst
        (λ r.
          Fate lib json setup topic raw w r
            (run lib (pipeline lib json setup) (new lib topic raw) w))
        known (run-Fate lib json setup topic raw w)
