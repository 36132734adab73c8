-- ===== src/Pipeline/Stages/Transforming.antt =====
-- `run` of src/pipeline/stages/transform.rs: the transformation as a stage.
use ingestion_service.Common.{Option, none, some, Result, ok, err}
use ingestion_service.Model.Messages.{MessageType, HandledMessage}
use ingestion_service.Pipeline.Library.{Library}
use ingestion_service.Pipeline.Floats.{Floats}
use ingestion_service.Pipeline.Json.{Json}
use ingestion_service.Pipeline.Router.{Router, RouteError, message_type_for_topic, deserialize}
use ingestion_service.Pipeline.Transform.{TransformError, transform_payload}
use ingestion_service.Pipeline.Context.{
  transform_failed, post_transform_deserialization_failed, no_matching_route, PipelineContext,
  mark_dlq, mark_ignored, set_payload_json, payload_json, set_handled_message,
}
use ingestion_service.Pipeline.Runner.{continue, stop}
use ingestion_service.Pipeline.Stages.{World, StageResult}

module _ (lib : Library) (json : Json lib) ⦃floats : Floats lib.F64⦄ where
  -- The `match` on what the router reads the payload as.
  unfoldable pub deserialized :
      Result RouteError (Option (HandledMessage lib.F64))
      → PipelineContext lib
      → World lib
      → StageResult × PipelineContext lib × World lib
  deserialized (ok (some msg)) ctx w = (ok continue, set_handled_message lib msg ctx, w)
  deserialized (ok none) ctx w = (ok stop, mark_ignored lib no_matching_route ctx, w)
  deserialized (err e) ctx w =
      (ok stop, mark_dlq lib (post_transform_deserialization_failed e) ctx, w)

  -- Behind the transformation, which has changed the payload in place even where it failed.
  unfoldable pub transformed :
      Router lib
      → Result TransformError (Unit {0})
      → lib.Value
      → PipelineContext lib
      → World lib
      → StageResult × PipelineContext lib × World lib
  transformed router (ok _) payload ctx w =
      deserialized (deserialize lib router ctx.topic payload) ctx w
  transformed router (err e) payload ctx w = (ok stop, mark_dlq lib (transform_failed e) ctx, w)

  unfoldable pub transform_typed :
      Router lib
      → MessageType
      → PipelineContext lib
      → World lib
      → StageResult × PipelineContext lib × World lib
  transform_typed router message_type ctx w = elim (payload_json lib ctx) [
    | ok payload ↦
        let (done_, changed) = transform_payload lib json message_type payload in
        transformed router done_ changed (set_payload_json lib changed ctx) w
    | err e ↦ (err e, ctx, w)
  ]

  unfoldable pub transform_run :
      Router lib → PipelineContext lib → World lib → StageResult × PipelineContext lib × World lib
  transform_run router ctx w = elim (message_type_for_topic lib router ctx.topic) [
    | some message_type ↦ transform_typed router message_type ctx w
    | none ↦ (ok stop, mark_ignored lib no_matching_route ctx, w)
  ]
