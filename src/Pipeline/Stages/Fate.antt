-- ===== src/Pipeline/Stages/Fate.antt =====
-- All stages, as main.rs puts them together: what becomes of a message from its arrival on.
pub mod Arrival
pub mod Unrouted
use ingestion_service.Common.{
  ℕ, ◌≡◌, refl, ap, sym, subst, ◌∙◌, Option, none, some, List, [], ◌∷◌, ◌++◌, Result, ok, err,
  ◌>>=◌, Result-cases, Option-cases, inl, inr, arith, if◌then◌else◌, Bool, true, false,
}
use ingestion_service.Wal.Types.{AppendDurableError}
use ingestion_service.Wal.Append.{append_durable}
use ingestion_service.Model.Messages.{Str, MessageType, HandledMessage}
use ingestion_service.Pipeline.Library.{Library}
use ingestion_service.Pipeline.Floats.{Floats}
use ingestion_service.Pipeline.Json.{Json}
use ingestion_service.Pipeline.Router.{
  Router, RouteError, validate_raw, message_type_for_topic, deserialize,
}
use ingestion_service.Pipeline.Router.Dispatch.{IsMessage, validate_raw-deserialize}
use ingestion_service.Pipeline.Transform.{TransformError, transform_payload}
use ingestion_service.Pipeline.Context.{
  StageName, Reason, payload_too_large, payload_not_utf8, payload_not_json, raw_validation_failed,
  transform_failed, post_transform_deserialization_failed, PipelineContext, new, payload_for_dlq,
  should_publish_dlq, payload_json, set_payload_json, mark_dlq, set_handled_message,
  set_payload_utf8, mark_ignored, no_matching_route,
}
use ingestion_service.Pipeline.Runner.{
  continue, stop, Stage, PipelineRunner, run_stages, run_failure_stage, run,
}
use ingestion_service.Pipeline.Stages.{
  World, DecodeError, too_large, utf8, decode_payload, decoded, decode_run, validated,
  validate_raw_run, dlq_publish_run, validate_handled_message,
}
use ingestion_service.Pipeline.Runner.Flow.{run_stages-next, run_stages-stop}
use ingestion_service.Pipeline.Stages.Transforming.{
  transform_run, transform_typed, transformed, deserialized,
}
use ingestion_service.Pipeline.Stages.Outcome.{
  delivery_stages, delivery_runner, IsDeadLetter, Verdict, event_of, run-Verdict,
}

-- What `main` needs to put the stages together.
pub record Setup (lib : Library) : Type 0 where
  pub router : Router lib
  pub enforce_topic_device_match : Bool
  pub sensor_schema : lib.Schema
  pub status_schema : lib.Schema
  pub encode : HandledMessage lib.F64 → Str
  pub dlq_topic : Str

abbrev pub decode_reason : DecodeError → Reason
decode_reason (too_large size) = payload_too_large size
decode_reason utf8 = payload_not_utf8
decode_reason (DecodeError.json s) = payload_not_json

abbrev pub map_err : {E F A : Type 0} → (E → F) → Result E A → Result F A
map_err f (ok a) = ok a
map_err f (err e) = err (f e)

module _ (lib : Library) (json : Json lib) ⦃floats : Floats lib.F64⦄ (setup : Setup lib) where
  unfoldable pub all_stages : List (Stage lib (World lib))
  all_stages =
      record { name = StageName.decode; run = decode_run lib }
      ∷ record {
        name = StageName.validate_raw;
        run = validate_raw_run lib setup.router setup.enforce_topic_device_match;
      }
      ∷ record { name = StageName.transform; run = transform_run lib json setup.router }
      ∷ delivery_stages lib setup.sensor_schema setup.status_schema setup.encode

  unfoldable pub pipeline : PipelineRunner lib (World lib)
  pipeline = record {
    stages = all_stages;
    failure_stage =
        some (record { name = StageName.dlq_publish; run = dlq_publish_run lib setup.dlq_topic });
  }

  -- The payload of a routed message as a message.
  unfoldable pub read_as :
      Str → lib.Value → Option MessageType → Result Reason (Option (HandledMessage lib.F64))
  read_as topic payload none = ok none
  read_as topic payload (some t) =
      map_err transform_failed (transform_payload lib json t payload).0 >>= λ _.
      map_err post_transform_deserialization_failed
        (deserialize lib setup.router topic (transform_payload lib json t payload).1)

  -- What a payload is to the pipeline, computed without contexts and flows: an error with the reason
  -- under which it is published, a message, or nothing where no route is for the topic.
  unfoldable pub understood : Str → List ℕ → Result Reason (Option (HandledMessage lib.F64))
  understood topic raw = do
    payload ← map_err decode_reason (decode_payload lib raw)
    t ←
        map_err raw_validation_failed
          (validate_raw lib setup.router topic payload setup.enforce_topic_device_match)
    read_as topic payload t

  -- What is left of a message: it is published with its reason; or nothing is; or what the verdict
  -- behind the transformation says.
  abbrev pub Fate :
      Str
      → List ℕ
      → World lib
      → Result Reason (Option (HandledMessage lib.F64))
      → PipelineContext lib × World lib
      → Type 0
  Fate topic raw w (err reason) out =
      IsDeadLetter lib setup.sensor_schema setup.status_schema setup.encode setup.dlq_topic
        (new lib topic raw) w reason out
  Fate topic raw w (ok none) (ctx', w') = (w' ≡ w) × (ctx'.dlq_reason ≡ none)
  Fate topic raw w (ok (some m)) out =
      Verdict lib setup.sensor_schema setup.status_schema setup.encode setup.dlq_topic m
        (new lib topic raw) w
        (validate_handled_message lib setup.sensor_schema setup.status_schema m)
        (append_durable w.sending w.ack (
          event_of lib setup.sensor_schema setup.status_schema setup.encode setup.dlq_topic
            (new lib topic raw) w m))
        out
