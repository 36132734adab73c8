-- ===== src/Pipeline/Stages.antt =====
-- src/pipeline/stages: each stage on the context and on what lies around the pipeline. Metrics and
-- log lines are left out.
pub mod Transforming
pub mod Outcome
pub mod Fate
use ingestion_service.Common.{
  ℕ, ◌*◌, ℤ, Bool, true, false, Option, none, some, List, [], ◌∷◌, ◌++◌, Result, ok, err, ◌>>=◌,
  ok_or, length, ltb, if◌then◌else◌,
}
use ingestion_service.Wal.Types.{WalEvent, AppendDurableError}
use ingestion_service.Wal.Append.{Sending, AckRead, append_durable}
use ingestion_service.Model.Messages.{
  Str, MessageType, HandledMessage, sensor_message, status_message,
}
use ingestion_service.Cache.{CacheState, update_sensor}
use ingestion_service.Pipeline.Library.{Library}
use ingestion_service.Pipeline.Router.{Router, RouteError, validate_raw}
use ingestion_service.Pipeline.Context.{
  StageName, StageError, Reason, payload_too_large, payload_not_utf8, payload_not_json,
  raw_validation_failed, business_validation_failed, queue_full, queue_closed, ack_failed,
  no_matching_route, PipelineContext, mark_dlq, mark_ignored, set_payload_utf8, set_payload_json,
  payload_json, handled_message, payload_for_dlq,
}
use ingestion_service.Pipeline.Runner.{StageFlow, continue, stop}

-- What a message on the dead-letter topic holds.
pub record DlqMessage : Type 0 where
  pub dlq_topic : Str
  pub src_topic : Str
  pub payload : Option Str
  pub reason : Reason

-- Around the pipeline: what the log will answer to an append, the clock as the cache and as the
-- persistence read it, the events that the log has
-- been given and those of them whose durability was acknowledged, the publications tried, and the
-- cache.
pub record World (lib : Library) : Type 0 where
  pub sending : Sending
  pub ack : AckRead
  pub cached_at_ms : ℕ
  pub now_ms : ℕ
  pub offered : List WalEvent
  pub durable : List WalEvent
  pub published : List DlqMessage
  pub cache : CacheState lib.F64

abbrev pub StageResult : Type 0
StageResult = Result StageError StageFlow

abbrev pub max_payload_bytes : ℕ
max_payload_bytes = 64 * 1024

pub data DecodeError : Type 0 where
  too_large : ℕ → DecodeError
  utf8 : DecodeError
  json : Str → DecodeError

module _ (lib : Library) where
  unfoldable pub decode_payload : List ℕ → Result DecodeError lib.Value
  decode_payload payload =
      if ltb max_payload_bytes (length payload) then err (too_large (length payload)) else do
        payload_str ← ok_or (lib.from_utf8 payload) utf8
        ok_or (lib.from_str payload_str) (json payload_str)

  -- The `match` of `DecodeStage::run`.
  unfoldable pub decoded :
      Result DecodeError lib.Value
      → PipelineContext lib
      → World lib
      → StageResult × PipelineContext lib × World lib
  decoded (ok payload) ctx w = (ok continue, set_payload_json lib payload ctx, w)
  decoded (err (too_large size)) ctx w = (ok stop, mark_dlq lib (payload_too_large size) ctx, w)
  decoded (err utf8) ctx w = (ok stop, mark_dlq lib payload_not_utf8 ctx, w)
  decoded (err (json payload_str)) ctx w =
      (ok stop, mark_dlq lib payload_not_json (set_payload_utf8 lib payload_str ctx), w)

  unfoldable pub decode_run :
      PipelineContext lib → World lib → StageResult × PipelineContext lib × World lib
  decode_run ctx w = decoded (decode_payload ctx.raw_payload) ctx w

  -- The `match` of `ValidateRawStage::run`.
  unfoldable pub validated :
      Result RouteError (Option MessageType)
      → PipelineContext lib
      → World lib
      → StageResult × PipelineContext lib × World lib
  validated (ok (some t)) ctx w = (ok continue, ctx, w)
  validated (ok none) ctx w = (ok stop, mark_ignored lib no_matching_route ctx, w)
  validated (err e) ctx w = (ok stop, mark_dlq lib (raw_validation_failed e) ctx, w)

  unfoldable pub validate_raw_run :
      Router lib
      → Bool
      → PipelineContext lib
      → World lib
      → StageResult × PipelineContext lib × World lib
  validate_raw_run router enforce ctx w = elim (payload_json lib ctx) [
    | ok payload ↦ validated (validate_raw lib router ctx.topic payload enforce) ctx w
    | err e ↦ (err e, ctx, w)
  ]

  -- `validate_handled_message`: the message as JSON against the schema of its type.
  unfoldable pub validate_handled_message : lib.Schema → lib.Schema → HandledMessage lib.F64 → Bool
  validate_handled_message sensor_schema status_schema (sensor_message m) =
      elim (lib.sensor_to_value m) [ some value ↦ lib.is_valid sensor_schema value | none ↦ false ]
  validate_handled_message sensor_schema status_schema (status_message m) =
      elim (lib.status_to_value m) [ some value ↦ lib.is_valid status_schema value | none ↦ false ]

  unfoldable pub validate_business_run :
      lib.Schema
      → lib.Schema
      → PipelineContext lib
      → World lib
      → StageResult × PipelineContext lib × World lib
  validate_business_run sensor_schema status_schema ctx w = elim (handled_message lib ctx) [
    | ok handled ↦
        if validate_handled_message sensor_schema status_schema handled
        then (ok continue, ctx, w)
        else (ok stop, mark_dlq lib business_validation_failed ctx, w)
    | err e ↦ (err e, ctx, w)
  ]

  -- Only sensors are cached.
  unfoldable pub cache_message : HandledMessage lib.F64 → World lib → World lib
  cache_message (sensor_message m) w = record w { cache = update_sensor w.cached_at_ms m w.cache }
  cache_message (status_message m) w = w

  unfoldable pub cache_update_run :
      PipelineContext lib → World lib → StageResult × PipelineContext lib × World lib
  cache_update_run ctx w = elim (handled_message lib ctx) [
    | ok handled ↦ (ok continue, ctx, cache_message handled w)
    | err e ↦ (err e, ctx, w)
  ]

  -- The `match` of `PersistStage::run`.
  unfoldable pub persisted :
      Result AppendDurableError (Unit {0})
      → WalEvent
      → PipelineContext lib
      → World lib
      → StageResult × PipelineContext lib × World lib
  persisted (ok _) event ctx w =
      (ok continue, ctx, record w { durable = w.durable ++ (event ∷ []) })
  persisted (err (AppendDurableError.full e)) event ctx w =
      (ok stop, mark_dlq lib queue_full ctx, w)
  persisted (err (AppendDurableError.closed e)) event ctx w =
      (ok stop, mark_dlq lib queue_closed ctx, w)
  persisted (err (AppendDurableError.durability reason)) event ctx w =
      (ok stop, mark_dlq lib ack_failed ctx, w)

  unfoldable pub persist_run :
      (HandledMessage lib.F64 → Str)
      → PipelineContext lib
      → World lib
      → StageResult × PipelineContext lib × World lib
  persist_run encode ctx w = elim (handled_message lib ctx) [
    | ok handled ↦
        let event : WalEvent = record {
          topic = ctx.topic;
          ts_ms = ℤ.pos w.now_ms;
          payload = encode handled;
        } in
        persisted (append_durable w.sending w.ack event) event ctx
          (record w { offered = w.offered ++ (event ∷ []) })
    | err e ↦ (err e, ctx, w)
  ]

  unfoldable pub observe_run :
      PipelineContext lib → World lib → StageResult × PipelineContext lib × World lib
  observe_run ctx w = elim (handled_message lib ctx) [
    | ok handled ↦ (ok continue, ctx, w)
    | err e ↦ (err e, ctx, w)
  ]

  -- Whether the publication succeeds makes no difference to what follows.
  unfoldable pub dlq_publish_run :
      Str → PipelineContext lib → World lib → StageResult × PipelineContext lib × World lib
  dlq_publish_run dlq_topic ctx w = elim ctx.dlq_reason [
    | some reason ↦ (
      ok stop,
      ctx,
      record w {
        published =
            w.published
            ++ (record {
              dlq_topic = dlq_topic;
              src_topic = ctx.topic;
              payload = payload_for_dlq lib ctx;
              reason = reason;
            }
                ∷ []);
      },
    )
    | none ↦ (ok stop, ctx, w)
  ]
