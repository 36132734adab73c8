-- ===== src/Pipeline/Context.antt =====
-- src/pipeline/context.rs: what the stages pass on of a message.
use ingestion_service.Common.{ℕ, Bool, true, false, Option, none, some, List, Result, ok_or}
use ingestion_service.Model.Messages.{Str, HandledMessage}
use ingestion_service.Pipeline.Library.{Library}
use ingestion_service.Pipeline.Router.{RouteError}
use ingestion_service.Pipeline.Transform.{TransformError}

-- The stages, by their names.
pub data StageName : Type 0 where
  decode validate_raw transform validate_business cache_update persist observe dlq_publish :
      StageName

-- `?` in a stage: a part of the context that is missing.
pub data StageError : Type 0 where
  payload_utf8_missing payload_json_missing handled_message_missing : StageError

-- Why a message goes to the dead-letter queue.
pub data Reason : Type 0 where
  payload_too_large : ℕ → Reason
  payload_not_utf8 payload_not_json : Reason
  raw_validation_failed : RouteError → Reason
  transform_failed : TransformError → Reason
  post_transform_deserialization_failed : RouteError → Reason
  business_validation_failed : Reason
  queue_full queue_closed ack_failed : Reason
  stage_failed : StageName → StageError → Reason

-- Both reasons for an ignored message read "no matching route".
pub data IgnoredReason : Type 0 where
  no_matching_route : IgnoredReason

-- Without the time at which the message arrived, which only metrics read.
pub record PipelineContext (lib : Library) : Type 0 where
  pub topic : Str
  pub raw_payload : List ℕ
  pub payload_utf8 : Option Str
  pub payload_json : Option lib.Value
  pub handled_message : Option (HandledMessage lib.F64)
  pub dlq_reason : Option Reason
  pub ignored_reason : Option IgnoredReason

unfoldable pub new : (lib : Library) → Str → List ℕ → PipelineContext lib
new lib topic raw_payload = record {
  topic = topic;
  raw_payload = raw_payload;
  payload_utf8 = none;
  payload_json = none;
  handled_message = none;
  dlq_reason = none;
  ignored_reason = none;
}

unfoldable pub set_payload_utf8 : (lib : Library) → Str → PipelineContext lib → PipelineContext lib
set_payload_utf8 lib payload ctx = record ctx { payload_utf8 = some payload }

unfoldable pub set_payload_json :
    (lib : Library) → lib.Value → PipelineContext lib → PipelineContext lib
set_payload_json lib payload ctx = record ctx { payload_json = some payload }

unfoldable pub payload_json : (lib : Library) → PipelineContext lib → Result StageError lib.Value
payload_json lib ctx = ok_or ctx.payload_json payload_json_missing

unfoldable pub set_handled_message :
    (lib : Library) → HandledMessage lib.F64 → PipelineContext lib → PipelineContext lib
set_handled_message lib msg ctx = record ctx { handled_message = some msg }

unfoldable pub handled_message :
    (lib : Library) → PipelineContext lib → Result StageError (HandledMessage lib.F64)
handled_message lib ctx = ok_or ctx.handled_message handled_message_missing

-- The first reason stays.
unfoldable pub mark_dlq : (lib : Library) → Reason → PipelineContext lib → PipelineContext lib
mark_dlq lib reason ctx = elim ctx.dlq_reason [
  | none ↦ record ctx { dlq_reason = some reason }
  | some _ ↦ ctx
]

unfoldable pub should_publish_dlq : (lib : Library) → PipelineContext lib → Bool
should_publish_dlq lib ctx = elim ctx.dlq_reason [ some _ ↦ true | none ↦ false ]

unfoldable pub mark_ignored :
    (lib : Library) → IgnoredReason → PipelineContext lib → PipelineContext lib
mark_ignored lib reason ctx = elim ctx.ignored_reason [
  | none ↦ record ctx { ignored_reason = some reason }
  | some _ ↦ ctx
]

-- What is published of a payload: `<non-utf8>` is `none`.
unfoldable pub payload_for_dlq : (lib : Library) → PipelineContext lib → Option Str
payload_for_dlq lib ctx = elim ctx.payload_utf8 [
  | some payload ↦ some payload
  | none ↦ lib.from_utf8 ctx.raw_payload
]
