-- ===== src/Pipeline/Runner.antt =====
-- src/pipeline/stage.rs and runner.rs: the stages one after another, and the stage for failures.
pub mod Flow
use ingestion_service.Common.{
  Option, none, some, List, [], ◌∷◌, ◌++◌, Result, ok, err, Bool, if◌then◌else◌,
}
use ingestion_service.Pipeline.Library.{Library}
use ingestion_service.Pipeline.Context.{
  StageName, StageError, stage_failed, PipelineContext, mark_dlq, should_publish_dlq,
}

pub data StageFlow : Type 0 where
  continue stop : StageFlow

-- A stage changes the context and the world around the pipeline, whose type is `W`.
pub record Stage (lib : Library) (W : Type 0) : Type 0 where
  pub name : StageName
  pub run : PipelineContext lib → W → Result StageError StageFlow × PipelineContext lib × W

pub record PipelineRunner (lib : Library) (W : Type 0) : Type 0 where
  pub stages : List (Stage lib W)
  pub failure_stage : Option (Stage lib W)

module _ (lib : Library) {W : Type 0} where
  -- The `match` on what a stage returns: an error marks the message and stops.
  unfoldable pub flow_of :
      StageName
      → Result StageError StageFlow × PipelineContext lib × W
      → StageFlow × PipelineContext lib × W
  flow_of name (ok flow, ctx, w) = (flow, ctx, w)
  flow_of name (err e, ctx, w) = (stop, mark_dlq lib (stage_failed name e) ctx, w)

  -- The `for` loop.
  unfoldable pub run_stages : List (Stage lib W) → PipelineContext lib → W → PipelineContext lib × W
  run_stages [] ctx w = (ctx, w)
  run_stages (s ∷ ss) ctx w =
      let (flow, ctx', w') = flow_of s.name (s.run ctx w) in
      let rest = run_stages ss ctx' w' in elim flow [ stop ↦ (ctx', w') | continue ↦ rest ]

  -- The end of `run`: what the failure stage returns does not matter.
  unfoldable pub run_failure_stage :
      Option (Stage lib W) → PipelineContext lib × W → PipelineContext lib × W
  run_failure_stage none (ctx, w) = (ctx, w)
  run_failure_stage (some s) (ctx, w) =
      if should_publish_dlq lib ctx then ((s.run ctx w).1, (s.run ctx w).2) else (ctx, w)

  unfoldable pub run : PipelineRunner lib W → PipelineContext lib → W → PipelineContext lib × W
  run r ctx w = run_failure_stage r.failure_stage (run_stages r.stages ctx w)
