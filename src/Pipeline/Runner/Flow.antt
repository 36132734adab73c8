-- ===== src/Pipeline/Runner/Flow.antt =====
-- Which stages run, and when the failure stage does.
use ingestion_service.Common.{
  ◌≡◌, refl, ◌∙◌, some, List, [], ◌∷◌, ◌++◌, ok, err, inl, inr, arith, if◌then◌else◌, ◌⊎◌,
}
use ingestion_service.Pipeline.Library.{Library}
use ingestion_service.Pipeline.Context.{
  StageError, stage_failed, PipelineContext, mark_dlq, should_publish_dlq,
}
use ingestion_service.Pipeline.Runner.{
  continue, stop, Stage, flow_of, run_stages, run_failure_stage, run,
}

module _ (lib : Library) {W : Type 0} where
  -- Stages that all go on, from one state to another.
  pub data Reaches
      : List (Stage lib W) → PipelineContext lib → W → PipelineContext lib → W → Type 0 where
    here : (ctx : PipelineContext lib) (w : W) → Reaches [] ctx w ctx w
    next :
        (s : Stage lib W) (ss : List (Stage lib W)) (ctx ctx' ctx'' : PipelineContext lib)
        (w w' w'' : W)
        → s.run ctx w ≡ (ok continue, ctx', w')
        → Reaches ss ctx' w' ctx'' w''
        → Reaches (s ∷ ss) ctx w ctx'' w''

  pub run_stages-next :
      (s : Stage lib W) (ss : List (Stage lib W)) (ctx ctx' : PipelineContext lib) (w w' : W)
      → s.run ctx w ≡ (ok continue, ctx', w')
      → run_stages lib (s ∷ ss) ctx w ≡ run_stages lib ss ctx' w'
  unfolding run_stages flow_of
  run_stages-next s ss ctx ctx' w w' e = ground (arith, e)

  pub run_stages-stop :
      (s : Stage lib W) (ss : List (Stage lib W)) (ctx ctx' : PipelineContext lib) (w w' : W)
      → s.run ctx w ≡ (ok stop, ctx', w')
      → run_stages lib (s ∷ ss) ctx w ≡ (ctx', w')
  unfolding run_stages flow_of
  run_stages-stop s ss ctx ctx' w w' e = ground (arith, e)

  run_stages-fail :
      (s : Stage lib W) (ss : List (Stage lib W)) (ctx ctx' : PipelineContext lib) (w w' : W)
      (x : StageError)
      → s.run ctx w ≡ (err x, ctx', w')
      → run_stages lib (s ∷ ss) ctx w ≡ (mark_dlq lib (stage_failed s.name x) ctx', w')
  unfolding run_stages flow_of
  run_stages-fail s ss ctx ctx' w w' x e = ground (arith, e)

  pub run_stages-append :
      (ss ts : List (Stage lib W)) (ctx ctx' : PipelineContext lib) (w w' : W)
      → Reaches ss ctx w ctx' w'
      → run_stages lib (ss ++ ts) ctx w ≡ run_stages lib ts ctx' w'
  run_stages-append ss ts ctx ctx' w w' (here _ _) = refl
  run_stages-append ss ts ctx ctx' w w' (next s ss' _ c _ _ v _ e r) =
      run_stages-next s (ss' ++ ts) ctx c w v e ∙ run_stages-append ss' ts c ctx' v w' r

  -- How a stage ends the run: it says so, or it fails, which marks the message.
  abbrev pub Ends : Stage lib W → PipelineContext lib → W → PipelineContext lib → W → Type 0
  Ends s ctx w ctx' w' =
      (s.run ctx w ≡ (ok stop, ctx', w'))
      ⊎ ((e : StageError) × (c : PipelineContext lib) × (s.run ctx w ≡ (err e, c, w'))
          × (ctx' ≡ mark_dlq lib (stage_failed s.name e) c))

  -- The first stage that stops or fails is the last that runs: where the stages in front of it go on
  -- to a state, the run ends in the state that this stage leaves from there, whatever stages follow;
  -- and the failure stage then runs exactly if the message is marked.
  pub run-stops :
      (front back : List (Stage lib W)) (s f : Stage lib W) (ctx mid ctx' : PipelineContext lib)
      (w v w' : W)
      → Reaches front ctx w mid v
      → Ends s mid v ctx' w'
      → run lib (record { stages = front ++ (s ∷ back); failure_stage = some f }) ctx w ≡ (
          if should_publish_dlq lib ctx'
          then ((f.run ctx' w').1, (f.run ctx' w').2)
          else (ctx', w'))
  unfolding run run_failure_stage
  run-stops front back s f ctx mid ctx' w v w' r (inl e) =
      rw (run_stages-append front (s ∷ back) ctx mid w v r, run_stages-stop s back mid ctx' v w' e)
        refl
  run-stops front back s f ctx mid ctx' w v w' r (inr (x, c, e, d)) =
      rw
        (run_stages-append front (s ∷ back) ctx mid w v r, run_stages-fail s back mid c v w' x e, d)
        refl
