-- ===== src/Pipeline/Stages/Outcome.antt =====
-- The stages behind the transformation, as main.rs puts them together: a message is acknowledged as
-- durable or goes to the dead-letter queue.
use ingestion_service.Common.{
  ℤ, ◌≡◌, refl, ap, sym, subst, ◌∙◌, Bool, true, false, none, some, List, [], ◌∷◌, ◌++◌, Result, ok,
  err, Bool-cases, Result-cases, inl, inr, arith, if◌then◌else◌,
}
use ingestion_service.Wal.Types.{WalEvent, AppendDurableError}
use ingestion_service.Wal.Append.{append_durable}
use ingestion_service.Model.Messages.{Str, HandledMessage, sensor_message, status_message}
use ingestion_service.Pipeline.Library.{Library}
use ingestion_service.Pipeline.Context.{
  StageName, Reason, business_validation_failed, queue_full, queue_closed, ack_failed,
  PipelineContext, mark_dlq, handled_message, should_publish_dlq, payload_for_dlq,
}
use ingestion_service.Pipeline.Runner.{
  continue, stop, Stage, PipelineRunner, run_stages, run_failure_stage, run,
}
use ingestion_service.Pipeline.Runner.Flow.{Reaches, here, next, run-stops, run_stages-append}
use ingestion_service.Pipeline.Stages.{
  World, validate_handled_message, validate_business_run, cache_message, cache_update_run,
  persisted, persist_run, observe_run, dlq_publish_run,
}

-- The stages of `main` from the business validation on.
unfoldable pub delivery_stages :
    (lib : Library)
    → lib.Schema
    → lib.Schema
    → (HandledMessage lib.F64 → Str)
    → List (Stage lib (World lib))
delivery_stages lib sensor_schema status_schema encode =
    record {
      name = StageName.validate_business;
      run = validate_business_run lib sensor_schema status_schema;
    }
    ∷ record { name = StageName.cache_update; run = cache_update_run lib }
    ∷ record { name = StageName.persist; run = persist_run lib encode }
    ∷ record { name = StageName.observe; run = observe_run lib }
    ∷ []

unfoldable pub delivery_runner :
    (lib : Library)
    → lib.Schema
    → lib.Schema
    → (HandledMessage lib.F64 → Str)
    → Str
    → PipelineRunner lib (World lib)
delivery_runner lib sensor_schema status_schema encode dlq_topic = record {
  stages = delivery_stages lib sensor_schema status_schema encode;
  failure_stage =
      some (record { name = StageName.dlq_publish; run = dlq_publish_run lib dlq_topic });
}

cache_message-keeps :
    (lib : Library) (m : HandledMessage lib.F64) (w : World lib)
    → cache_message lib m w ≡ record w { cache = (cache_message lib m w).cache }
unfolding cache_message
cache_message-keeps lib (sensor_message x) w = refl
cache_message-keeps lib (status_message x) w = refl

-- The reason under which a message is published whose append failed.
abbrev pub reason_of : AppendDurableError → Reason
reason_of (AppendDurableError.full _) = queue_full
reason_of (AppendDurableError.closed _) = queue_closed
reason_of (AppendDurableError.durability _) = ack_failed

module _ (lib : Library) (sensor_schema status_schema : lib.Schema)
    (encode : HandledMessage lib.F64 → Str) (dlq_topic : Str) where
  abbrev pub event_of : PipelineContext lib → World lib → HandledMessage lib.F64 → WalEvent
  event_of ctx w m = record { topic = ctx.topic; ts_ms = ℤ.pos w.now_ms; payload = encode m }

  -- The world in which the log answers: the message is in the cache if it is a sensor's, and its event
  -- has been given to the log.
  abbrev pub handed_on : PipelineContext lib → World lib → HandledMessage lib.F64 → World lib
  handed_on ctx w m = record w {
    cache = (cache_message lib m w).cache;
    offered = w.offered ++ (event_of ctx w m ∷ []);
  }

  -- That one event was acknowledged, and nothing else was done but what is said above.
  abbrev pub IsDurable :
      PipelineContext lib
      → World lib
      → HandledMessage lib.F64
      → PipelineContext lib × World lib
      → Type 0
  IsDurable ctx w m (ctx', w') =
      (w' ≡ record (handed_on ctx w m) { durable = w.durable ++ (event_of ctx w m ∷ []) })
      × (ctx'.dlq_reason ≡ none)

  -- That one message was published, and that all else is as in `w`.
  abbrev pub IsDeadLetter :
      PipelineContext lib → World lib → Reason → PipelineContext lib × World lib → Type 0
  IsDeadLetter ctx w reason (ctx', w') =
      (w' ≡ record w {
        published =
            w.published
            ++ (record {
              dlq_topic = dlq_topic;
              src_topic = ctx.topic;
              payload = payload_for_dlq lib ctx;
              reason = reason;
            }
                ∷ []);
      })
      × (ctx'.dlq_reason ≡ some reason)

  -- What decides: the business validation, and what the log answers.
  abbrev pub Verdict :
      HandledMessage lib.F64
      → PipelineContext lib
      → World lib
      → Bool
      → Result AppendDurableError (Unit {0})
      → PipelineContext lib × World lib
      → Type 0
  Verdict m ctx w false appended out = IsDeadLetter ctx w business_validation_failed out
  Verdict m ctx w true (ok _) out = IsDurable ctx w m out
  Verdict m ctx w true (err x) out = IsDeadLetter ctx (handed_on ctx w m) (reason_of x) out

  module _ (m : HandledMessage lib.F64) (ctx : PipelineContext lib)
      (h : ctx.handled_message ≡ some m) (fresh : ctx.dlq_reason ≡ none) where
    validate_business_run-invalid :
        (w : World lib)
        → validate_handled_message lib sensor_schema status_schema m ≡ false
        → validate_business_run lib sensor_schema status_schema ctx w
          ≡ (ok stop, record ctx { dlq_reason = some business_validation_failed }, w)
    unfolding validate_business_run handled_message mark_dlq
    validate_business_run-invalid w v = ground (arith, h, fresh, v)

    validate_business_run-valid :
        (w : World lib)
        → validate_handled_message lib sensor_schema status_schema m ≡ true
        → validate_business_run lib sensor_schema status_schema ctx w ≡ (ok continue, ctx, w)
    unfolding validate_business_run handled_message
    validate_business_run-valid w v = ground (arith, h, v)

    cache_update_run-continues :
        (w : World lib)
        → cache_update_run lib ctx w
          ≡ (ok continue, ctx, record w { cache = (cache_message lib m w).cache })
    unfolding cache_update_run handled_message
    cache_update_run-continues w =
        let run_it : cache_update_run lib ctx w ≡ (ok continue, ctx, cache_message lib m w) =
          ground (arith, h) in
        run_it ∙ ap (λ v. (ok continue, ctx, v)) (cache_message-keeps lib m w)

    observe_run-continues : (w : World lib) → observe_run lib ctx w ≡ (ok continue, ctx, w)
    unfolding observe_run handled_message
    observe_run-continues w = ground (arith, h)

    persist_run-stores :
        (w : World lib) (u : Unit {0})
        → append_durable w.sending w.ack (event_of ctx w m) ≡ ok u
        → persist_run lib encode ctx w ≡ (
          ok continue,
          ctx,
          record w {
            offered = w.offered ++ (event_of ctx w m ∷ []);
            durable = w.durable ++ (event_of ctx w m ∷ []);
          },
        )
    unfolding persist_run handled_message persisted
    persist_run-stores w u e = ground (arith, h, e)

    persist_run-refuses :
        (w : World lib) (x : AppendDurableError)
        → append_durable w.sending w.ack (event_of ctx w m) ≡ err x
        → persist_run lib encode ctx w ≡ (
          ok stop,
          record ctx { dlq_reason = some (reason_of x) },
          record w { offered = w.offered ++ (event_of ctx w m ∷ []) },
        )
    unfolding persist_run handled_message persisted mark_dlq
    persist_run-refuses w x e = ground (arith, h, fresh, e)

    dead_letter :
        (front back : List (Stage lib (World lib))) (s : Stage lib (World lib)) (w v v' : World lib)
        (reason : Reason)
        → delivery_stages lib sensor_schema status_schema encode ≡ front ++ (s ∷ back)
        → Reaches lib front ctx w ctx v
        → s.run ctx v ≡ (ok stop, record ctx { dlq_reason = some reason }, v')
        → IsDeadLetter ctx v' reason
            (run lib (delivery_runner lib sensor_schema status_schema encode dlq_topic) ctx w)
    unfolding delivery_runner should_publish_dlq dlq_publish_run payload_for_dlq
    dead_letter front back s w v v' reason split r e =
        let f : Stage lib (World lib) = record {
          name = StageName.dlq_publish;
          run = dlq_publish_run lib dlq_topic;
        } in
        let end =
          run-stops lib front back s f ctx ctx (record ctx { dlq_reason = some reason }) w v v' r
            (inl e) in
        subst
          (λ ss.
            IsDeadLetter ctx v' reason
              (run lib (record { stages = ss; failure_stage = some f }) ctx w))
          (sym split) (subst (λ out. IsDeadLetter ctx v' reason out) (sym end) (refl, refl))

    quiet : should_publish_dlq lib ctx ≡ false
    unfolding should_publish_dlq
    quiet = ground (arith, fresh)

    reached_end :
        {w v : World lib}
        → Reaches lib (delivery_stages lib sensor_schema status_schema encode) ctx w ctx v
        → run_stages lib (delivery_stages lib sensor_schema status_schema encode) ctx w ≡ (ctx, v)
    unfolding delivery_stages run_stages
    reached_end {w} {v} r =
        run_stages-append lib (delivery_stages lib sensor_schema status_schema encode) [] ctx ctx w
          v r

    delivered :
        (w v : World lib)
        → Reaches lib (delivery_stages lib sensor_schema status_schema encode) ctx w ctx v
        → v ≡ record (handed_on ctx w m) { durable = w.durable ++ (event_of ctx w m ∷ []) }
        → IsDurable ctx w m
            (run lib (delivery_runner lib sensor_schema status_schema encode dlq_topic) ctx w)
    unfolding delivery_runner run run_failure_stage
    delivered w v r d =
        let f : Stage lib (World lib) = record {
          name = StageName.dlq_publish;
          run = dlq_publish_run lib dlq_topic;
        } in
        let silent : should_publish_dlq lib ctx ≡ false = quiet in
        let ends = reached_end r in
        subst (λ out. IsDurable ctx w m (run_failure_stage lib (some f) out)) (sym ends)
          (subst
            (λ b. IsDurable ctx w m (if b then ((f.run ctx v).1, (f.run ctx v).2) else (ctx, v)))
            (sym silent) (d, fresh))

    pub run-Verdict :
        (w : World lib)
        → Verdict m ctx w
            (validate_handled_message lib sensor_schema status_schema m)
            (append_durable w.sending w.ack (event_of ctx w m))
            (run lib (delivery_runner lib sensor_schema status_schema encode dlq_topic) ctx w)
    unfolding delivery_stages
    run-Verdict w =
        let business : Stage lib (World lib) = record {
          name = StageName.validate_business;
          run = validate_business_run lib sensor_schema status_schema;
        } in
        let caching : Stage lib (World lib) = record {
          name = StageName.cache_update;
          run = cache_update_run lib;
        } in
        let persisting : Stage lib (World lib) = record {
          name = StageName.persist;
          run = persist_run lib encode;
        } in
        let observing : Stage lib (World lib) = record {
          name = StageName.observe;
          run = observe_run lib;
        } in
        let cached = cache_update_run-continues w in
        let w1 : World lib = record w { cache = (cache_message lib m w).cache } in
        elim (Bool-cases (validate_handled_message lib sensor_schema status_schema m)) [
          | inl v ↦
              let reached : Reaches lib (business ∷ caching ∷ []) ctx w ctx w1 =
                next business (caching ∷ []) ctx ctx ctx w w w1 (validate_business_run-valid w v)
                  (next caching [] ctx ctx ctx w w1 w1 cached (here ctx w1)) in
              elim (Result-cases (append_durable w.sending w.ack (event_of ctx w m))) [
                | inl (u, a) ↦
                    rw (v, a)
                      (delivered w
                        (record w1 {
                          offered = w.offered ++ (event_of ctx w m ∷ []);
                          durable = w.durable ++ (event_of ctx w m ∷ []);
                        })
                        (next business (caching ∷ persisting ∷ observing ∷ []) ctx ctx ctx w w _
                          (validate_business_run-valid w v)
                          (next caching (persisting ∷ observing ∷ []) ctx ctx ctx w w1 _ cached (
                            next persisting (observing ∷ []) ctx ctx ctx w1 _ _
                              (persist_run-stores w1 u a)
                              (next observing [] ctx ctx ctx _ _ _ (observe_run-continues _)
                                (here ctx _)))))
                        refl)
                | inr (x, a) ↦
                    rw (v, a)
                      (dead_letter (business ∷ caching ∷ []) (observing ∷ []) persisting w w1
                        (record w1 { offered = w.offered ++ (event_of ctx w m ∷ []) }) (reason_of x)
                        refl reached (persist_run-refuses w1 x a))
              ]
          | inr v ↦ rw v (
              dead_letter [] (caching ∷ persisting ∷ observing ∷ []) business w w w
                business_validation_failed refl (here ctx w) (validate_business_run-invalid w v))
        ]
