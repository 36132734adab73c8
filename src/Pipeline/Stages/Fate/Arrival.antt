-- ===== src/Pipeline/Stages/Fate/Arrival.antt =====
-- That every message which arrives meets its fate, stage by stage from the last to the first.
use ingestion_service.Common.{
  ℕ, ◌≡◌, refl, ap, sym, subst, Option, none, some, List, [], ◌∷◌, ◌++◌, Result, ok, err, ◌>>=◌,
  Result-cases, Option-cases, inl, inr, arith, Bool, true, false,
}
use ingestion_service.Wal.Types.{AppendDurableError}
use ingestion_service.Model.Messages.{Str, MessageType, HandledMessage}
use ingestion_service.Pipeline.Library.{Library}
use ingestion_service.Pipeline.Floats.{Floats}
use ingestion_service.Pipeline.Json.{Json}
use ingestion_service.Pipeline.Router.{validate_raw, message_type_for_topic, deserialize}
use ingestion_service.Pipeline.Router.Dispatch.{IsMessage, validate_raw-deserialize}
use ingestion_service.Pipeline.Transform.{transform_payload}
use ingestion_service.Pipeline.Context.{
  StageName, Reason, payload_too_large, payload_not_utf8, payload_not_json, raw_validation_failed,
  transform_failed, post_transform_deserialization_failed, PipelineContext, new, payload_for_dlq,
  should_publish_dlq, payload_json, set_payload_json, mark_dlq, set_handled_message,
  set_payload_utf8, mark_ignored, no_matching_route,
}
use ingestion_service.Pipeline.Runner.{continue, stop, Stage, run_failure_stage, run}
use ingestion_service.Pipeline.Stages.{
  World, DecodeError, too_large, utf8, decode_payload, decoded, decode_run, validated,
  validate_raw_run, dlq_publish_run,
}
use ingestion_service.Pipeline.Runner.Flow.{run_stages-next, run_stages-stop}
use ingestion_service.Pipeline.Stages.Transforming.{
  transform_run, transform_typed, transformed, deserialized,
}
use ingestion_service.Pipeline.Stages.Outcome.{
  delivery_stages, delivery_runner, Verdict, run-Verdict,
}
use ingestion_service.Pipeline.Stages.Fate.{
  Setup, all_stages, pipeline, map_err, read_as, understood, Fate,
}

module _ (lib : Library) (json : Json lib) ⦃floats : Floats lib.F64⦄ (setup : Setup lib) where
  abbrev failure : Option (Stage lib (World lib))
  failure =
      some (record { name = StageName.dlq_publish; run = dlq_publish_run lib setup.dlq_topic })

  abbrev run_from :
      List (Stage lib (World lib))
      → PipelineContext lib
      → World lib
      → PipelineContext lib × World lib
  run_from ss ctx w = run lib (record { stages = ss; failure_stage = failure }) ctx w

  run_from-next :
      (s : Stage lib (World lib)) (ss : List (Stage lib (World lib)))
      (ctx ctx' : PipelineContext lib) (w w' : World lib)
      → s.run ctx w ≡ (ok continue, ctx', w')
      → run_from (s ∷ ss) ctx w ≡ run_from ss ctx' w'
  unfolding run
  run_from-next s ss ctx ctx' w w' e =
      ap (run_failure_stage lib failure) (run_stages-next lib s ss ctx ctx' w w' e)

  run_from-stop :
      (s : Stage lib (World lib)) (ss : List (Stage lib (World lib)))
      (ctx ctx' : PipelineContext lib) (w w' : World lib)
      → s.run ctx w ≡ (ok stop, ctx', w')
      → run_from (s ∷ ss) ctx w ≡ run_failure_stage lib failure (ctx', w')
  unfolding run
  run_from-stop s ss ctx ctx' w w' e =
      ap (run_failure_stage lib failure) (run_stages-stop lib s ss ctx ctx' w w' e)

  module _ (topic : Str) (raw : List ℕ) (w : World lib) where
    Fate-at :
        (r r' : Result Reason (Option (HandledMessage lib.F64)))
        (o o' : PipelineContext lib × World lib)
        → r ≡ r'
        → o ≡ o'
        → Fate lib json setup topic raw w r' o'
        → Fate lib json setup topic raw w r o
    Fate-at r r' o o' e q f =
        subst (λ x. Fate lib json setup topic raw w x o) (sym e)
          (subst (λ x. Fate lib json setup topic raw w r' x) (sym q) f)

    -- A marked message at the failure stage.
    published :
        (reason : Reason) (utf8_ : Option Str) (value : Option lib.Value)
        → payload_for_dlq lib (record (new lib topic raw) { payload_utf8 = utf8_ })
          ≡ payload_for_dlq lib (new lib topic raw)
        → Fate lib json setup topic raw w (err reason) (
            run_failure_stage lib failure (
              record (new lib topic raw) {
                payload_utf8 = utf8_;
                payload_json = value;
                dlq_reason = some reason;
              },
              w,
            ))
    unfolding run_failure_stage should_publish_dlq dlq_publish_run new payload_for_dlq
    published reason utf8_ value e = (
      ap
          (λ (p : Option Str). record w {
            published =
                w.published
                ++ (record {
                  dlq_topic = setup.dlq_topic;
                  src_topic = topic;
                  payload = p;
                  reason = reason;
                }
                    ∷ []);
          })
          e,
      refl,
    )

    -- The context in front of the business validation.
    abbrev ready : lib.Value → HandledMessage lib.F64 → PipelineContext lib
    ready v m = record (new lib topic raw) { payload_json = some v; handled_message = some m }

    Verdict-start :
        (v : lib.Value) (m : HandledMessage lib.F64) (valid : Bool)
        (appended : Result AppendDurableError (Unit {0})) (out : PipelineContext lib × World lib)
        → Verdict lib setup.sensor_schema setup.status_schema setup.encode setup.dlq_topic m
            (ready v m)
            w
            valid
            appended
            out
        → Verdict lib setup.sensor_schema setup.status_schema setup.encode setup.dlq_topic m
            (new lib topic raw)
            w
            valid
            appended
            out
    unfolding new payload_for_dlq
    Verdict-start v m false appended out h = h
    Verdict-start v m true (ok _) out h = h
    Verdict-start v m true (err x) out h = h

    delivery-Fate :
        (v : lib.Value) (m : HandledMessage lib.F64)
        → Fate lib json setup topic raw w (ok (some m)) (
            run_from
              (delivery_stages lib setup.sensor_schema setup.status_schema setup.encode)
              (ready v m)
              w)
    unfolding new delivery_runner
    delivery-Fate v m = Verdict-start v m _ _ _ (
        run-Verdict lib setup.sensor_schema setup.status_schema setup.encode setup.dlq_topic m
          (ready v m) refl refl w)

    abbrev transforming : Stage lib (World lib)
    transforming = record { name = StageName.transform; run = transform_run lib json setup.router }

    abbrev delivering : List (Stage lib (World lib))
    delivering = delivery_stages lib setup.sensor_schema setup.status_schema setup.encode

    -- The context behind the decoding.
    abbrev parsed : lib.Value → PipelineContext lib
    parsed v = record (new lib topic raw) { payload_json = some v }

    transforming-Fate :
        (v : lib.Value) (t : MessageType)
        → message_type_for_topic lib setup.router topic ≡ some t
        → ((v' : lib.Value) → IsMessage lib t (deserialize lib setup.router topic v'))
        → Fate lib json setup topic raw w
            (read_as lib json setup topic v (some t))
            (run_from (transforming ∷ delivering) (parsed v) w)
    unfolding new read_as transform_run transform_typed transformed deserialized payload_json
        set_payload_json mark_dlq set_handled_message
    transforming-Fate v t typed messages =
        let v' = (transform_payload lib json t v).1 in
        elim (Result-cases (transform_payload lib json t v).0) [
          | inr (x, e) ↦
              Fate-at _ (err (transform_failed x)) _ _ (ground (arith, e))
                (run_from-stop transforming delivering (parsed v)
                  (record (parsed v') { dlq_reason = some (transform_failed x) }) w w
                  (ground (arith, typed, e)))
                (published (transform_failed x) none (some v') refl)
          | inl (u, e) ↦ elim (Result-cases (deserialize lib setup.router topic v')) [
            | inr (x, d) ↦
                Fate-at _ (err (post_transform_deserialization_failed x)) _ _ (ground (arith, e, d))
                  (run_from-stop transforming delivering (parsed v)
                    (record (parsed v') {
                      dlq_reason = some (post_transform_deserialization_failed x);
                    })
                    w w (ground (arith, typed, e, d)))
                  (published (post_transform_deserialization_failed x) none (some v') refl)
            | inl (none, d) ↦ absurd (subst (IsMessage lib t) d (messages v'))
            | inl (some m, d) ↦
                Fate-at _ (ok (some m)) _ _ (ground (arith, e, d))
                  (run_from-next transforming delivering (parsed v) (ready v' m) w w
                    (ground (arith, typed, e, d)))
                  (delivery-Fate v' m)
          ]
        ]

    abbrev validating : Stage lib (World lib)
    validating = record {
      name = StageName.validate_raw;
      run = validate_raw_run lib setup.router setup.enforce_topic_device_match;
    }

    validating-Fate :
        (v : lib.Value)
        → Fate lib json setup topic raw w
            (map_err raw_validation_failed
                (validate_raw lib setup.router topic v setup.enforce_topic_device_match)
              >>= read_as lib json setup topic v)
            (run_from (validating ∷ transforming ∷ delivering) (parsed v) w)
    unfolding new read_as validate_raw_run validated payload_json mark_dlq mark_ignored
        run_failure_stage should_publish_dlq
    validating-Fate v =
        let enforce = setup.enforce_topic_device_match in
        elim (Result-cases (validate_raw lib setup.router topic v enforce)) [
          | inr (x, e) ↦
              Fate-at _ (err (raw_validation_failed x)) _ _ (ground (arith, e))
                (run_from-stop validating (transforming ∷ delivering) (parsed v)
                  (record (parsed v) { dlq_reason = some (raw_validation_failed x) }) w w
                  (ground (arith, e)))
                (published (raw_validation_failed x) none (some v) refl)
          | inl (none, e) ↦
              Fate-at _ (ok none) _ _ (ground (arith, e))
                (run_from-stop validating (transforming ∷ delivering) (parsed v)
                  (record (parsed v) { ignored_reason = some no_matching_route }) w w
                  (ground (arith, e)))
                (refl, refl)
          | inl (some t, e) ↦
              Fate-at _ (read_as lib json setup topic v (some t)) _ _ (ground (arith, e))
                (run_from-next validating (transforming ∷ delivering) (parsed v) (parsed v) w w
                  (ground (arith, e)))
                (transforming-Fate v t
                  (validate_raw-deserialize lib setup.router topic v enforce t v e).0
                  (λ v'. (validate_raw-deserialize lib setup.router topic v enforce t v' e).1))
        ]

    not_json-utf8 :
        (s : Str) → decode_payload lib raw ≡ err (DecodeError.json s) → lib.from_utf8 raw ≡ some s
    unfolding decode_payload
    not_json-utf8 s h = elim (Option-cases (lib.from_utf8 raw)) [
      | inl e ↦ ground (arith, e, h)
      | inr (s', e) ↦ ground (arith, e, h)
    ]

    pub run-Fate :
        Fate lib json setup topic raw w
          (understood lib json setup topic raw)
          (run lib (pipeline lib json setup) (new lib topic raw) w)
    unfolding pipeline all_stages understood decode_run decoded new set_payload_json
        set_payload_utf8 mark_dlq payload_for_dlq
    run-Fate =
        let decoding : Stage lib (World lib) = record {
          name = StageName.decode;
          run = decode_run lib;
        } in
        let rest : List (Stage lib (World lib)) = validating ∷ transforming ∷ delivering in
        elim (Result-cases (decode_payload lib raw)) [
          | inl (v, e) ↦
              Fate-at _
                (map_err raw_validation_failed
                    (validate_raw lib setup.router topic v setup.enforce_topic_device_match)
                  >>= read_as lib json setup topic v)
                _ _ (ground (arith, e))
                (run_from-next decoding rest (new lib topic raw) (parsed v) w w (ground (arith, e)))
                (validating-Fate v)
          | inr (too_large n, e) ↦
              Fate-at _ (err (payload_too_large n)) _ _ (ground (arith, e))
                (run_from-stop decoding rest (new lib topic raw)
                  (record (new lib topic raw) { dlq_reason = some (payload_too_large n) }) w w
                  (ground (arith, e)))
                (published (payload_too_large n) none none refl)
          | inr (utf8, e) ↦
              Fate-at _ (err payload_not_utf8) _ _ (ground (arith, e))
                (run_from-stop decoding rest (new lib topic raw)
                  (record (new lib topic raw) { dlq_reason = some payload_not_utf8 }) w w
                  (ground (arith, e)))
                (published payload_not_utf8 none none refl)
          | inr (DecodeError.json s, e) ↦
              Fate-at _ (err payload_not_json) _ _ (ground (arith, e))
                (run_from-stop decoding rest (new lib topic raw)
                  (record (new lib topic raw) {
                    payload_utf8 = some s;
                    dlq_reason = some payload_not_json;
                  })
                  w w (ground (arith, e)))
                (published payload_not_json (some s) none (sym (not_json-utf8 s e)))
        ]
