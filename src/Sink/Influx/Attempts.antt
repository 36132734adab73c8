-- ===== src/Sink/Influx/Attempts.antt =====
-- What a write to InfluxDB comes to, by the answers to its requests.
use ingestion_service.Common.{
  ℕ, suc, ◌-◌, ◌*◌, ◌≡◌, refl, Bool, not, ◌&&◌, Option, none, some, List, [], ◌∷◌, ◌++◌, take, ◌==◌,
  if◌then◌else◌, arith, Option-cases, inl, inr,
}
use ingestion_service.Wal.Types.{WalEvent}
use ingestion_service.Wal.Forwarder.{Response, written, retryable, permanent}
use ingestion_service.Model.Messages.{Str}
use ingestion_service.Sink.Influx.{
  Sent, failed, status, Effect, slept, posted, is_permanent_status, sleep_for, attempts, write,
  build_body,
}

module _ (is_success is_client_error : ℕ → Bool) where
  -- The answers that end the attempts: a success, and a status that a repetition cannot change.
  unfoldable pub decisive : Sent → Option Response
  decisive failed = none
  decisive (status code) =
      if is_success code
      then some written
      else if is_client_error code && (not (code == 408) && not (code == 429))
      then some permanent
      else none

  abbrev pub first_decisive : List Sent → Response
  first_decisive [] = retryable
  first_decisive (a ∷ answers) = elim (decisive a) [ some r ↦ r | none ↦ first_decisive answers ]

  -- How many requests are made until one is decisive.
  abbrev pub tries : List Sent → ℕ
  tries [] = 0
  tries (a ∷ answers) = elim (decisive a) [ some _ ↦ 1 | none ↦ suc (tries answers) ]

  attempts-decisive :
      (n attempt : ℕ) (body : Str) (a : Sent) (answers : List Sent) (r : Response)
      → decisive a ≡ some r
      → attempts is_success is_client_error (suc n) attempt body (a ∷ answers)
        ≡ (some r, sleep_for is_success is_client_error attempt ++ (posted body ∷ []))
  unfolding attempts decisive is_permanent_status
  attempts-decisive n attempt body failed answers r h = cc
  attempts-decisive n attempt body (status code) answers r h = ground (arith, h)

  attempts-again :
      (n attempt : ℕ) (body : Str) (a : Sent) (answers : List Sent)
      → decisive a ≡ none
      → attempts is_success is_client_error (suc n) attempt body (a ∷ answers) ≡ (
        (attempts is_success is_client_error n (suc attempt) body answers).0,
        sleep_for is_success is_client_error attempt
            ++ (posted body ∷ (attempts is_success is_client_error n (suc attempt) body answers).1),
      )
  unfolding attempts decisive is_permanent_status
  attempts-again n attempt body failed answers h = refl
  attempts-again n attempt body (status code) answers h = ground (arith, h)

  -- The effects of three attempts.
  abbrev pub all_attempts : Str → List Effect
  all_attempts body = posted body ∷ slept 1 ∷ posted body ∷ slept 2 ∷ posted body ∷ []

  -- A write of a batch that is not empty comes to what the first decisive of three answers says, and to
  -- an error that may be retried where none is: a success is one, and so is a client error other than
  -- 408 and 429, which is permanent. It posts the whole body up to that answer, at most three times, and
  -- sleeps a second and two seconds in between.
  pub write-decides :
      (e : WalEvent) (es : List WalEvent) (a b c : Sent) (answers : List Sent)
      → write is_success is_client_error (e ∷ es) (a ∷ b ∷ c ∷ answers) ≡ (
        some (first_decisive (a ∷ b ∷ c ∷ [])),
        take (2 * tries (a ∷ b ∷ c ∷ []) - 1) (all_attempts (build_body (e ∷ es))),
      )
  unfolding write attempts
  write-decides e es a b c answers =
      let body = build_body (e ∷ es) in
      elim (Option-cases (decisive a)) [
        | inr (r, d) ↦ ground (arith, d, attempts-decisive 2 0 body a (b ∷ c ∷ answers) r d)
        | inl d ↦ elim (Option-cases (decisive b)) [
          | inr (r, d') ↦ ground (
            arith,
            d,
            d',
            attempts-again 2 0 body a (b ∷ c ∷ answers) d,
            attempts-decisive 1 1 body b (c ∷ answers) r d',
          )
          | inl d' ↦ elim (Option-cases (decisive c)) [
            | inr (r, d'') ↦ ground (
              arith,
              d,
              d',
              d'',
              attempts-again 2 0 body a (b ∷ c ∷ answers) d,
              attempts-again 1 1 body b (c ∷ answers) d',
              attempts-decisive 0 2 body c answers r d'',
            )
            | inl d'' ↦ ground (
              arith,
              d,
              d',
              d'',
              attempts-again 2 0 body a (b ∷ c ∷ answers) d,
              attempts-again 1 1 body b (c ∷ answers) d',
              attempts-again 0 2 body c answers d'',
            )
          ]
        ]
      ]
