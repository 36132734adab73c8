-- ===== src/Config/Parsed.antt =====
-- What the parts of a configuration that are accepted were read from.
use ingestion_service.Common.{
  ℕ, ◌+◌, ◌*◌, ◌-◌, ◌^◌, ◌<◌, ◌≡◌, ◌≢◌, sym, ap, subst, ◌∙◌, ℤ, ◌&&◌, Option, none, some, [], ◌∷◌,
  ok, ltb, leb, ◌==◌, arith, bind-inv, ok_or-inv, Option-cases, Bool-cases, inl, inr,
}
use ingestion_service.Model.Messages.{Str}
use ingestion_service.Wal.Segment.{parse_digits, parse_u64}
use ingestion_service.Config.{
  ConfigError, MqttSourceConfig, InfluxSinkConfig, Env, env_var, required, parse_u16, required_as,
  number_or, mqtt_session, strip_prefixed, some_topics, mqtt_config, influx_config,
}
use ingestion_service.Config.Names.{
  mqtt_host_var, mqtt_port_var, mqtt_client_id_var, influx_url_var, influx_org_var,
  influx_bucket_var, influx_token_var, mqtt_topic_var, mqtt_clean_session_var,
}

parse_digits-bound : (acc n : ℕ) (s : Str) → acc < 2 ^ 64 → parse_digits acc s ≡ some n → n < 2 ^ 64
unfolding parse_digits
parse_digits-bound acc n [] h e = ground (arith, e)
parse_digits-bound acc n (c ∷ s) h e =
    elim (Bool-cases (leb b'0' c && leb c b'9' && ltb (acc * 10 + (c - b'0')) (2 ^ 64))) [
      | inl t ↦
          parse_digits-bound (acc * 10 + (c - b'0')) n s (ground (arith, t)) (ground (arith, t, e))
      | inr f ↦ ground (arith, f, e)
    ]

pub parse_u64-bound : (s : Str) (n : ℕ) → parse_u64 s ≡ some n → n < 2 ^ 64
unfolding parse_u64
parse_u64-bound [] n e = cc e
parse_u64-bound (c ∷ []) n e = elim (Bool-cases (c == b'+')) [
  | inl t ↦ ground (arith, t, e)
  | inr f ↦ parse_digits-bound 0 n (c ∷ []) (omega arith) (ground (arith, f, e))
]
parse_u64-bound (c ∷ d ∷ cs) n e = elim (Bool-cases (c == b'+')) [
  | inl t ↦ parse_digits-bound 0 n (d ∷ cs) (omega arith) (ground (arith, t, e))
  | inr f ↦ parse_digits-bound 0 n (c ∷ d ∷ cs) (omega arith) (ground (arith, f, e))
]

parse_u16-bound : (s : Str) (n : ℕ) → parse_u16 s ≡ some n → n < 2 ^ 16
unfolding parse_u16
parse_u16-bound s n e = elim (Option-cases (parse_u64 s)) [
  | inl t ↦ ground (arith, t, e)
  | inr (m, t) ↦ ground (arith, t, e)
]

-- A variable that is set to more than space.
abbrev pub IsGiven : Env → Str → Type 0
IsGiven env k = (v : Str) × (env_var env k ≡ some v)

pub required-inv : (env : Env) (k v : Str) → required env k ≡ ok v → env_var env k ≡ some v
unfolding required
required-inv env k v h = ok_or-inv (env_var env k) (ConfigError.missing k) v h

pub required_as-inv :
    {A : Type 0} (parse : Str → Option A) (env : Env) (k : Str) (a : A)
    → required_as parse env k ≡ ok a
    → (s : Str) × (env_var env k ≡ some s) × (parse s ≡ some a)
unfolding required_as
required_as-inv parse env k a h =
    let (s, e, h1) = bind-inv (required env k) _ a h in
    (s, required-inv env k s e, ok_or-inv (parse s) (ConfigError.invalid k) a h1)

pub number_or-bound :
    (default n : ℕ) (k : Str) (o : Option Str)
    → default < 2 ^ 64
    → number_or default k o ≡ ok n
    → n < 2 ^ 64
unfolding number_or
number_or-bound default n k none h e = ground (arith, e)
number_or-bound default n k (some s) h e =
    parse_u64-bound s n (ok_or-inv (parse_u64 s) (ConfigError.invalid k) n e)

pub number_or-default :
    (default n : ℕ) (k : Str) (o : Option Str)
    → number_or default k o ≡ ok n
    → o ≡ none
    → n ≡ default
unfolding number_or
number_or-default default n k none e h = ground (arith, e)
number_or-default default n k (some s) e h = cc h

some_topics-inv : (l r : Env) → some_topics l ≡ ok r → (r ≡ l) × (r ≢ [])
some_topics-inv [] r h = cc h
some_topics-inv (x ∷ l) r h = (ground (arith, h), λ e. cc (h, e))

pub mqtt_config-inv :
    (timestamp : ℤ) (env : Env) (m : MqttSourceConfig) (routes : Env)
    → mqtt_config timestamp env ≡ ok (m, routes)
    → (env_var env mqtt_host_var ≡ some m.host)
      × IsGiven env mqtt_port_var
      × IsGiven env mqtt_client_id_var
      × (m.port < 2 ^ 16)
      × (routes ≡ strip_prefixed env mqtt_topic_var)
      × (routes ≢ [])
unfolding mqtt_config
mqtt_config-inv timestamp env m routes h =
    let (host, e1, h1) = bind-inv (required env mqtt_host_var) _ (m, routes) h in
    let (port, e2, h2) = bind-inv (required_as parse_u16 env mqtt_port_var) _ (m, routes) h1 in
    let (id, e3, h3) = bind-inv (required env mqtt_client_id_var) _ (m, routes) h2 in
    let (session, e4, h4) =
      bind-inv (mqtt_session timestamp (env_var env mqtt_clean_session_var) id) _ (m, routes) h3 in
    let (rs, e5, h5) =
      bind-inv (some_topics (strip_prefixed env mqtt_topic_var)) _ (m, routes) h4 in
    let (s, e6, e7) = required_as-inv parse_u16 env mqtt_port_var port e2 in
    let (same, full) = some_topics-inv (strip_prefixed env mqtt_topic_var) rs e5 in
    let same_host : host ≡ m.host = ground (arith, h5) in
    let same_port : port ≡ m.port = ground (arith, h5) in
    let same_routes : rs ≡ routes = ground (arith, h5) in
    (
      required-inv env mqtt_host_var host e1 ∙ ap (λ x. some x) same_host,
      (s, e6),
      (id, required-inv env mqtt_client_id_var id e3),
      omega (arith, same_port, parse_u16-bound s port e7),
      sym same_routes ∙ same,
      subst (λ x. x ≢ []) same_routes full,
    )

pub influx_config-inv :
    (env : Env) (i : InfluxSinkConfig)
    → influx_config env ≡ ok i
    → IsGiven env influx_url_var
      × IsGiven env influx_org_var
      × IsGiven env influx_bucket_var
      × IsGiven env influx_token_var
unfolding influx_config
influx_config-inv env i h =
    let (url, e1, h1) = bind-inv (required env influx_url_var) _ i h in
    let (org, e2, h2) = bind-inv (required env influx_org_var) _ i h1 in
    let (bucket, e3, h3) = bind-inv (required env influx_bucket_var) _ i h2 in
    let (token, e4, h4) = bind-inv (required env influx_token_var) _ i h3 in
    (
      (url, required-inv env influx_url_var url e1),
      (org, required-inv env influx_org_var org e2),
      (bucket, required-inv env influx_bucket_var bucket e3),
      (token, required-inv env influx_token_var token e4),
    )
