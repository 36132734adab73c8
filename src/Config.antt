-- ===== src/Config.antt =====
-- src/config.rs: the configuration from the environment. `Debug` is left out.
pub mod Names
pub mod Parsed
pub mod Valid
use ingestion_service.Common.{
  ℕ, ◌*◌, ◌^◌, ℤ, Bool, true, false, Option, none, some, List, [], ◌∷◌, ◌++◌, map, Result, ok, err,
  ◌>>=◌, ok_or, ltb, if◌then◌else◌,
}
use ingestion_service.Model.Messages.{Str}
use ingestion_service.Model.Topic.{str_eq, trim_matches, is_whitespace}
use ingestion_service.Cache.{to_ascii_lowercase}
use ingestion_service.Wal.Segment.{parse_u64}
use ingestion_service.Sink.Point.{show_i64}
use ingestion_service.Config.Names.{
  input_source_var, mqtt_host_var, mqtt_port_var, mqtt_username_var, mqtt_password_var,
  mqtt_client_id_var, mqtt_clean_session_var, mqtt_topic_var, output_sink_var, influx_url_var,
  influx_org_var, influx_bucket_var, influx_token_var, batch_size_var, flush_interval_ms_var,
  wal_dir_var, wal_segment_bytes_var, wal_queue_capacity_var, input_queue_capacity_var,
  enforce_topic_device_match_var, metrics_bind_var, cache_ttl_ms_var, cache_bind_var,
  cache_buffer_var, mqtt_text, influx_text, true_text, false_text,
}

pub data InputSourceKind : Type 0 where
  mqtt : InputSourceKind

pub data OutputSinkKind : Type 0 where
  influx : OutputSinkKind

-- Which variable is wrong, and how: it must be set, or its text is none of the type.
pub data ConfigError : Type 0 where
  missing invalid : Str → ConfigError
  unsupported : Str → ConfigError
  no_topics : ConfigError

-- `raw.trim().to_lowercase()` against an ASCII text, which no other letters become.
unfoldable pub is_word : Str → Str → Bool
is_word word raw = str_eq (map to_ascii_lowercase (trim_matches is_whitespace raw)) word

unfoldable pub parse_source : Str → Result ConfigError InputSourceKind
parse_source raw = if is_word mqtt_text raw then ok mqtt else err (unsupported input_source_var)

unfoldable pub parse_sink : Str → Result ConfigError OutputSinkKind
parse_sink raw = if is_word influx_text raw then ok influx else err (unsupported output_sink_var)

pub record MqttSourceConfig : Type 0 where
  pub host : Str
  pub port : ℕ  -- u16
  pub username : Option Str
  pub password : Option Str
  pub client_id : Str
  pub clean_session : Bool

pub record InfluxSinkConfig : Type 0 where
  pub url : Str
  pub org : Str
  pub bucket : Str
  pub token : Str

pub record Config : Type 0 where
  pub input_source : InputSourceKind
  pub mqtt' : Option MqttSourceConfig
  pub topic_routes : List (Str × Str)
  pub output_sink : OutputSinkKind
  pub influx' : Option InfluxSinkConfig
  pub batch_size : ℕ  -- usize
  pub flush_interval_ms : ℕ  -- u64
  pub wal_dir : Str
  pub wal_segment_bytes : ℕ  -- u64
  pub wal_queue_capacity : ℕ  -- usize
  pub input_queue_capacity : ℕ  -- usize
  pub enforce_topic_device_match : Bool
  pub metrics_bind : Str
  pub cache_ttl_ms : ℕ  -- u64
  pub cache_bind : Str
  pub cache_buffer : ℕ  -- usize

-- The variables with their values, each variable once.
abbrev pub Env : Type 0
Env = List (Str × Str)

unfoldable pub lookup : Str → Env → Option Str
lookup k [] = none
lookup k ((key, v) ∷ vars) = let rest = lookup k vars in if str_eq key k then some v else rest

-- `filter(|v| !v.is_empty())`
abbrev pub non_empty : Str → Option Str
non_empty [] = none
non_empty (c ∷ cs) = some (c ∷ cs)

unfoldable pub env_var : Env → Str → Option Str
env_var env k = elim (lookup k env) [
  | none ↦ none
  | some v ↦ non_empty (trim_matches is_whitespace v)
]

-- `env_var(k).context(..)?`
unfoldable pub required : Env → Str → Result ConfigError Str
required env k = ok_or (env_var env k) (missing k)

-- `parse::<u16>`, and `parse` to a number of 64 bits.
unfoldable pub parse_u16 : Str → Option ℕ
parse_u16 s = elim (parse_u64 s) [ none ↦ none | some n ↦ if ltb n (2 ^ 16) then some n else none ]

unfoldable pub parse_bool : Str → Option Bool
parse_bool s =
    if str_eq s true_text then some true else if str_eq s false_text then some false else none

unfoldable pub required_as : {A : Type 0} → (Str → Option A) → Env → Str → Result ConfigError A
required_as parse env k = do s ← required env k; ok_or (parse s) (invalid k)

unfoldable pub number_or : ℕ → Str → Option Str → Result ConfigError ℕ
number_or default k none = ok default
number_or default k (some s) = ok_or (parse_u64 s) (invalid k)

unfoldable pub clean_or_default : Option Str → Result ConfigError Bool
clean_or_default none = ok true
clean_or_default (some s) = ok_or (parse_bool s) (invalid mqtt_clean_session_var)

-- `timestamp` is the time in seconds.
unfoldable pub mqtt_session : ℤ → Option Str → Str → Result ConfigError (Bool × Str)
mqtt_session timestamp clean_session client_id = do
  clean ← clean_or_default clean_session
  ok (clean, if clean then client_id ++ (b'-' ∷ show_i64 timestamp) else client_id)

-- `str::strip_prefix`
unfoldable pub strip_prefix : Str → Str → Option Str
strip_prefix [] s = some s
strip_prefix (c ∷ cs) [] = none
strip_prefix (c ∷ cs) (d ∷ ds) =
    let rest = strip_prefix cs ds in if str_eq (c ∷ []) (d ∷ []) then rest else none

abbrev pub keep_suffix : Option Str → Str → Env → Env
keep_suffix none v vars = vars
keep_suffix (some suffix) v vars = (suffix, v) ∷ vars

unfoldable pub strip_prefixed : Env → Str → Env
strip_prefixed [] prefix = []
strip_prefixed ((k, v) ∷ vars) prefix =
    keep_suffix (strip_prefix prefix k) v (strip_prefixed vars prefix)

abbrev pub some_topics : Env → Result ConfigError Env
some_topics [] = err no_topics
some_topics (r ∷ routes) = ok (r ∷ routes)

unfoldable pub mqtt_config : ℤ → Env → Result ConfigError (MqttSourceConfig × Env)
mqtt_config timestamp env = do
  host ← required env mqtt_host_var
  port ← required_as parse_u16 env mqtt_port_var
  client_id ← required env mqtt_client_id_var
  session ← mqtt_session timestamp (env_var env mqtt_clean_session_var) client_id
  topic_routes ← some_topics (strip_prefixed env mqtt_topic_var)
  ok (
    record {
      host = host;
      port = port;
      username = env_var env mqtt_username_var;
      password = env_var env mqtt_password_var;
      client_id = session.1;
      clean_session = session.0;
    },
    topic_routes,
  )

unfoldable pub influx_config : Env → Result ConfigError InfluxSinkConfig
influx_config env = do
  url ← required env influx_url_var
  org ← required env influx_org_var
  bucket ← required env influx_bucket_var
  token ← required env influx_token_var
  ok (record { url = url; org = org; bucket = bucket; token = token })

unfoldable pub from_env : ℤ → Env → Result ConfigError Config
from_env timestamp env = do
  source ← required env input_source_var
  input_source ← parse_source source
  mqtt_routes ← mqtt_config timestamp env
  sink ← required env output_sink_var
  output_sink ← parse_sink sink
  influx_settings ← influx_config env
  batch_size ← required_as parse_u64 env batch_size_var
  flush_interval_ms ← required_as parse_u64 env flush_interval_ms_var
  wal_dir ← required env wal_dir_var
  wal_segment_bytes ←
      number_or (64 * 1024 * 1024) wal_segment_bytes_var (env_var env wal_segment_bytes_var)
  wal_queue_capacity ← number_or 16384 wal_queue_capacity_var (env_var env wal_queue_capacity_var)
  input_queue_capacity ←
      number_or 16384 input_queue_capacity_var (env_var env input_queue_capacity_var)
  enforce ← required_as parse_bool env enforce_topic_device_match_var
  metrics_bind ← required env metrics_bind_var
  cache_ttl_ms ← required_as parse_u64 env cache_ttl_ms_var
  cache_bind ← required env cache_bind_var
  cache_buffer ← required_as parse_u64 env cache_buffer_var
  ok (record {
    input_source = input_source;
    mqtt' = some mqtt_routes.0;
    topic_routes = mqtt_routes.1;
    output_sink = output_sink;
    influx' = some influx_settings;
    batch_size = batch_size;
    flush_interval_ms = flush_interval_ms;
    wal_dir = wal_dir;
    wal_segment_bytes = wal_segment_bytes;
    wal_queue_capacity = wal_queue_capacity;
    input_queue_capacity = input_queue_capacity;
    enforce_topic_device_match = enforce;
    metrics_bind = metrics_bind;
    cache_ttl_ms = cache_ttl_ms;
    cache_bind = cache_bind;
    cache_buffer = cache_buffer;
  })
