-- ===== src/Config/Valid.antt =====
-- What a configuration that is accepted has.
use ingestion_service.Common.{◌*◌, ◌^◌, ◌<◌, ◌≡◌, ◌≢◌, none, some, List, [], ◌∷◌, All}
use ingestion_service.Model.Messages.{Str}
use ingestion_service.Config.{MqttSourceConfig, Config, Env, env_var, strip_prefixed}
use ingestion_service.Config.Names.{
  input_source_var, mqtt_host_var, mqtt_port_var, mqtt_client_id_var, output_sink_var,
  influx_url_var, influx_org_var, influx_bucket_var, influx_token_var, batch_size_var,
  flush_interval_ms_var, wal_dir_var, enforce_topic_device_match_var, metrics_bind_var,
  cache_ttl_ms_var, cache_bind_var, cache_buffer_var, wal_segment_bytes_var, wal_queue_capacity_var,
  input_queue_capacity_var, mqtt_topic_var,
}
use ingestion_service.Config.Parsed.{IsGiven}

-- The variables without which there is no configuration.
abbrev pub required_vars : List Str
required_vars =
    input_source_var ∷ mqtt_host_var ∷ mqtt_port_var ∷ mqtt_client_id_var ∷ output_sink_var
    ∷ influx_url_var ∷ influx_org_var ∷ influx_bucket_var ∷ influx_token_var ∷ batch_size_var
    ∷ flush_interval_ms_var ∷ wal_dir_var ∷ enforce_topic_device_match_var ∷ metrics_bind_var
    ∷ cache_ttl_ms_var ∷ cache_bind_var ∷ cache_buffer_var ∷ []

pub record IsValid (env : Env) (cfg : Config) : Type 0 where
  pub set : All (IsGiven env) required_vars
  pub source : (m : MqttSourceConfig) × (cfg.mqtt' ≡ some m) × (m.port < 2 ^ 16)
  pub topics : (cfg.topic_routes ≡ strip_prefixed env mqtt_topic_var) × (cfg.topic_routes ≢ [])
  pub numbers :
      (cfg.batch_size < 2 ^ 64)
      × (cfg.flush_interval_ms < 2 ^ 64)
      × (cfg.wal_segment_bytes < 2 ^ 64)
      × (cfg.wal_queue_capacity < 2 ^ 64)
      × (cfg.input_queue_capacity < 2 ^ 64)
      × (cfg.cache_ttl_ms < 2 ^ 64)
      × (cfg.cache_buffer < 2 ^ 64)
  pub segment_default :
      env_var env wal_segment_bytes_var ≡ none → cfg.wal_segment_bytes ≡ 64 * 1024 * 1024
  pub wal_queue_default : env_var env wal_queue_capacity_var ≡ none → cfg.wal_queue_capacity ≡ 16384
  pub input_queue_default :
      env_var env input_queue_capacity_var ≡ none → cfg.input_queue_capacity ≡ 16384
