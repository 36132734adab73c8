-- ===== src/Tests/Configuring.antt =====
-- A configuration from an environment with one topic.
use ingestion_service.Common.{none, some, true, false, [], ◌∷◌, ◌++◌}
use ingestion_service.Model.Messages.{Str}
use ingestion_service.Config.{Config, Env, mqtt, influx}
use ingestion_service.Config.Names.{
  input_source_var, mqtt_host_var, mqtt_port_var, mqtt_client_id_var, output_sink_var,
  influx_url_var, influx_org_var, influx_bucket_var, influx_token_var, batch_size_var,
  flush_interval_ms_var, wal_dir_var, enforce_topic_device_match_var, metrics_bind_var,
  cache_ttl_ms_var, cache_bind_var, cache_buffer_var, mqtt_topic_var, mqtt_text, influx_text,
  false_text,
}

abbrev word : Str
word = b'w' ∷ []

abbrev five : Str
five = b'5' ∷ []

abbrev environment : Env
environment =
    (input_source_var, mqtt_text)
    ∷ (mqtt_host_var, word)
    ∷ (mqtt_port_var, five)
    ∷ (mqtt_client_id_var, word)
    ∷ (output_sink_var, influx_text)
    ∷ (influx_url_var, word)
    ∷ (influx_org_var, word)
    ∷ (influx_bucket_var, word)
    ∷ (influx_token_var, word)
    ∷ (batch_size_var, five)
    ∷ (flush_interval_ms_var, five)
    ∷ (wal_dir_var, word)
    ∷ (enforce_topic_device_match_var, false_text)
    ∷ (metrics_bind_var, word)
    ∷ (cache_ttl_ms_var, five)
    ∷ (cache_bind_var, word)
    ∷ (cache_buffer_var, five)
    ∷ (mqtt_topic_var ++ (b'A' ∷ []), word)
    ∷ []

abbrev configuration : Config
configuration = record {
  input_source = mqtt;
  mqtt' = some (record {
    host = word;
    port = 5;
    username = none;
    password = none;
    client_id = word ++ (b'-' ∷ b'9' ∷ []);
    clean_session = true;
  });
  topic_routes = (b'A' ∷ [], word) ∷ [];
  output_sink = influx;
  influx' = some (record { url = word; org = word; bucket = word; token = word });
  batch_size = 5;
  flush_interval_ms = 5;
  wal_dir = word;
  wal_segment_bytes = 67108864;
  wal_queue_capacity = 16384;
  input_queue_capacity = 16384;
  enforce_topic_device_match = false;
  metrics_bind = word;
  cache_ttl_ms = 5;
  cache_bind = word;
  cache_buffer = 5;
}
