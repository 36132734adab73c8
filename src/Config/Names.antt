-- ===== src/Config/Names.antt =====
-- The environment variables of src/config.rs, and the texts that it compares with.
use ingestion_service.Common.{[], ◌∷◌}
use ingestion_service.Model.Messages.{Str}

-- "INPUT_SOURCE"
abbrev pub input_source_var : Str
input_source_var =
    b'I' ∷ b'N' ∷ b'P' ∷ b'U' ∷ b'T' ∷ b'_' ∷ b'S' ∷ b'O' ∷ b'U' ∷ b'R' ∷ b'C' ∷ b'E' ∷ []

-- "MQTT_HOST"
abbrev pub mqtt_host_var : Str
mqtt_host_var = b'M' ∷ b'Q' ∷ b'T' ∷ b'T' ∷ b'_' ∷ b'H' ∷ b'O' ∷ b'S' ∷ b'T' ∷ []

-- "MQTT_PORT"
abbrev pub mqtt_port_var : Str
mqtt_port_var = b'M' ∷ b'Q' ∷ b'T' ∷ b'T' ∷ b'_' ∷ b'P' ∷ b'O' ∷ b'R' ∷ b'T' ∷ []

-- "MQTT_USERNAME"
abbrev pub mqtt_username_var : Str
mqtt_username_var =
    b'M' ∷ b'Q' ∷ b'T' ∷ b'T' ∷ b'_' ∷ b'U' ∷ b'S' ∷ b'E' ∷ b'R' ∷ b'N' ∷ b'A' ∷ b'M' ∷ b'E' ∷ []

-- "MQTT_PASSWORD"
abbrev pub mqtt_password_var : Str
mqtt_password_var =
    b'M' ∷ b'Q' ∷ b'T' ∷ b'T' ∷ b'_' ∷ b'P' ∷ b'A' ∷ b'S' ∷ b'S' ∷ b'W' ∷ b'O' ∷ b'R' ∷ b'D' ∷ []

-- "MQTT_CLIENT_ID"
abbrev pub mqtt_client_id_var : Str
mqtt_client_id_var =
    b'M' ∷ b'Q' ∷ b'T' ∷ b'T' ∷ b'_' ∷ b'C' ∷ b'L' ∷ b'I' ∷ b'E' ∷ b'N' ∷ b'T' ∷ b'_' ∷ b'I' ∷ b'D'
    ∷ []

-- "MQTT_CLEAN_SESSION"
abbrev pub mqtt_clean_session_var : Str
mqtt_clean_session_var =
    b'M' ∷ b'Q' ∷ b'T' ∷ b'T' ∷ b'_' ∷ b'C' ∷ b'L' ∷ b'E' ∷ b'A' ∷ b'N' ∷ b'_' ∷ b'S' ∷ b'E' ∷ b'S'
    ∷ b'S' ∷ b'I' ∷ b'O' ∷ b'N' ∷ []

-- "MQTT_TOPIC_"
abbrev pub mqtt_topic_var : Str
mqtt_topic_var = b'M' ∷ b'Q' ∷ b'T' ∷ b'T' ∷ b'_' ∷ b'T' ∷ b'O' ∷ b'P' ∷ b'I' ∷ b'C' ∷ b'_' ∷ []

-- "OUTPUT_SINK"
abbrev pub output_sink_var : Str
output_sink_var = b'O' ∷ b'U' ∷ b'T' ∷ b'P' ∷ b'U' ∷ b'T' ∷ b'_' ∷ b'S' ∷ b'I' ∷ b'N' ∷ b'K' ∷ []

-- "INFLUX_URL"
abbrev pub influx_url_var : Str
influx_url_var = b'I' ∷ b'N' ∷ b'F' ∷ b'L' ∷ b'U' ∷ b'X' ∷ b'_' ∷ b'U' ∷ b'R' ∷ b'L' ∷ []

-- "INFLUX_ORG"
abbrev pub influx_org_var : Str
influx_org_var = b'I' ∷ b'N' ∷ b'F' ∷ b'L' ∷ b'U' ∷ b'X' ∷ b'_' ∷ b'O' ∷ b'R' ∷ b'G' ∷ []

-- "INFLUX_BUCKET"
abbrev pub influx_bucket_var : Str
influx_bucket_var =
    b'I' ∷ b'N' ∷ b'F' ∷ b'L' ∷ b'U' ∷ b'X' ∷ b'_' ∷ b'B' ∷ b'U' ∷ b'C' ∷ b'K' ∷ b'E' ∷ b'T' ∷ []

-- "INFLUX_TOKEN"
abbrev pub influx_token_var : Str
influx_token_var =
    b'I' ∷ b'N' ∷ b'F' ∷ b'L' ∷ b'U' ∷ b'X' ∷ b'_' ∷ b'T' ∷ b'O' ∷ b'K' ∷ b'E' ∷ b'N' ∷ []

-- "BATCH_SIZE"
abbrev pub batch_size_var : Str
batch_size_var = b'B' ∷ b'A' ∷ b'T' ∷ b'C' ∷ b'H' ∷ b'_' ∷ b'S' ∷ b'I' ∷ b'Z' ∷ b'E' ∷ []

-- "FLUSH_INTERVAL_MS"
abbrev pub flush_interval_ms_var : Str
flush_interval_ms_var =
    b'F' ∷ b'L' ∷ b'U' ∷ b'S' ∷ b'H' ∷ b'_' ∷ b'I' ∷ b'N' ∷ b'T' ∷ b'E' ∷ b'R' ∷ b'V' ∷ b'A' ∷ b'L'
    ∷ b'_' ∷ b'M' ∷ b'S' ∷ []

-- "WAL_DIR"
abbrev pub wal_dir_var : Str
wal_dir_var = b'W' ∷ b'A' ∷ b'L' ∷ b'_' ∷ b'D' ∷ b'I' ∷ b'R' ∷ []

-- "WAL_SEGMENT_BYTES"
abbrev pub wal_segment_bytes_var : Str
wal_segment_bytes_var =
    b'W' ∷ b'A' ∷ b'L' ∷ b'_' ∷ b'S' ∷ b'E' ∷ b'G' ∷ b'M' ∷ b'E' ∷ b'N' ∷ b'T' ∷ b'_' ∷ b'B' ∷ b'Y'
    ∷ b'T' ∷ b'E' ∷ b'S' ∷ []

-- "WAL_QUEUE_CAPACITY"
abbrev pub wal_queue_capacity_var : Str
wal_queue_capacity_var =
    b'W' ∷ b'A' ∷ b'L' ∷ b'_' ∷ b'Q' ∷ b'U' ∷ b'E' ∷ b'U' ∷ b'E' ∷ b'_' ∷ b'C' ∷ b'A' ∷ b'P' ∷ b'A'
    ∷ b'C' ∷ b'I' ∷ b'T' ∷ b'Y' ∷ []

-- "INPUT_QUEUE_CAPACITY"
abbrev pub input_queue_capacity_var : Str
input_queue_capacity_var =
    b'I' ∷ b'N' ∷ b'P' ∷ b'U' ∷ b'T' ∷ b'_' ∷ b'Q' ∷ b'U' ∷ b'E' ∷ b'U' ∷ b'E' ∷ b'_' ∷ b'C' ∷ b'A'
    ∷ b'P' ∷ b'A' ∷ b'C' ∷ b'I' ∷ b'T' ∷ b'Y' ∷ []

-- "ENFORCE_TOPIC_DEVICE_MATCH"
abbrev pub enforce_topic_device_match_var : Str
enforce_topic_device_match_var =
    b'E' ∷ b'N' ∷ b'F' ∷ b'O' ∷ b'R' ∷ b'C' ∷ b'E' ∷ b'_' ∷ b'T' ∷ b'O' ∷ b'P' ∷ b'I' ∷ b'C' ∷ b'_'
    ∷ b'D' ∷ b'E' ∷ b'V' ∷ b'I' ∷ b'C' ∷ b'E' ∷ b'_' ∷ b'M' ∷ b'A' ∷ b'T' ∷ b'C' ∷ b'H' ∷ []

-- "METRICS_BIND"
abbrev pub metrics_bind_var : Str
metrics_bind_var =
    b'M' ∷ b'E' ∷ b'T' ∷ b'R' ∷ b'I' ∷ b'C' ∷ b'S' ∷ b'_' ∷ b'B' ∷ b'I' ∷ b'N' ∷ b'D' ∷ []

-- "CACHE_TTL_MS"
abbrev pub cache_ttl_ms_var : Str
cache_ttl_ms_var =
    b'C' ∷ b'A' ∷ b'C' ∷ b'H' ∷ b'E' ∷ b'_' ∷ b'T' ∷ b'T' ∷ b'L' ∷ b'_' ∷ b'M' ∷ b'S' ∷ []

-- "CACHE_BIND"
abbrev pub cache_bind_var : Str
cache_bind_var = b'C' ∷ b'A' ∷ b'C' ∷ b'H' ∷ b'E' ∷ b'_' ∷ b'B' ∷ b'I' ∷ b'N' ∷ b'D' ∷ []

-- "CACHE_BUFFER"
abbrev pub cache_buffer_var : Str
cache_buffer_var =
    b'C' ∷ b'A' ∷ b'C' ∷ b'H' ∷ b'E' ∷ b'_' ∷ b'B' ∷ b'U' ∷ b'F' ∷ b'F' ∷ b'E' ∷ b'R' ∷ []

-- "mqtt"
abbrev pub mqtt_text : Str
mqtt_text = b'm' ∷ b'q' ∷ b't' ∷ b't' ∷ []

-- "influx"
abbrev pub influx_text : Str
influx_text = b'i' ∷ b'n' ∷ b'f' ∷ b'l' ∷ b'u' ∷ b'x' ∷ []

-- "true"
abbrev pub true_text : Str
true_text = b't' ∷ b'r' ∷ b'u' ∷ b'e' ∷ []

-- "false"
abbrev pub false_text : Str
false_text = b'f' ∷ b'a' ∷ b'l' ∷ b's' ∷ b'e' ∷ []
