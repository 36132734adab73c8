-- ===== src/Sink/Influx/Names.antt =====
-- The names of measurements, tags and fields in src/infrastructure/sink/influx.rs.
use ingestion_service.Common.{[], ◌∷◌}
use ingestion_service.Model.Messages.{Str}

-- "bme680"
abbrev pub bme680 : Str
bme680 = b'b' ∷ b'm' ∷ b'e' ∷ b'6' ∷ b'8' ∷ b'0' ∷ []

-- "device_status"
abbrev pub device_status : Str
device_status =
    b'd' ∷ b'e' ∷ b'v' ∷ b'i' ∷ b'c' ∷ b'e' ∷ b'_' ∷ b's' ∷ b't' ∷ b'a' ∷ b't' ∷ b'u' ∷ b's' ∷ []

-- "device_id"
abbrev pub device_id : Str
device_id = b'd' ∷ b'e' ∷ b'v' ∷ b'i' ∷ b'c' ∷ b'e' ∷ b'_' ∷ b'i' ∷ b'd' ∷ []

-- "room"
abbrev pub room : Str
room = b'r' ∷ b'o' ∷ b'o' ∷ b'm' ∷ []

-- "device_class"
abbrev pub device_class : Str
device_class =
    b'd' ∷ b'e' ∷ b'v' ∷ b'i' ∷ b'c' ∷ b'e' ∷ b'_' ∷ b'c' ∷ b'l' ∷ b'a' ∷ b's' ∷ b's' ∷ []

-- "firmware_version"
abbrev pub firmware_version : Str
firmware_version =
    b'f' ∷ b'i' ∷ b'r' ∷ b'm' ∷ b'w' ∷ b'a' ∷ b'r' ∷ b'e' ∷ b'_' ∷ b'v' ∷ b'e' ∷ b'r' ∷ b's' ∷ b'i'
    ∷ b'o' ∷ b'n' ∷ []

-- "temp_c"
abbrev pub temp_c : Str
temp_c = b't' ∷ b'e' ∷ b'm' ∷ b'p' ∷ b'_' ∷ b'c' ∷ []

-- "rel_hum_perc"
abbrev pub rel_hum_perc : Str
rel_hum_perc =
    b'r' ∷ b'e' ∷ b'l' ∷ b'_' ∷ b'h' ∷ b'u' ∷ b'm' ∷ b'_' ∷ b'p' ∷ b'e' ∷ b'r' ∷ b'c' ∷ []

-- "pressure_hpa"
abbrev pub pressure_hpa : Str
pressure_hpa =
    b'p' ∷ b'r' ∷ b'e' ∷ b's' ∷ b's' ∷ b'u' ∷ b'r' ∷ b'e' ∷ b'_' ∷ b'h' ∷ b'p' ∷ b'a' ∷ []

-- "gas_ohm"
abbrev pub gas_ohm : Str
gas_ohm = b'g' ∷ b'a' ∷ b's' ∷ b'_' ∷ b'o' ∷ b'h' ∷ b'm' ∷ []

-- "dew_point_c"
abbrev pub dew_point_c : Str
dew_point_c = b'd' ∷ b'e' ∷ b'w' ∷ b'_' ∷ b'p' ∷ b'o' ∷ b'i' ∷ b'n' ∷ b't' ∷ b'_' ∷ b'c' ∷ []

-- "heat_index_c"
abbrev pub heat_index_c : Str
heat_index_c =
    b'h' ∷ b'e' ∷ b'a' ∷ b't' ∷ b'_' ∷ b'i' ∷ b'n' ∷ b'd' ∷ b'e' ∷ b'x' ∷ b'_' ∷ b'c' ∷ []

-- "time_valid"
abbrev pub time_valid : Str
time_valid = b't' ∷ b'i' ∷ b'm' ∷ b'e' ∷ b'_' ∷ b'v' ∷ b'a' ∷ b'l' ∷ b'i' ∷ b'd' ∷ []

-- "iaq_score"
abbrev pub iaq_score : Str
iaq_score = b'i' ∷ b'a' ∷ b'q' ∷ b'_' ∷ b's' ∷ b'c' ∷ b'o' ∷ b'r' ∷ b'e' ∷ []

-- "iaq_text"
abbrev pub iaq_text : Str
iaq_text = b'i' ∷ b'a' ∷ b'q' ∷ b'_' ∷ b't' ∷ b'e' ∷ b'x' ∷ b't' ∷ []

-- "boot_id"
abbrev pub boot_id : Str
boot_id = b'b' ∷ b'o' ∷ b'o' ∷ b't' ∷ b'_' ∷ b'i' ∷ b'd' ∷ []

-- "seq"
abbrev pub seq : Str
seq = b's' ∷ b'e' ∷ b'q' ∷ []

-- "warmed_up"
abbrev pub warmed_up : Str
warmed_up = b'w' ∷ b'a' ∷ b'r' ∷ b'm' ∷ b'e' ∷ b'd' ∷ b'_' ∷ b'u' ∷ b'p' ∷ []

-- "replayed"
abbrev pub replayed : Str
replayed = b'r' ∷ b'e' ∷ b'p' ∷ b'l' ∷ b'a' ∷ b'y' ∷ b'e' ∷ b'd' ∷ []

-- "ip_address"
abbrev pub ip_address : Str
ip_address = b'i' ∷ b'p' ∷ b'_' ∷ b'a' ∷ b'd' ∷ b'd' ∷ b'r' ∷ b'e' ∷ b's' ∷ b's' ∷ []

-- "uptime"
abbrev pub uptime : Str
uptime = b'u' ∷ b'p' ∷ b't' ∷ b'i' ∷ b'm' ∷ b'e' ∷ []

-- "free_mem"
abbrev pub free_mem : Str
free_mem = b'f' ∷ b'r' ∷ b'e' ∷ b'e' ∷ b'_' ∷ b'm' ∷ b'e' ∷ b'm' ∷ []

-- "ssid"
abbrev pub ssid : Str
ssid = b's' ∷ b's' ∷ b'i' ∷ b'd' ∷ []

-- "rssi"
abbrev pub rssi : Str
rssi = b'r' ∷ b's' ∷ b's' ∷ b'i' ∷ []

-- "queued"
abbrev pub queued : Str
queued = b'q' ∷ b'u' ∷ b'e' ∷ b'u' ∷ b'e' ∷ b'd' ∷ []

-- "dropped_total"
abbrev pub dropped_total : Str
dropped_total =
    b'd' ∷ b'r' ∷ b'o' ∷ b'p' ∷ b'p' ∷ b'e' ∷ b'd' ∷ b'_' ∷ b't' ∷ b'o' ∷ b't' ∷ b'a' ∷ b'l' ∷ []

-- "samples_failed_total"
abbrev pub samples_failed_total : Str
samples_failed_total =
    b's' ∷ b'a' ∷ b'm' ∷ b'p' ∷ b'l' ∷ b'e' ∷ b's' ∷ b'_' ∷ b'f' ∷ b'a' ∷ b'i' ∷ b'l' ∷ b'e' ∷ b'd'
    ∷ b'_' ∷ b't' ∷ b'o' ∷ b't' ∷ b'a' ∷ b'l' ∷ []

-- "mqtt_connects_total"
abbrev pub mqtt_connects_total : Str
mqtt_connects_total =
    b'm' ∷ b'q' ∷ b't' ∷ b't' ∷ b'_' ∷ b'c' ∷ b'o' ∷ b'n' ∷ b'n' ∷ b'e' ∷ b'c' ∷ b't' ∷ b's' ∷ b'_'
    ∷ b't' ∷ b'o' ∷ b't' ∷ b'a' ∷ b'l' ∷ []

-- "sensor_read_failures_total"
abbrev pub sensor_read_failures_total : Str
sensor_read_failures_total =
    b's' ∷ b'e' ∷ b'n' ∷ b's' ∷ b'o' ∷ b'r' ∷ b'_' ∷ b'r' ∷ b'e' ∷ b'a' ∷ b'd' ∷ b'_' ∷ b'f' ∷ b'a'
    ∷ b'i' ∷ b'l' ∷ b'u' ∷ b'r' ∷ b'e' ∷ b's' ∷ b'_' ∷ b't' ∷ b'o' ∷ b't' ∷ b'a' ∷ b'l' ∷ []

-- "reset_reason"
abbrev pub reset_reason : Str
reset_reason =
    b'r' ∷ b'e' ∷ b's' ∷ b'e' ∷ b't' ∷ b'_' ∷ b'r' ∷ b'e' ∷ b'a' ∷ b's' ∷ b'o' ∷ b'n' ∷ []
