-- ===== src/Pipeline/Transform/Keys.antt =====
-- The keys of src/pipeline/stages/transform.rs.
use ingestion_service.Common.{[], ◌∷◌}
use ingestion_service.Model.Messages.{Str}

-- "device_id"
abbrev pub device_id : Str
device_id = b'd' ∷ b'e' ∷ b'v' ∷ b'i' ∷ b'c' ∷ b'e' ∷ b'_' ∷ b'i' ∷ b'd' ∷ []

-- "room"
abbrev pub room : Str
room = b'r' ∷ b'o' ∷ b'o' ∷ b'm' ∷ []

-- "device_class"
abbrev pub device_class : Str
device_class =
    b'd' ∷ b'e' ∷ b'v' ∷ b'i' ∷ b'c' ∷ b'e' ∷ b'_' ∷ b'c' ∷ b'l' ∷ b'a' ∷ b's' ∷ b's' ∷ []

-- "fw_version"
abbrev pub fw_version : Str
fw_version = b'f' ∷ b'w' ∷ b'_' ∷ b'v' ∷ b'e' ∷ b'r' ∷ b's' ∷ b'i' ∷ b'o' ∷ b'n' ∷ []

-- "time_iso"
abbrev pub time_iso : Str
time_iso = b't' ∷ b'i' ∷ b'm' ∷ b'e' ∷ b'_' ∷ b'i' ∷ b's' ∷ b'o' ∷ []

-- "ip"
abbrev pub ip : Str
ip = b'i' ∷ b'p' ∷ []

-- "ssid"
abbrev pub ssid : Str
ssid = b's' ∷ b's' ∷ b'i' ∷ b'd' ∷ []

-- "uptime"
abbrev pub uptime : Str
uptime = b'u' ∷ b'p' ∷ b't' ∷ b'i' ∷ b'm' ∷ b'e' ∷ []

-- "free_mem"
abbrev pub free_mem : Str
free_mem = b'f' ∷ b'r' ∷ b'e' ∷ b'e' ∷ b'_' ∷ b'm' ∷ b'e' ∷ b'm' ∷ []

-- "data"
abbrev pub data' : Str
data' = b'd' ∷ b'a' ∷ b't' ∷ b'a' ∷ []

-- "temp_c"
abbrev pub temp_c : Str
temp_c = b't' ∷ b'e' ∷ b'm' ∷ b'p' ∷ b'_' ∷ b'c' ∷ []

-- "rel_hum_perc"
abbrev pub rel_hum_perc : Str
rel_hum_perc =
    b'r' ∷ b'e' ∷ b'l' ∷ b'_' ∷ b'h' ∷ b'u' ∷ b'm' ∷ b'_' ∷ b'p' ∷ b'e' ∷ b'r' ∷ b'c' ∷ []

-- "pressure_hpa"
abbrev pub pressure_hpa : Str
pressure_hpa =
    b'p' ∷ b'r' ∷ b'e' ∷ b's' ∷ b's' ∷ b'u' ∷ b'r' ∷ b'e' ∷ b'_' ∷ b'h' ∷ b'p' ∷ b'a' ∷ []

-- "gas_ohm"
abbrev pub gas_ohm : Str
gas_ohm = b'g' ∷ b'a' ∷ b's' ∷ b'_' ∷ b'o' ∷ b'h' ∷ b'm' ∷ []

-- "altitude_m"
abbrev pub altitude_m : Str
altitude_m = b'a' ∷ b'l' ∷ b't' ∷ b'i' ∷ b't' ∷ b'u' ∷ b'd' ∷ b'e' ∷ b'_' ∷ b'm' ∷ []

-- "dew_point_c"
abbrev pub dew_point_c : Str
dew_point_c = b'd' ∷ b'e' ∷ b'w' ∷ b'_' ∷ b'p' ∷ b'o' ∷ b'i' ∷ b'n' ∷ b't' ∷ b'_' ∷ b'c' ∷ []

-- "heat_index_c"
abbrev pub heat_index_c : Str
heat_index_c =
    b'h' ∷ b'e' ∷ b'a' ∷ b't' ∷ b'_' ∷ b'i' ∷ b'n' ∷ b'd' ∷ b'e' ∷ b'x' ∷ b'_' ∷ b'c' ∷ []

-- "iaq_score"
abbrev pub iaq_score : Str
iaq_score = b'i' ∷ b'a' ∷ b'q' ∷ b'_' ∷ b's' ∷ b'c' ∷ b'o' ∷ b'r' ∷ b'e' ∷ []

-- "iaq_text"
abbrev pub iaq_text : Str
iaq_text = b'i' ∷ b'a' ∷ b'q' ∷ b'_' ∷ b't' ∷ b'e' ∷ b'x' ∷ b't' ∷ []
