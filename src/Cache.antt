-- ===== src/Cache.antt =====
-- src/infrastructure/cache/state.rs: the latest value of each sensor. The map is the list of its
-- entries in an order that its iteration could have.
pub mod Bounded
pub mod Http
use ingestion_service.Common.{
  ℕ, ◌+◌, ◌-◌, Bool, true, false, not, ◌&&◌, Option, none, some, List, [], ◌∷◌, ◌++◌, map, length,
  ltb, leb, if◌then◌else◌,
}
use ingestion_service.Model.Messages.{Str, SensorData, SensorMessage}
use ingestion_service.Model.Topic.{trim_matches, is_whitespace, str_eq}

pub record SensorState (F64 : Type 0) : Type 0 where
  pub last_seen_ms : ℕ
  pub value : SensorData F64

pub data CacheEvent (F64 : Type 0) : Type 0 where
  sensor : Str → ℕ → SensorData F64 → CacheEvent F64

-- The broadcast channel is the list of what was sent.
pub record CacheState (F64 : Type 0) : Type 0 where
  pub sensors : List (Str × SensorState F64)
  pub ttl_ms : ℕ
  pub max_sensors : ℕ
  pub events : List (CacheEvent F64)

unfoldable pub new : {F64 : Type 0} → ℕ → ℕ → CacheState F64
new ttl_ms buffer_size = record {
  sensors = [];
  ttl_ms = ttl_ms;
  max_sensors = buffer_size;
  events = [];
}

-- `to_ascii_lowercase` on one character
unfoldable pub to_ascii_lowercase : ℕ → ℕ
to_ascii_lowercase c = if leb 65 c && leb c 90 then c + 32 else c

unfoldable pub normalize_device_id : Str → Str
normalize_device_id device_id = map to_ascii_lowercase (trim_matches is_whitespace device_id)

module _ {F64 : Type 0} where
  unfoldable pub get : Str → List (Str × SensorState F64) → Option (SensorState F64)
  get k [] = none
  get k ((k', v) ∷ m) = if str_eq k k' then some v else get k m

  unfoldable pub contains_key : Str → List (Str × SensorState F64) → Bool
  contains_key k [] = false
  contains_key k ((k', v) ∷ m) = if str_eq k k' then true else contains_key k m

  unfoldable pub remove : Str → List (Str × SensorState F64) → List (Str × SensorState F64)
  remove k [] = []
  remove k ((k', v) ∷ m) = if str_eq k k' then m else (k', v) ∷ remove k m

  unfoldable pub insert :
      Str → SensorState F64 → List (Str × SensorState F64) → List (Str × SensorState F64)
  insert k v [] = (k, v) ∷ []
  insert k v ((k', v') ∷ m) = if str_eq k k' then (k', v) ∷ m else (k', v') ∷ insert k v m

  -- `min_by_key`, which keeps the first of several.
  unfoldable pub min_by_last_seen :
      Str × SensorState F64 → List (Str × SensorState F64) → Str × SensorState F64
  min_by_last_seen e [] = e
  min_by_last_seen e (e' ∷ m) =
      if ltb (e'.1).last_seen_ms (e.1).last_seen_ms
      then min_by_last_seen e' m
      else min_by_last_seen e m

  -- The removal of the stalest entry.
  unfoldable pub evict : List (Str × SensorState F64) → List (Str × SensorState F64)
  evict [] = []
  evict (e ∷ m) = remove (min_by_last_seen e m).0 (e ∷ m)

  -- The map before the insertion of a key.
  unfoldable pub make_room : ℕ → Str → List (Str × SensorState F64) → List (Str × SensorState F64)
  make_room max_sensors k m =
      if ltb 0 max_sensors && not (contains_key k m) && leb max_sensors (length m)
      then evict m
      else m

  unfoldable pub update_sensor : ℕ → SensorMessage F64 → CacheState F64 → CacheState F64
  update_sensor now_ms sensor_msg c =
      let device_id = normalize_device_id sensor_msg.device_id in
      record c {
        sensors =
            insert device_id (record { last_seen_ms = now_ms; value = sensor_msg.values })
              (make_room c.max_sensors device_id c.sensors);
        events = c.events ++ (sensor device_id now_ms sensor_msg.values ∷ []);
      }

  -- `saturating_sub` is `-` on ℕ.
  unfoldable pub is_stale : ℕ → ℕ → SensorState F64 → Bool
  is_stale now_ms ttl v = ltb ttl (now_ms - v.last_seen_ms)

  unfoldable pub snapshot_all_sensors : ℕ → CacheState F64 → List (Str × SensorState F64 × Bool)
  snapshot_all_sensors now_ms c = map (λ e. (e.0, e.1, is_stale now_ms c.ttl_ms e.1)) c.sensors

  unfoldable pub snapshot_sensor : ℕ → Str → CacheState F64 → Option (SensorState F64 × Bool)
  snapshot_sensor now_ms device_id c = elim (get (normalize_device_id device_id) c.sensors) [
    | some v ↦ some (v, is_stale now_ms c.ttl_ms v)
    | none ↦ none
  ]
