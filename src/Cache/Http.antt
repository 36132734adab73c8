-- ===== src/Cache/Http.antt =====
-- src/infrastructure/cache/http.rs: the handlers of the cache's HTTP interface, up to the serialization
-- of what they answer.
use ingestion_service.Common.{
  ℕ, ◌-◌, ◌≡◌, refl, ap, ◌∙◌, Bool, Option, none, some, List, [], ◌∷◌, ◌++◌, map, ltb,
  if◌then◌else◌, arith, Bool-cases, inl, inr,
}
use ingestion_service.Model.Messages.{Str, SensorData, SensorMessage}
use ingestion_service.Model.Topic.{str_eq}
use ingestion_service.Model.Topic.Matching.{str_eq_sound}
use ingestion_service.Cache.{
  SensorState, CacheEvent, sensor, CacheState, normalize_device_id, insert, make_room,
  update_sensor, is_stale, snapshot_all_sensors, snapshot_sensor,
}
use ingestion_service.Cache.Bounded.{snapshot_sensor-update_sensor}

pub data Status : Type 0 where
  ok_status service_unavailable : Status

abbrev pub healthz : Status
healthz = ok_status

unfoldable pub readyz : Bool → Status
readyz source_ready = if source_ready then ok_status else service_unavailable

module _ (F64 : Type 0) where
  pub record SensorDto : Type 0 where
    pub device_id : Str
    pub stale : Bool
    pub last_seen_ms : ℕ
    pub value : SensorData F64

  pub record SensorStateResponse : Type 0 where
    pub ttl_ms : ℕ
    pub sensors : List SensorDto

  pub record SensorDtoNoId : Type 0 where
    pub stale : Bool
    pub last_seen_ms : ℕ
    pub value : SensorData F64

  pub record DeviceStateResponse : Type 0 where
    pub ttl_ms : ℕ
    pub device_id : Str
    pub sensor' : Option SensorDtoNoId

  -- Its kind is always "sensor".
  pub record SseSensorEvent : Type 0 where
    pub device_id : Str
    pub last_seen_ms : ℕ
    pub value : SensorData F64

  -- What a subscriber receives, and what is sent to it: a JSON text, or the hint to poll.
  pub data Received : Type 0 where
    event : CacheEvent F64 → Received
    lagged : ℕ → Received

  pub data SseEvent : Type 0 where
    sensor_event : Str → SseEvent
    lagged_event : SseEvent

  abbrev pub dto_of : Str × SensorState F64 × Bool → SensorDto
  dto_of (id, state, stale) = record {
    device_id = id;
    stale = stale;
    last_seen_ms = state.last_seen_ms;
    value = state.value;
  }

  unfoldable pub list_state : ℕ → CacheState F64 → SensorStateResponse
  list_state now_ms c = record {
    ttl_ms = c.ttl_ms;
    sensors = map dto_of (snapshot_all_sensors now_ms c);
  }

  abbrev pub sensor_of : Option (SensorState F64 × Bool) → Option SensorDtoNoId
  sensor_of none = none
  sensor_of (some (state, stale)) =
      some (record { stale = stale; last_seen_ms = state.last_seen_ms; value = state.value })

  unfoldable pub get_state : ℕ → Str → CacheState F64 → DeviceStateResponse
  get_state now_ms id c = record {
    ttl_ms = c.ttl_ms;
    device_id = id;
    sensor' = sensor_of (snapshot_sensor now_ms id c);
  }

  -- The `filter_map` of `stream_updates`; `to_string` is `serde_json::to_string`.
  unfoldable pub stream_update : (SseSensorEvent → Option Str) → Received → Option SseEvent
  stream_update to_string (event (sensor id last_seen_ms value)) =
      elim (to_string (record { device_id = id; last_seen_ms = last_seen_ms; value = value })) [
        | some json ↦ some (sensor_event json)
        | none ↦ none
      ]
  stream_update to_string (lagged n) = some lagged_event

  insert-split :
      (k : Str) (v : SensorState F64) (m : List (Str × SensorState F64))
      → (front back : List (Str × SensorState F64)) × (insert k v m ≡ front ++ ((k, v) ∷ back))
  unfolding insert
  insert-split k v [] = ([], [], refl)
  insert-split k v ((k', v') ∷ m) = elim (Bool-cases (str_eq k k')) [
    | inl e ↦ ([], m, ground (arith, e, str_eq_sound k k' e))
    | inr e ↦
        let (front, back, h) = insert-split k v m in ((k', v') ∷ front, back, ground (arith, e, h))
  ]

  map-split :
      {A B : Type 0} (f : A → B) (front : List A) (x : A) (back : List A)
      → map f (front ++ (x ∷ back)) ≡ map f front ++ (f x ∷ map f back)
  map-split f [] x back = refl
  map-split f (y ∷ front) x back = ap (λ l. f y ∷ l) (map-split f front x back)

  -- The three views of an update at `now_ms`, which makes `after` of `before`: the answer for the device,
  -- an entry of the list, and what is streamed.
  pub record IsShown (now_ms later_ms : ℕ) (msg : SensorMessage F64) (id : Str)
      (before after : CacheState F64) : Type 0 where
    pub got : get_state later_ms id after ≡ record {
      ttl_ms = before.ttl_ms;
      device_id = id;
      sensor' = some (record {
        stale = ltb before.ttl_ms (later_ms - now_ms);
        last_seen_ms = now_ms;
        value = msg.values;
      });
    }
    pub listed :
        (front back : List SensorDto) × ((list_state later_ms after).sensors
          ≡ front
            ++ (record {
              device_id = normalize_device_id msg.device_id;
              stale = ltb before.ttl_ms (later_ms - now_ms);
              last_seen_ms = now_ms;
              value = msg.values;
            }
                ∷ back))
    pub streamed :
        (to_string : SseSensorEvent → Option Str) (json : Str)
        → to_string (record {
          device_id = normalize_device_id msg.device_id;
          last_seen_ms = now_ms;
          value = msg.values;
        })
          ≡ some json
        → (e : CacheEvent F64) × (after.events ≡ before.events ++ (e ∷ []))
          × (stream_update to_string (event e) ≡ some (sensor_event json))

  -- Whatever was in the cache, an update of a sensor is seen in all three views: it is the answer for the
  -- device under its name in any case and with any space around it, it is in the list, both with its
  -- value, its time and whether its age exceeds the limit, and it is sent to the subscribers.
  pub update_sensor-IsShown :
      (now_ms later_ms : ℕ) (msg : SensorMessage F64) (id : Str) (c : CacheState F64)
      → normalize_device_id id ≡ normalize_device_id msg.device_id
      → IsShown now_ms later_ms msg id c (update_sensor now_ms msg c)
  unfolding get_state list_state stream_update update_sensor snapshot_all_sensors is_stale
  update_sensor-IsShown now_ms later_ms msg id c same =
      let k = normalize_device_id msg.device_id in
      let v : SensorState F64 = record { last_seen_ms = now_ms; value = msg.values } in
      let found = snapshot_sensor-update_sensor now_ms later_ms msg id c same in
      let (front, back, split) = insert-split k v (make_room c.max_sensors k c.sensors) in
      let aged : Str × SensorState F64 → Str × SensorState F64 × Bool =
        λ e. (e.0, e.1, ltb c.ttl_ms (later_ms - e.1.last_seen_ms)) in
      record {
        got = ap (λ o. record { ttl_ms = c.ttl_ms; device_id = id; sensor' = sensor_of o }) found;
        listed = (
          map dto_of (map aged front),
          map dto_of (map aged back),
          ap (λ l. map dto_of (map aged l)) split
              ∙ ap (map dto_of) (map-split aged front (k, v) back)
              ∙ map-split dto_of (map aged front) (aged (k, v)) (map aged back),
        );
        streamed = λ to_string json h. (sensor k now_ms msg.values, refl, ground (arith, h));
      }
