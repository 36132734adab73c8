-- ===== src/Cache/Bounded.antt =====
-- What an update of the cache keeps and finds.
use ingestion_service.Common.{
  ℕ, suc, ◌-◌, ◌≤◌, ◌<◌, ◌≡◌, refl, ap, true, some, List, [], ◌∷◌, length, ltb, leb, arith,
  Bool-cases, inl, inr, ◌⊎◌, leb→le, not_leb→lt,
}
use ingestion_service.Model.Messages.{Str, SensorMessage}
use ingestion_service.Model.Topic.{str_eq}
use ingestion_service.Model.Topic.Matching.{str_eq_refl}
use ingestion_service.Cache.{
  SensorState, CacheState, normalize_device_id, get, contains_key, remove, insert, min_by_last_seen,
  evict, make_room, update_sensor, is_stale, snapshot_sensor,
}

module _ {F64 : Type 0} where
  length-insert_known :
      (k : Str) (v : SensorState F64) (m : List (Str × SensorState F64))
      → contains_key k m ≡ true
      → length (insert k v m) ≡ length m
  unfolding contains_key insert
  length-insert_known k v [] h = cc
  length-insert_known k v ((k', v') ∷ m) h = elim (Bool-cases (str_eq k k')) [
    | inl e ↦ rw e refl
    | inr e ↦
        let found : contains_key k m ≡ true = ground (arith, e, h) in
        rw e (ap suc (length-insert_known k v m found))
  ]

  length-insert :
      (k : Str) (v : SensorState F64) (m : List (Str × SensorState F64))
      → length (insert k v m) ≤ suc (length m)
  unfolding insert
  length-insert k v [] = omega arith
  length-insert k v ((k', v') ∷ m) = elim (Bool-cases (str_eq k k')) [
    | inl e ↦ rw e (omega arith)
    | inr e ↦ rw e (omega (arith, length-insert k v m))
  ]

  length-remove :
      (k : Str) (m : List (Str × SensorState F64))
      → contains_key k m ≡ true
      → suc (length (remove k m)) ≡ length m
  unfolding contains_key remove
  length-remove k [] h = cc
  length-remove k ((k', v') ∷ m) h = elim (Bool-cases (str_eq k k')) [
    | inl e ↦ rw e refl
    | inr e ↦
        let found : contains_key k m ≡ true = ground (arith, e, h) in
        rw e (ap suc (length-remove k m found))
  ]

  min_by_last_seen-known :
      (e : Str × SensorState F64) (m : List (Str × SensorState F64))
      → contains_key (min_by_last_seen e m).0 (e ∷ m) ≡ true
  unfolding min_by_last_seen contains_key
  min_by_last_seen-known (k, v) [] = rw (str_eq_refl k) refl
  min_by_last_seen-known (k, v) ((k', v') ∷ m) =
      elim (Bool-cases (ltb v'.last_seen_ms v.last_seen_ms)) [
        | inl t ↦ ground (arith, t, min_by_last_seen-known (k', v') m)
        | inr t ↦ ground (arith, t, min_by_last_seen-known (k, v) m)
      ]

  length-evict :
      (m : List (Str × SensorState F64)) → 0 < length m → suc (length (evict m)) ≡ length m
  unfolding evict
  length-evict [] h = absurd (omega arith)
  length-evict (e ∷ m) h =
      length-remove (min_by_last_seen e m).0 (e ∷ m) (min_by_last_seen-known e m)

  -- Room for a key is there: the key is known, or the map is below the cap.
  make_room-has_room :
      (n : ℕ) (k : Str) (m : List (Str × SensorState F64))
      → 0 < n
      → length m ≤ n
      → ((make_room n k m ≡ m) × (contains_key k m ≡ true)) ⊎ (length (make_room n k m) < n)
  unfolding make_room
  make_room-has_room n k m some_room h = elim (Bool-cases (contains_key k m)) [
    | inl t ↦ inl (ground (arith, t), t)
    | inr t ↦ elim (Bool-cases (leb n (length m))) [
      | inl full ↦
          let room : make_room n k m ≡ evict m = ground (arith, t, full) in
          let width = length-evict m (omega (arith, leb→le n (length m) full)) in
          inr (rw room (omega (arith, width)))
      | inr free ↦
          let room : make_room n k m ≡ m = ground (arith, t, free) in
          inr (rw room (not_leb→lt n (length m) free))
    ]
  ]

  -- With a cap above 0, no update makes the cache larger than its cap.
  pub update_sensor-bounded :
      (now_ms : ℕ) (msg : SensorMessage F64) (c : CacheState F64)
      → 0 < c.max_sensors
      → length c.sensors ≤ c.max_sensors
      → length (update_sensor now_ms msg c).sensors ≤ c.max_sensors
  unfolding update_sensor
  update_sensor-bounded now_ms msg c some_room h =
      let k = normalize_device_id msg.device_id in
      let v : SensorState F64 = record { last_seen_ms = now_ms; value = msg.values } in
      elim (make_room-has_room c.max_sensors k c.sensors some_room h) [
        | inl (same, known) ↦ rw same (omega (arith, length-insert_known k v c.sensors known))
        | inr free ↦ omega (arith, free, length-insert k v (make_room c.max_sensors k c.sensors))
      ]

  get-insert :
      (k : Str) (v : SensorState F64) (m : List (Str × SensorState F64))
      → get k (insert k v m) ≡ some v
  unfolding get insert
  get-insert k v [] = rw (str_eq_refl k) refl
  get-insert k v ((k', v') ∷ m) = elim (Bool-cases (str_eq k k')) [
    | inl e ↦ rw (e, e) refl
    | inr e ↦ rw (e, e) (get-insert k v m)
  ]

  -- Whatever was in the cache, a sensor that was updated is found, with its new value and time, under
  -- its name in any case and with any space around it, and is stale once its age exceeds the limit.
  pub snapshot_sensor-update_sensor :
      (now_ms later_ms : ℕ) (msg : SensorMessage F64) (id : Str) (c : CacheState F64)
      → normalize_device_id id ≡ normalize_device_id msg.device_id
      → snapshot_sensor later_ms id (update_sensor now_ms msg c)
        ≡ some
            (record { last_seen_ms = now_ms; value = msg.values }, ltb c.ttl_ms (later_ms - now_ms))
  unfolding snapshot_sensor update_sensor is_stale
  snapshot_sensor-update_sensor now_ms later_ms msg id c e =
      let v : SensorState F64 = record { last_seen_ms = now_ms; value = msg.values } in
      let k = normalize_device_id msg.device_id in
      let found : get (normalize_device_id id) (insert k v (make_room c.max_sensors k c.sensors))
          ≡ some v =
        rw e (get-insert k v (make_room c.max_sensors k c.sensors)) in
      ground (arith, found)
