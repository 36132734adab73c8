-- ===== src/Pipeline/Transform/Data.antt =====
-- The data of a sensor's payload: what a transformation that succeeds has read and written.
use ingestion_service.Common.{
  ◌≡◌, refl, sym, ap, ◌∙◌, Bool, true, false, ◌&&◌, not, some, List, [], ◌∷◌, Result, ok, err,
  ◌>>=◌, subst, ◌↔◌, Option-cases, Result-cases, inl, inr, arith,
}
use ingestion_service.Model.Messages.{Str}
use ingestion_service.Model.Topic.{str_eq}
use ingestion_service.Pipeline.Library.{Library}
use ingestion_service.Pipeline.Floats.{Floats, ◌<f◌, ◌<=f◌, decimal, contains}
use ingestion_service.Pipeline.Json.{Json}
use ingestion_service.Pipeline.Transform.{
  TransformError, rel_hum_perc_out_of_range, gas_ohm_not_positive, pressure_hpa_out_of_range,
  unless_bail, Readings, Written, then_write, as_text, as_number, required_f64_from_object,
  set_f64_in_object, read_data, write_data, transform_data,
}
use ingestion_service.Pipeline.Transform.Derived.{
  calc_dew_point_c, calc_heat_index_c, calc_iaq_score, calc_iaq_text,
}
use ingestion_service.Pipeline.Transform.Edits.{insert_all, last_of, get-insert_all, last_of-other}
use ingestion_service.Pipeline.Transform.Fields.{has_key}
use ingestion_service.Pipeline.Transform.Keys.{
  temp_c, rel_hum_perc, pressure_hpa, gas_ohm, altitude_m, dew_point_c, heat_index_c, iaq_score,
  iaq_text,
}

abbrev pub written_keys : List Str
written_keys = dew_point_c ∷ heat_index_c ∷ iaq_score ∷ iaq_text ∷ pressure_hpa ∷ altitude_m ∷ []

module _ (lib : Library) (json : Json lib) where
  module _ ⦃floats : Floats lib.F64⦄ where
    -- The readings of a sensor's data, in the ranges that the transformation is safe for.
    pub record IsSafe (m : json.Map) (r : Readings lib.F64) : Type 0 where
      pub has_temp : as_number lib json (json.get m temp_c) ≡ some r.temp
      pub has_hum : as_number lib json (json.get m rel_hum_perc) ≡ some r.hum
      pub has_pressure : as_number lib json (json.get m pressure_hpa) ≡ some r.pressure
      pub has_gas : as_number lib json (json.get m gas_ohm) ≡ some r.gas
      pub has_altitude : as_number lib json (json.get m altitude_m) ≡ some r.altitude
      pub hum_range : (decimal 0 1 <f r.hum && r.hum <=f decimal 1000 1) ≡ true
      pub gas_range : (r.gas <=f decimal 0 1) ≡ false
      pub pressure_range : contains (decimal 3000 1) (decimal 12000 1) r.pressure ≡ true

    -- That the numbers which are written have a JSON form.
    pub record AreFinite (r : Readings lib.F64) : Type 0 where
      pub dew : lib.Value
      pub dew_number : json.from_f64 (calc_dew_point_c r.temp r.hum) ≡ some dew
      pub heat : lib.Value
      pub heat_number : json.from_f64 (calc_heat_index_c r.temp r.hum) ≡ some heat
      pub score : lib.Value
      pub score_number : json.from_f64 (calc_iaq_score r.gas r.hum) ≡ some score
      pub pressure : lib.Value
      pub pressure_number : json.from_f64 r.pressure ≡ some pressure
      pub altitude : lib.Value
      pub altitude_number : json.from_f64 r.altitude ≡ some altitude

    -- The data behind the transformation, against that before it.
    pub record IsWritten (r : Readings lib.F64) (m m' : json.Map) : Type 0 where
      pub dew : as_number lib json (json.get m' dew_point_c) ≡ some (calc_dew_point_c r.temp r.hum)
      pub heat :
          as_number lib json (json.get m' heat_index_c) ≡ some (calc_heat_index_c r.temp r.hum)
      pub score : as_number lib json (json.get m' iaq_score) ≡ some (calc_iaq_score r.gas r.hum)
      pub text :
          as_text lib json (json.get m' iaq_text)
          ≡ some (calc_iaq_text (calc_iaq_score r.gas r.hum))
      pub pressure : as_number lib json (json.get m' pressure_hpa) ≡ some r.pressure
      pub altitude : as_number lib json (json.get m' altitude_m) ≡ some r.altitude
      pub others : (k : Str) → has_key written_keys k ≡ false → json.get m' k ≡ json.get m k

    unless_bail-inv :
        (b : Bool) (e : TransformError) {u : Unit {0}} → unless_bail b e ≡ ok u → b ≡ true
    unless_bail-inv true e h = refl
    unless_bail-inv false e h = cc h

    required-inv :
        (m : json.Map) (k : Str) (x : lib.F64)
        → required_f64_from_object lib json m k ≡ ok x
        → as_number lib json (json.get m k) ≡ some x
    unfolding required_f64_from_object
    required-inv m k x h = elim (Option-cases (as_number lib json (json.get m k))) [
      | inl e ↦ ground (arith, e, h)
      | inr (y, e) ↦ ground (arith, e, h)
    ]

    bind-inv :
        {A B : Type 0} (x : Result TransformError A) (f : A → Result TransformError B) (b : B)
        → (x >>= f) ≡ ok b
        → (a : A) × (x ≡ ok a) × (f a ≡ ok b)
    bind-inv (ok a) f b h = (a, refl, h)
    bind-inv (err e) f b h = cc h

    read_data-IsSafe :
        (m : json.Map) (r : Readings lib.F64) → read_data lib json m ≡ ok r → IsSafe m r
    unfolding read_data
    read_data-IsSafe m r h =
        let (temp, t, h1) = bind-inv (required_f64_from_object lib json m temp_c) _ r h in
        let (hum, u, h2) = bind-inv (required_f64_from_object lib json m rel_hum_perc) _ r h1 in
        let (pressure, p, h3) =
          bind-inv (required_f64_from_object lib json m pressure_hpa) _ r h2 in
        let (gas, g, h4) = bind-inv (required_f64_from_object lib json m gas_ohm) _ r h3 in
        let (altitude, a, h5) = bind-inv (required_f64_from_object lib json m altitude_m) _ r h4 in
        let (_, x, h6) =
          bind-inv
            (unless_bail (decimal 0 1 <f hum && hum <=f decimal 1000 1) rel_hum_perc_out_of_range) _
            r h5 in
        let (_, y, h7) =
          bind-inv (unless_bail (not (gas <=f decimal 0 1)) gas_ohm_not_positive) _ r h6 in
        let (_, z, h8) =
          bind-inv
            (unless_bail (contains (decimal 3000 1) (decimal 12000 1) pressure)
              pressure_hpa_out_of_range)
            _ r h7 in
        let read : record {
          temp = temp;
          hum = hum;
          pressure = pressure;
          gas = gas;
          altitude = altitude;
        }
            ≡ r =
          cc h8 in
        subst (IsSafe m) read (record {
          has_temp = required-inv m temp_c temp t;
          has_hum = required-inv m rel_hum_perc hum u;
          has_pressure = required-inv m pressure_hpa pressure p;
          has_gas = required-inv m gas_ohm gas g;
          has_altitude = required-inv m altitude_m altitude a;
          hum_range = unless_bail-inv _ rel_hum_perc_out_of_range x;
          gas_range = ground (arith, unless_bail-inv _ gas_ohm_not_positive y);
          pressure_range = unless_bail-inv _ pressure_hpa_out_of_range z;
        })

    then_write-inv :
        (w : Written json.Map) (f : json.Map → Written json.Map) (m' : json.Map) (u : Unit {0})
        → then_write w f ≡ (ok u, m')
        → (m : json.Map) × (w ≡ (ok tt, m)) × (f m ≡ (ok tt, m'))
    unfolding then_write
    then_write-inv (ok u, m) f m' _ h = (m, refl, h)
    then_write-inv (err e, m) f m' _ h = cc h

    set_f64-inv :
        (k : Str) (x : lib.F64) (m m' : json.Map)
        → set_f64_in_object lib json k x m ≡ (ok tt, m')
        → (v : lib.Value) × (json.from_f64 x ≡ some v) × (m' ≡ json.insert m k v)
    unfolding set_f64_in_object
    set_f64-inv k x m m' h = elim (Option-cases (json.from_f64 x)) [
      | inl e ↦ ground (arith, e, h)
      | inr (v, e) ↦ (v, e, ground (arith, e, h))
    ]

    -- The values that the six changes insert.
    abbrev changes : (r : Readings lib.F64) → AreFinite r → List (Str × lib.Value)
    changes r f =
        (dew_point_c, f.dew)
        ∷ (heat_index_c, f.heat)
        ∷ (iaq_score, f.score)
        ∷ (iaq_text, json.string (calc_iaq_text (calc_iaq_score r.gas r.hum)))
        ∷ (pressure_hpa, f.pressure)
        ∷ (altitude_m, f.altitude)
        ∷ []

    write_data-inv :
        (r : Readings lib.F64) (m m' : json.Map)
        → write_data lib json r m ≡ (ok tt, m')
        → (f : AreFinite r) × (m' ≡ insert_all lib json (changes r f) m)
    unfolding write_data insert_all
    write_data-inv r m m' h =
        let (m5, h5, a) =
          then_write-inv _ (set_f64_in_object lib json altitude_m r.altitude) m' tt h in
        let (m4, h4, p) =
          then_write-inv _ (set_f64_in_object lib json pressure_hpa r.pressure) m5 tt h5 in
        let (m3, h3, t) =
          then_write-inv _
            (λ m. (
              ok tt,
              json.insert m iaq_text (json.string (calc_iaq_text (calc_iaq_score r.gas r.hum))),
            ))
            m4 tt h4 in
        let (m2, h2, s) =
          then_write-inv _ (set_f64_in_object lib json iaq_score (calc_iaq_score r.gas r.hum)) m3 tt
            h3 in
        let (m1, h1, i) =
          then_write-inv _
            (set_f64_in_object lib json heat_index_c (calc_heat_index_c r.temp r.hum)) m2 tt h2 in
        let (v1, e1, n1) = set_f64-inv dew_point_c _ m m1 h1 in
        let (v2, e2, n2) = set_f64-inv heat_index_c _ m1 m2 i in
        let (v3, e3, n3) = set_f64-inv iaq_score _ m2 m3 s in
        let (v5, e5, n5) = set_f64-inv pressure_hpa _ m4 m5 p in
        let (v6, e6, n6) = set_f64-inv altitude_m _ m5 m' a in
        (
          record {
            dew = v1;
            dew_number = e1;
            heat = v2;
            heat_number = e2;
            score = v3;
            score_number = e3;
            pressure = v5;
            pressure_number = e5;
            altitude = v6;
            altitude_number = e6;
          },
          cc (n1, n2, n3, n5, n6, t),
        )

    insert_all-IsWritten :
        (r : Readings lib.F64) (m : json.Map) (f : AreFinite r)
        → IsWritten r m (insert_all lib json (changes r f) m)
    unfolding last_of str_eq
    insert_all-IsWritten r m f = record {
      dew =
          ap (as_number lib json) (get-insert_all lib json (changes r f) m dew_point_c)
          ∙ json.as_f64-from_f64 _ f.dew f.dew_number;
      heat =
          ap (as_number lib json) (get-insert_all lib json (changes r f) m heat_index_c)
          ∙ json.as_f64-from_f64 _ f.heat f.heat_number;
      score =
          ap (as_number lib json) (get-insert_all lib json (changes r f) m iaq_score)
          ∙ json.as_f64-from_f64 _ f.score f.score_number;
      text =
          ap (as_text lib json) (get-insert_all lib json (changes r f) m iaq_text)
          ∙ json.as_str-string _;
      pressure =
          ap (as_number lib json) (get-insert_all lib json (changes r f) m pressure_hpa)
          ∙ json.as_f64-from_f64 _ f.pressure f.pressure_number;
      altitude =
          ap (as_number lib json) (get-insert_all lib json (changes r f) m altitude_m)
          ∙ json.as_f64-from_f64 _ f.altitude f.altitude_number;
      others = λ k h.
          get-insert_all lib json (changes r f) m k
          ∙ last_of-other lib json (changes r f) k (json.get m k) h;
    }

    pub transform_data-IsWritten :
        (m m' : json.Map)
        → transform_data lib json m ≡ (ok tt, m')
        → (r : Readings lib.F64) × IsSafe m r × IsWritten r m m'
    unfolding transform_data
    transform_data-IsWritten m m' h = elim (Result-cases (read_data lib json m)) [
      | inr (x, e) ↦ ground (arith, e, h)
      | inl (r, e) ↦
          let written : write_data lib json r m ≡ (ok tt, m') = ground (arith, e, h) in
          let (f, same) = write_data-inv r m m' written in
          (r, read_data-IsSafe m r e, subst (IsWritten r m) (sym same) (insert_all-IsWritten r m f))
    ]

    read_data-safe :
        (m : json.Map) (r : Readings lib.F64) → IsSafe m r → read_data lib json m ≡ ok r
    unfolding read_data required_f64_from_object
    read_data-safe m r s = ground (
      arith, s.has_temp, s.has_hum, s.has_pressure, s.has_gas, s.has_altitude, s.hum_range,
      s.gas_range, s.pressure_range,
    )

    write_data-finite :
        (r : Readings lib.F64) (m : json.Map) (f : AreFinite r)
        → write_data lib json r m ≡ (ok tt, insert_all lib json (changes r f) m)
    unfolding write_data then_write set_f64_in_object insert_all
    write_data-finite r m f =
        ground
          (arith, f.dew_number, f.heat_number, f.score_number, f.pressure_number, f.altitude_number)

    -- The data of a sensor is transformed exactly if its five readings are numbers in the ranges that
    -- the code asks for and the five numbers that are written have a JSON form; otherwise there is an
    -- error.
    pub transform_data_iff :
        (m : json.Map)
        → ((m' : json.Map) × (transform_data lib json m ≡ (ok tt, m')))
          ↔ ((r : Readings lib.F64) × IsSafe m r × AreFinite r)
    unfolding transform_data
    transform_data_iff m = (
      λ (m', h). elim (Result-cases (read_data lib json m)) [
        | inr (x, e) ↦ ground (arith, e, h)
        | inl (r, e) ↦
            let written : write_data lib json r m ≡ (ok tt, m') = ground (arith, e, h) in
            (r, read_data-IsSafe m r e, (write_data-inv r m m' written).0)
      ],
      λ (r, s, f). (
        insert_all lib json (changes r f) m,
        let e = read_data-safe m r s in let w = write_data-finite r m f in ground (arith, e, w),
      ),
    )
