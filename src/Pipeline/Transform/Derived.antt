-- ===== src/Pipeline/Transform/Derived.antt =====
-- What src/pipeline/stages/transform.rs computes from the readings, operation by operation.
use ingestion_service.Common.{◌&&◌, [], ◌∷◌, ◌++◌, if◌then◌else◌}
use ingestion_service.Model.Messages.{Str}
use ingestion_service.Pipeline.Floats.{
  Floats, ◌+f◌, ◌-f◌, ◌*f◌, ◌/f◌, ◌<f◌, ◌<=f◌, decimal, contains, clamp,
}

-- The levels of `calc_iaq_text`.
pub data AirQuality : Type 0 where
  hazardous very_unhealthy unhealthy unhealthy_for_sensitive_groups moderate good : AirQuality

abbrev pub suffix : AirQuality → Str
suffix hazardous = b'H' ∷ b'a' ∷ b'z' ∷ b'a' ∷ b'r' ∷ b'd' ∷ b'o' ∷ b'u' ∷ b's' ∷ []
suffix very_unhealthy =
    b'V' ∷ b'e' ∷ b'r' ∷ b'y' ∷ b' ' ∷ b'U' ∷ b'n' ∷ b'h' ∷ b'e' ∷ b'a' ∷ b'l' ∷ b't' ∷ b'h' ∷ b'y'
    ∷ []
suffix unhealthy = b'U' ∷ b'n' ∷ b'h' ∷ b'e' ∷ b'a' ∷ b'l' ∷ b't' ∷ b'h' ∷ b'y' ∷ []
suffix unhealthy_for_sensitive_groups =
    b'U' ∷ b'n' ∷ b'h' ∷ b'e' ∷ b'a' ∷ b'l' ∷ b't' ∷ b'h' ∷ b'y' ∷ b' ' ∷ b'f' ∷ b'o' ∷ b'r' ∷ b' '
    ∷ b'S' ∷ b'e' ∷ b'n' ∷ b's' ∷ b'i' ∷ b't' ∷ b'i' ∷ b'v' ∷ b'e' ∷ b' ' ∷ b'G' ∷ b'r' ∷ b'o'
    ∷ b'u' ∷ b'p' ∷ b's' ∷ []
suffix moderate = b'M' ∷ b'o' ∷ b'd' ∷ b'e' ∷ b'r' ∷ b'a' ∷ b't' ∷ b'e' ∷ []
suffix good = b'G' ∷ b'o' ∷ b'o' ∷ b'd' ∷ []

-- "Air quality is "
abbrev pub air_quality_is : Str
air_quality_is =
    b'A' ∷ b'i' ∷ b'r' ∷ b' ' ∷ b'q' ∷ b'u' ∷ b'a' ∷ b'l' ∷ b'i' ∷ b't' ∷ b'y' ∷ b' ' ∷ b'i' ∷ b's'
    ∷ b' ' ∷ []

module _ {F64 : Type 0} ⦃floats : Floats F64⦄ where
  unfoldable pub calc_dew_point_c : F64 → F64 → F64
  calc_dew_point_c temp_c rel_hum_perc =
      let alpha =
        floats.ln (rel_hum_perc /f decimal 1000 1)
        +f (decimal 1727 2 *f temp_c) /f (decimal 2377 1 +f temp_c) in
      (decimal 2377 1 *f alpha) /f (decimal 1727 2 -f alpha)

  unfoldable pub temp_c_to_f : F64 → F64
  temp_c_to_f temp_c = temp_c *f decimal 90 1 /f decimal 50 1 +f decimal 320 1

  unfoldable pub temp_f_to_c : F64 → F64
  temp_f_to_c temp_f = (temp_f -f decimal 320 1) *f decimal 50 1 /f decimal 90 1

  unfoldable pub calc_heat_index_c : F64 → F64 → F64
  calc_heat_index_c temp_c rel_hum_perc =
      let temp_f = temp_c_to_f temp_c in
      let hi_rothfusz =
        floats.neg (decimal 42379 3)
        +f decimal 204901523 8 *f temp_f
        +f decimal 1014333127 8 *f rel_hum_perc
        -f decimal 22475541 8 *f temp_f *f rel_hum_perc
        -f decimal 683783 8 *f temp_f *f temp_f
        -f decimal 5481717 8 *f rel_hum_perc *f rel_hum_perc
        +f decimal 122874 8 *f temp_f *f temp_f *f rel_hum_perc
        +f decimal 85282 8 *f temp_f *f rel_hum_perc *f rel_hum_perc
        -f decimal 199 8 *f temp_f *f temp_f *f rel_hum_perc *f rel_hum_perc in
      if rel_hum_perc <f decimal 130 1 && contains (decimal 800 1) (decimal 1120 1) temp_f
      then (let adjusted_hi =
            ((decimal 130 1 -f rel_hum_perc) /f decimal 40 1)
            *f floats.sqrt
                (decimal 170 1 -f floats.abs (temp_f -f decimal 950 1) /f decimal 170 1) in
          temp_f_to_c (hi_rothfusz -f adjusted_hi))
      else if decimal 850 1 <f rel_hum_perc && contains (decimal 800 1) (decimal 870 1) temp_f
      then (let adjusted_hi =
            ((rel_hum_perc -f decimal 850 1) *f (decimal 870 1 -f temp_f)) /f decimal 50 1 in
          temp_f_to_c (hi_rothfusz +f adjusted_hi))
      else if temp_f <f decimal 800 1
      then (let hi_steadman =
            decimal 5 1
            *f (temp_f
                +f decimal 610 1
                +f (temp_f -f decimal 680 1) *f decimal 12 1
                +f rel_hum_perc *f decimal 94 3) in
          temp_f_to_c hi_steadman)
      else temp_f_to_c hi_rothfusz

  unfoldable pub calc_iaq_score : F64 → F64 → F64
  calc_iaq_score gas_ohm rel_hum_perc =
      let hum_ref = decimal 400 1 in
      let hum_score =
        if contains (decimal 380 1) (decimal 420 1) rel_hum_perc
        then decimal 25 2 *f decimal 1000 1
        else if rel_hum_perc <f decimal 380 1
        then decimal 25 2 /f hum_ref *f rel_hum_perc *f decimal 1000 1
        else (decimal 25 2
            /f (decimal 1000 1 -f hum_ref)
            *f (decimal 1000 1 -f rel_hum_perc)
            *f decimal 1000 1) in
      let gas_lower_limit = decimal 50000 1 in
      let gas_upper_limit = decimal 500000 1 in
      let gas_reading = clamp gas_lower_limit gas_upper_limit gas_ohm in
      let gas_score =
        (decimal 75 2 /f (gas_upper_limit -f gas_lower_limit) *f gas_reading
          -f gas_lower_limit *f (decimal 75 2 /f (gas_upper_limit -f gas_lower_limit)))
        *f decimal 1000 1 in
      hum_score +f gas_score

  -- The score by its levels.
  unfoldable pub level_of : F64 → AirQuality
  level_of score =
      if decimal 3010 1 <=f score
      then hazardous
      else if decimal 2010 1 <=f score
      then very_unhealthy
      else if decimal 1760 1 <=f score
      then unhealthy
      else if decimal 1510 1 <=f score
      then unhealthy_for_sensitive_groups
      else if decimal 510 1 <=f score
      then moderate
      else good

  unfoldable pub calc_iaq_text : F64 → Str
  calc_iaq_text indoor_air_quality_score =
      air_quality_is
      ++ suffix (level_of ((decimal 1000 1 -f indoor_air_quality_score) *f decimal 50 1))
