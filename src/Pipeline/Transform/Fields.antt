-- ===== src/Pipeline/Transform/Fields.antt =====
-- What the transformation does to each field of a payload.
use ingestion_service.Common.{
  ◌≡◌, refl, sym, ap, ◌∙◌, Bool, true, false, ◌||◌, Option, none, some, List, [], ◌∷◌, Bool-cases,
  Option-cases, inl, inr, arith, if◌then◌else◌,
}
use ingestion_service.Model.Messages.{Str}
use ingestion_service.Model.Topic.{is_whitespace, trim_matches, str_eq}
use ingestion_service.Model.Topic.Matching.{str_eq_sound}
use ingestion_service.Pipeline.Library.{Library}
use ingestion_service.Pipeline.Json.{Json}
use ingestion_service.Pipeline.Transform.{
  field, set_field, as_text, trim_root_string, trim_all, ensure,
}

unfoldable pub has_key : List Str → Str → Bool
has_key [] k = false
has_key (key ∷ keys) k = str_eq key k || has_key keys k

unfoldable pub distinct : List Str → Bool
distinct [] = true
distinct (key ∷ keys) = if has_key keys key then false else distinct keys

module _ (lib : Library) (json : Json lib) where
  -- A field that is trimmed if it is a text.
  unfoldable pub trimmed : Option lib.Value → Option lib.Value
  trimmed none = none
  trimmed (some v) = elim (json.as_str v) [
    | none ↦ some v
    | some s ↦ some (json.string (trim_matches is_whitespace s))
  ]

  pub set_field-field :
      (key k : Str) (x v : lib.Value) (m : json.Map)
      → json.as_object v ≡ some m
      → field lib json (set_field lib json key x v) k
        ≡ (if str_eq key k then some x else json.get m k)
  unfolding set_field
  set_field-field key k x v m e =
      ground (arith, e, json.as_object-object (json.insert m key x), json.get-insert m key k x)

  pub field-get :
      (k : Str) (v : lib.Value) (m : json.Map)
      → json.as_object v ≡ some m
      → field lib json v k ≡ json.get m k
  field-get k v m e = ground (arith, e)

  trim_root_string-text :
      (key k : Str) (s : Str) (v : lib.Value) (m : json.Map)
      → json.as_object v ≡ some m
      → as_text lib json (json.get m key) ≡ some s
      → field lib json (trim_root_string lib json key v) k
        ≡ (if str_eq key k then some (json.string (trim_matches is_whitespace s)) else json.get m k)
  unfolding trim_root_string
  trim_root_string-text key k s v m e t =
      let stored : trim_root_string lib json key v
          ≡ set_field lib json key (json.string (trim_matches is_whitespace s)) v =
        ground (arith, e, t) in
      ap (λ u. field lib json u k) stored
      ∙ set_field-field key k (json.string (trim_matches is_whitespace s)) v m e

  trim_root_string-other :
      (key : Str) (v : lib.Value)
      → as_text lib json (field lib json v key) ≡ none
      → trim_root_string lib json key v ≡ v
  unfolding trim_root_string
  trim_root_string-other key v t = ground (arith, t)

  trimmed-text :
      (o : Option lib.Value) (s : Str)
      → as_text lib json o ≡ some s
      → trimmed o ≡ some (json.string (trim_matches is_whitespace s))
  unfolding trimmed
  trimmed-text none s h = cc h
  trimmed-text (some v) s h = ground (arith, h)

  trimmed-other : (o : Option lib.Value) → as_text lib json o ≡ none → trimmed o ≡ o
  unfolding trimmed
  trimmed-other none h = refl
  trimmed-other (some v) h = ground (arith, h)

  trim_root_string-field :
      (key k : Str) (v : lib.Value) (m : json.Map)
      → json.as_object v ≡ some m
      → field lib json (trim_root_string lib json key v) k
        ≡ (if str_eq key k then trimmed (json.get m k) else json.get m k)
  trim_root_string-field key k v m e = elim (Option-cases (as_text lib json (json.get m key))) [
    | inr (s, t) ↦ elim (Bool-cases (str_eq key k)) [
      | inl q ↦
          let same : json.get m k ≡ json.get m key =
            ap (λ j. json.get m j) (sym (str_eq_sound key k q)) in
          ground (
            arith,
            q,
            trim_root_string-text key k s v m e t,
            trimmed-text (json.get m key) s t,
            same,
          )
      | inr q ↦ ground (arith, q, trim_root_string-text key k s v m e t)
    ]
    | inl t ↦
        let kept = trim_root_string-other key v (ap (as_text lib json) (field-get key v m e) ∙ t) in
        let unchanged : field lib json (trim_root_string lib json key v) k ≡ json.get m k =
          ap (λ u. field lib json u k) kept ∙ field-get k v m e in
        elim (Bool-cases (str_eq key k)) [
          | inl q ↦
              let same : json.get m key ≡ json.get m k =
                ap (λ j. json.get m j) (str_eq_sound key k q) in
              ground (
                arith,
                q,
                unchanged,
                trimmed-other (json.get m k) (ap (as_text lib json) (sym same) ∙ t),
              )
          | inr q ↦ ground (arith, q, unchanged)
        ]
  ]

  -- A trimmed object is an object.
  trim_root_string-object :
      (key : Str) (v : lib.Value) (m : json.Map)
      → json.as_object v ≡ some m
      → (m' : json.Map) × (json.as_object (trim_root_string lib json key v) ≡ some m')
        × ((k : Str)
            → json.get m' k ≡ (if str_eq key k then trimmed (json.get m k) else json.get m k))
  unfolding trim_root_string set_field
  trim_root_string-object key v m e = elim (Option-cases (as_text lib json (json.get m key))) [
    | inl t ↦
        let kept = trim_root_string-other key v (ap (as_text lib json) (field-get key v m e) ∙ t) in
        let there = ap json.as_object kept ∙ e in
        (
          m,
          there,
          λ k.
              sym (field-get k (trim_root_string lib json key v) m there)
              ∙ trim_root_string-field key k v m e,
        )
    | inr (s, t) ↦
        let m' = json.insert m key (json.string (trim_matches is_whitespace s)) in
        let there : json.as_object (trim_root_string lib json key v) ≡ some m' =
          ground (arith, e, t, json.as_object-object m') in
        (
          m',
          there,
          λ k.
              sym (field-get k (trim_root_string lib json key v) m' there)
              ∙ trim_root_string-field key k v m e,
        )
  ]

  pub trim_all-object :
      (keys : List Str) (v : lib.Value) (m : json.Map)
      → distinct keys ≡ true
      → json.as_object v ≡ some m
      → (m' : json.Map) × (json.as_object (trim_all lib json keys v) ≡ some m')
        × ((k : Str)
            → json.get m' k ≡ (if has_key keys k then trimmed (json.get m k) else json.get m k))
  unfolding trim_all distinct has_key
  trim_all-object [] v m d e = (m, e, λ k. refl)
  trim_all-object (key ∷ keys) v m d e =
      let (m1, there, first_) = trim_root_string-object key v m e in
      let (m', end, rest) =
        trim_all-object keys (trim_root_string lib json key v) m1 (ground (arith, d)) there in
      (
        m',
        end,
        λ k. elim (Bool-cases (str_eq key k)) [
          | inl q ↦
              let once : has_key keys k ≡ false =
                ap (λ j. has_key keys j) (sym (str_eq_sound key k q)) ∙ ground (arith, d) in
              ground (arith, rest k, first_ k, q, once)
          | inr q ↦ ground (arith, rest k, first_ k, q)
        ],
      )

  -- A field that is given the value where it is not there.
  unfoldable pub defaulted : lib.Value → Option lib.Value → Option lib.Value
  defaulted default none = some default
  defaulted default (some v) = some v

  pub ensure-object :
      (key : Str) (d v : lib.Value) (m : json.Map)
      → json.as_object v ≡ some m
      → (m' : json.Map) × (json.as_object (ensure lib json key d v) ≡ some m')
        × ((k : Str)
            → json.get m' k ≡ (if str_eq key k then defaulted d (json.get m k) else json.get m k))
  unfolding ensure set_field defaulted
  ensure-object key d v m e = elim (Option-cases (json.get m key)) [
    | inl t ↦
        let there : json.as_object (ensure lib json key d v) ≡ some (json.insert m key d) =
          ground (arith, e, t, json.as_object-object (json.insert m key d)) in
        (
          json.insert m key d,
          there,
          λ k. elim (Bool-cases (str_eq key k)) [
            | inl q ↦
                let same : json.get m k ≡ none =
                  ap (λ j. json.get m j) (sym (str_eq_sound key k q)) ∙ t in
                ground (arith, q, same, json.get-insert m key k d)
            | inr q ↦ ground (arith, q, json.get-insert m key k d)
          ],
        )
    | inr (x, t) ↦
        let there : json.as_object (ensure lib json key d v) ≡ some m = ground (arith, e, t) in
        (
          m,
          there,
          λ k. elim (Bool-cases (str_eq key k)) [
            | inl q ↦
                let same : json.get m k ≡ some x =
                  ap (λ j. json.get m j) (sym (str_eq_sound key k q)) ∙ t in
                ground (arith, q, same)
            | inr q ↦ ground (arith, q)
          ],
        )
  ]
