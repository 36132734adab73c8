-- ===== src/Pipeline/Transform/Edits.antt =====
-- Several changes of a JSON object.
use ingestion_service.Common.{
  ◌≡◌, refl, ap, ◌∙◌, false, Option, some, List, [], ◌∷◌, arith, map, if◌then◌else◌,
}
use ingestion_service.Model.Messages.{Str}
use ingestion_service.Model.Topic.{str_eq}
use ingestion_service.Pipeline.Library.{Library}
use ingestion_service.Pipeline.Json.{Json}
use ingestion_service.Pipeline.Transform.Fields.{has_key}

module _ (lib : Library) (json : Json lib) where
  -- Changes one after another, of which the last counts.
  unfoldable pub insert_all : List (Str × lib.Value) → json.Map → json.Map
  insert_all [] m = m
  insert_all ((k, v) ∷ kvs) m = insert_all kvs (json.insert m k v)

  unfoldable pub last_of : List (Str × lib.Value) → Str → Option lib.Value → Option lib.Value
  last_of [] k old = old
  last_of ((key, v) ∷ kvs) k old = last_of kvs k (if str_eq key k then some v else old)

  pub get-insert_all :
      (kvs : List (Str × lib.Value)) (m : json.Map) (k : Str)
      → json.get (insert_all kvs m) k ≡ last_of kvs k (json.get m k)
  unfolding insert_all last_of
  get-insert_all [] m k = refl
  get-insert_all ((key, v) ∷ kvs) m k =
      get-insert_all kvs (json.insert m key v) k ∙ ap (last_of kvs k) (json.get-insert m key k v)

  pub last_of-other :
      (kvs : List (Str × lib.Value)) (k : Str) (old : Option lib.Value)
      → has_key (map (λ x. x.0) kvs) k ≡ false
      → last_of kvs k old ≡ old
  unfolding last_of has_key
  last_of-other [] k old h = refl
  last_of-other ((key, v) ∷ kvs) k old h = ground (arith, last_of-other kvs k old (ground arith))
