-- ===== src/Sink/Point/Sorting.antt =====
-- That sorting tags and fields changes no value: the one that a key finds first stays the same.
use ingestion_service.Common.{
  ◌≡◌, refl, ap, ◌∙◌, true, false, Option, none, some, map, List, [], ◌∷◌, ◌++◌, if◌then◌else◌,
  arith, Bool-cases, inl, inr,
}
use ingestion_service.Model.Messages.{Str}
use ingestion_service.Model.Topic.{str_eq}
use ingestion_service.Model.Topic.Matching.{str_eq_sound}
use ingestion_service.Sink.Point.{less, insert_by_key, sort_by_key}

-- The value of the first entry with a key.
unfoldable pub find : {V : Type 0} → Str → List (Str × V) → Option V
find k [] = none
find k ((key, v) ∷ xs) = let rest = find k xs in if str_eq key k then some v else rest

less_irrefl : (a : Str) → less a a ≡ false
unfolding less
less_irrefl [] = refl
less_irrefl (x ∷ a) = ground (arith, less_irrefl a)

less-distinct : (a b k : Str) → less a b ≡ true → str_eq a k ≡ true → str_eq b k ≡ false
less-distinct a b k h e = elim (Bool-cases (str_eq b k)) [
  | inr n ↦ n
  | inl y ↦
      let same : less a b ≡ less k k =
        ap (λ c. less c b) (str_eq_sound a k e) ∙ ap (less k) (str_eq_sound b k y) in
      cc (h, same, less_irrefl k)
]

module _ {V : Type 0} where
  find-insert_by_key :
      (k : Str) (x : Str × V) (ys : List (Str × V)) → find k (insert_by_key x ys) ≡ find k (x ∷ ys)
  unfolding insert_by_key find
  find-insert_by_key k (a, v) [] = refl
  find-insert_by_key k (a, v) ((b, u) ∷ ys) = elim (Bool-cases (less b a)) [
    | inr e ↦ ground (arith, e)
    | inl e ↦ elim (Bool-cases (str_eq b k)) [
      | inr n ↦ ground (arith, e, n, find-insert_by_key k (a, v) ys)
      | inl y ↦ ground (arith, e, y, less-distinct b a k e y, find-insert_by_key k (a, v) ys)
    ]
  ]

  pub find-sort_by_key : (k : Str) (xs : List (Str × V)) → find k (sort_by_key xs) ≡ find k xs
  unfolding sort_by_key find
  find-sort_by_key k [] = refl
  find-sort_by_key k ((a, v) ∷ xs) =
      find-insert_by_key k (a, v) (sort_by_key xs) ∙ ground (arith, find-sort_by_key k xs)

  abbrev pub or_else : Option V → Option V → Option V
  or_else none o = o
  or_else (some v) o = some v

  pub find-snoc :
      (k key : Str) (v : V) (xs : List (Str × V))
      → find k (xs ++ ((key, v) ∷ [])) ≡ or_else (find k xs) (if str_eq key k then some v else none)
  unfolding find
  find-snoc k key v [] = refl
  find-snoc k key v ((a, u) ∷ xs) = ground (arith, find-snoc k key v xs)

  or_else-none : (o : Option V) → or_else o none ≡ o
  or_else-none none = refl
  or_else-none (some v) = refl

  pub find-snoc_other :
      (k key : Str) (v : V) (xs : List (Str × V))
      → str_eq key k ≡ false
      → find k (xs ++ ((key, v) ∷ [])) ≡ find k xs
  find-snoc_other k key v xs h =
      find-snoc k key v xs
      ∙ ap (λ b. or_else (find k xs) (if b then some v else none)) h
      ∙ or_else-none (find k xs)

  pub find-cons :
      (k : Str) (v : V) (xs : List (Str × V))
      → find k xs ≡ some v
      → (y : Str × V) × (ys : List (Str × V)) × (xs ≡ y ∷ ys)
  unfolding find
  find-cons k v [] h = cc h
  find-cons k v (y ∷ ys) h = (y, ys, refl)

  unfoldable pub value_map : {W : Type 0} → (V → W) → Option V → Option W
  value_map f none = none
  value_map f (some v) = some (f v)

  pub find-map :
      {W : Type 0} (f : V → W) (k : Str) (xs : List (Str × V))
      → find k (map (λ x. (x.0, f x.1)) xs) ≡ value_map f (find k xs)
  unfolding find value_map
  find-map f k [] = refl
  find-map f k ((a, u) ∷ xs) = ground (arith, find-map f k xs)

  insert_by_key-cons :
      (x : Str × V) (ys : List (Str × V))
      → (z : Str × V) × (zs : List (Str × V)) × (insert_by_key x ys ≡ z ∷ zs)
  unfolding insert_by_key
  insert_by_key-cons x [] = (x, [], refl)
  insert_by_key-cons x (y ∷ ys) = elim (Bool-cases (less y.0 x.0)) [
    | inl e ↦ (y, insert_by_key x ys, ground (arith, e))
    | inr e ↦ (x, y ∷ ys, ground (arith, e))
  ]

  -- A list with an entry has one when it is sorted.
  pub sort_by_key-cons :
      (x : Str × V) (xs : List (Str × V))
      → (y : Str × V) × (ys : List (Str × V)) × (sort_by_key (x ∷ xs) ≡ y ∷ ys)
  unfolding sort_by_key
  sort_by_key-cons x xs = insert_by_key-cons x (sort_by_key xs)
