-- ===== src/Sink/Point/Escaping.antt =====
-- That what point.rs escapes can be told from what it does not.
use ingestion_service.Common.{
  ℕ, ◌≡◌, refl, Bool, true, false, ◌||◌, [], ◌∷◌, ◌++◌, ◌==◌, if◌then◌else◌, arith, Bool-cases, inl,
  inr,
}
use ingestion_service.Model.Messages.{Str}
use ingestion_service.Sink.Point.{
  backslash, quote, replace, esc_measurement, esc_tag_key, esc_string_field,
}

-- A backslash in front of each character that passes a test, in one go.
unfoldable pub escape : (ℕ → Bool) → Str → Str
escape p [] = []
escape p (x ∷ xs) = if p x then backslash ∷ x ∷ escape p xs else x ∷ escape p xs

abbrev pub in_measurement : ℕ → Bool
in_measurement c = c == backslash || (c == b',' || c == b' ')

abbrev pub in_key : ℕ → Bool
in_key c = c == backslash || (c == b',' || (c == b'=' || c == b' '))

abbrev pub in_string : ℕ → Bool
in_string c = c == backslash || c == quote

pub esc_measurement-escape : (s : Str) → esc_measurement s ≡ escape in_measurement s
unfolding esc_measurement replace escape
esc_measurement-escape [] = refl
esc_measurement-escape (x ∷ xs) = ground (arith, esc_measurement-escape xs)

pub esc_tag_key-escape : (s : Str) → esc_tag_key s ≡ escape in_key s
unfolding esc_tag_key replace escape
esc_tag_key-escape [] = refl
esc_tag_key-escape (x ∷ xs) = ground (arith, esc_tag_key-escape xs)

pub esc_string_field-escape : (s : Str) → esc_string_field s ≡ escape in_string s
unfolding esc_string_field replace escape
esc_string_field-escape [] = refl
esc_string_field-escape (x ∷ xs) = ground (arith, esc_string_field-escape xs)

-- A token up to a character that ends it and is not escaped, and what follows.
unfoldable pub cut : (ℕ → Bool) → Bool → Str → Str × Str
cut stop skips [] = ([], [])
cut stop true (x ∷ xs) = (x ∷ (cut stop false xs).0, (cut stop false xs).1)
cut stop false (x ∷ xs) =
    if x == backslash
    then cut stop true xs
    else if stop x
    then ([], x ∷ xs)
    else (x ∷ (cut stop false xs).0, (cut stop false xs).1)

pub cut-escape :
    (stop p : ℕ → Bool) (s r : Str)
    → ((x : ℕ) → p x ≡ false → (stop x ≡ false) × ((x == backslash) ≡ false))
    → cut stop false (escape p s ++ r) ≡ (s ++ (cut stop false r).0, (cut stop false r).1)
unfolding cut escape
cut-escape stop p [] r h = refl
cut-escape stop p (x ∷ xs) r h = elim (Bool-cases (p x)) [
  | inl e ↦ ground (arith, e, cut-escape stop p xs r h)
  | inr e ↦ ground (arith, e, (h x e).0, (h x e).1, cut-escape stop p xs r h)
]
