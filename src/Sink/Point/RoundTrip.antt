-- ===== src/Sink/Point/RoundTrip.antt =====
-- That the reader gets back what point.rs writes.
use ingestion_service.Common.{
  ℕ, zero, suc, ◌≤◌, ◌≡◌, refl, ap, ◌∙◌, Bool, true, false, ◌||◌, List, [], ◌∷◌, ◌++◌, length, ◌==◌,
  arith, append-nil, append_assoc, All, not,
}
use ingestion_service.Model.Messages.{Str}
use ingestion_service.Sink.Point.{backslash, quote, esc_tag_key, esc_string_field, write_tags}
use ingestion_service.Sink.Point.Escaping.{
  escape, in_measurement, in_key, in_string, esc_tag_key-escape, esc_string_field-escape, cut,
  cut-escape,
}
use ingestion_service.Sink.Point.Reading.{
  quoted, bare, ends_name, ends_key, ends_string, read_tags, read_value,
}

pub cut-token :
    (stop p : ℕ → Bool) (s : Str) (d : ℕ) (r : Str)
    → ((x : ℕ) → p x ≡ false → (stop x ≡ false) × ((x == backslash) ≡ false))
    → stop d ≡ true
    → (d == backslash) ≡ false
    → cut stop false (escape p s ++ (d ∷ r)) ≡ (s, d ∷ r)
unfolding cut
cut-token stop p s d r h e b = cut-escape stop p s (d ∷ r) h ∙ ground (arith, e, b, append-nil s)

key-fits : (x : ℕ) → in_key x ≡ false → (ends_key x ≡ false) × ((x == backslash) ≡ false)
key-fits x h = ground arith

name-fits : (x : ℕ) → in_key x ≡ false → (ends_name x ≡ false) × ((x == backslash) ≡ false)
name-fits x h = ground arith

pub measurement-fits :
    (x : ℕ) → in_measurement x ≡ false → (ends_name x ≡ false) × ((x == backslash) ≡ false)
measurement-fits x h = ground arith

string-fits : (x : ℕ) → in_string x ≡ false → (ends_string x ≡ false) × ((x == backslash) ≡ false)
string-fits x h = ground arith

-- The key of a tag or a field.
pub cut-key : (k r : Str) → cut ends_key false (esc_tag_key k ++ (b'=' ∷ r)) ≡ (k, b'=' ∷ r)
cut-key k r =
    ap (λ (t : Str). cut ends_key false (t ++ (b'=' ∷ r))) (esc_tag_key-escape k)
    ∙ cut-token ends_key in_key k b'=' r key-fits refl refl

cut-tag-value :
    (v : Str) (d : ℕ) (r : Str)
    → ends_name d ≡ true
    → cut ends_name false (esc_tag_key v ++ (d ∷ r)) ≡ (v, d ∷ r)
cut-tag-value v d r e =
    ap (λ (t : Str). cut ends_name false (t ++ (d ∷ r))) (esc_tag_key-escape v)
    ∙ cut-token ends_name in_key v d r name-fits e (ground arith)

pub tag-value :
    (v : Str) (tags : List (Str × Str)) (r : Str)
    → cut ends_name false (esc_tag_key v ++ (write_tags tags ++ (b' ' ∷ r)))
      ≡ (v, write_tags tags ++ (b' ' ∷ r))
unfolding write_tags
tag-value v [] r = cut-tag-value v b' ' r refl
tag-value v ((k, u) ∷ tags) r =
    cut-tag-value v b','
      ((esc_tag_key k ++ (b'=' ∷ (esc_tag_key u ++ write_tags tags))) ++ (b' ' ∷ r)) refl

-- One tag in front of what follows it.
write_tags-cons :
    (k v : Str) (tags : List (Str × Str)) (r : Str)
    → write_tags ((k, v) ∷ tags) ++ r
      ≡ b',' ∷ (esc_tag_key k ++ (b'=' ∷ (esc_tag_key v ++ (write_tags tags ++ r))))
unfolding write_tags
write_tags-cons k v tags r =
    ap (λ (t : Str). b',' ∷ t)
      (append_assoc (esc_tag_key k) (b'=' ∷ (esc_tag_key v ++ write_tags tags)) r
        ∙ ap (λ (t : Str). esc_tag_key k ++ (b'=' ∷ t))
            (append_assoc (esc_tag_key v) (write_tags tags) r))

-- Tags, up to a space.
pub read_tags-write_tags :
    (n : ℕ) (tags : List (Str × Str)) (r : Str)
    → length tags ≤ n
    → read_tags n (write_tags tags ++ (b' ' ∷ r)) ≡ (tags, b' ' ∷ r)
unfolding read_tags write_tags
read_tags-write_tags zero [] r h = refl
read_tags-write_tags (suc n) [] r h = refl
read_tags-write_tags zero (t ∷ tags) r h = absurd (omega arith)
read_tags-write_tags (suc n) ((k, v) ∷ tags) r h =
    let rest = esc_tag_key v ++ (write_tags tags ++ (b' ' ∷ r)) in
    ap (read_tags (suc n)) (write_tags-cons k v tags (b' ' ∷ r))
    ∙ ground
        (arith, cut-key k rest, tag-value v tags r, read_tags-write_tags n tags r (omega arith))

-- The characters of a text on one line that needs no escaping.
abbrev pub plain : ℕ → Bool
plain c = not (c == backslash || (c == quote || (c == b',' || (c == b' ' || c == 10))))

abbrev pub IsPlain : Str → Type 0
IsPlain s = All (λ c. plain c ≡ true) s

-- What may stand behind a value.
abbrev pub EndsName : Str → Type 0
EndsName [] = Unit {0}
EndsName (c ∷ cs) = ends_name c ≡ true

cut-plain : (b r : Str) → IsPlain b → EndsName r → cut ends_name false (b ++ r) ≡ (b, r)
unfolding cut
cut-plain [] [] h e = refl
cut-plain [] (d ∷ r) h e = ground arith
cut-plain (x ∷ b) r (h, hs) e = ground (arith, cut-plain b r hs e)

pub read_value-plain : (b r : Str) → IsPlain b → EndsName r → read_value (b ++ r) ≡ (bare b, r)
unfolding read_value
read_value-plain [] [] h e = refl
read_value-plain [] (d ∷ r) h e = ground (arith, cut-plain [] (d ∷ r) tt e)
read_value-plain (x ∷ b) r (h, hs) e = ground (arith, cut-plain (x ∷ b) r (h, hs) e)

pub read_value-quoted :
    (s r : Str) → read_value ((quote ∷ (esc_string_field s ++ (quote ∷ []))) ++ r) ≡ (quoted s, r)
unfolding read_value
read_value-quoted s r =
    let cut_ : cut ends_string false (esc_string_field s ++ (quote ∷ r)) ≡ (s, quote ∷ r) =
      ap (λ (t : Str). cut ends_string false (t ++ (quote ∷ r))) (esc_string_field-escape s)
      ∙ cut-token ends_string in_string s quote r string-fits refl refl in
    ap (λ (t : Str). read_value (quote ∷ t)) (append_assoc (esc_string_field s) (quote ∷ []) r)
    ∙ ground (arith, cut_)
