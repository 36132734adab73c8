-- ===== src/Model/Topic/Matching.antt =====
-- What a topic filter matches, and what `new` makes.
use ingestion_service.Common.{
  ◌≡◌, ◌≢◌, refl, ◌↔◌, inl, inr, Bool, true, false, List, [], ◌∷◌, ok, err, ◌==◌, arith, Bool-cases,
  Result-cases, ==_iff,
}
use ingestion_service.Model.Messages.{Str}
use ingestion_service.Model.Topic.{
  str_eq, Segment, lit, one, multi, TopicPattern, TopicError, parse_segment, parse_segments, new,
  match_from, matches, split, normalize, slash, cons_part,
}

-- What MQTT says of a filter and the levels of a topic; here a level under `+` is not empty.
pub data Matches : List Segment → List Str → Type 0 where
  end : Matches [] []
  rest : (parts : List Str) → Matches (multi ∷ []) parts
  level :
      (p : Str) (ss : List Segment) (parts : List Str)
      → p ≢ []
      → Matches ss parts
      → Matches (one ∷ ss) (p ∷ parts)
  same :
      (p : Str) (ss : List Segment) (parts : List Str)
      → Matches ss parts
      → Matches (lit p ∷ ss) (p ∷ parts)

pub str_eq_refl : (a : Str) → str_eq a a ≡ true
unfolding str_eq
str_eq_refl [] = refl
str_eq_refl (c ∷ a) = ground (arith, str_eq_refl a)

pub str_eq_sound : (a b : Str) → str_eq a b ≡ true → a ≡ b
unfolding str_eq
str_eq_sound [] [] h = refl
str_eq_sound [] (d ∷ b) h = cc
str_eq_sound (c ∷ a) [] h = cc
str_eq_sound (c ∷ a) (d ∷ b) h = elim (Bool-cases (c == d)) [
  | inl e ↦
      let rest : str_eq a b ≡ true = ground (arith, e, h) in
      let tails = str_eq_sound a b rest in let heads = (==_iff c d).0 e in cc (heads, tails)
  | inr e ↦ ground (arith, e, h)
]

match_from_sound :
    (ss : List Segment) (parts : List Str) → match_from ss parts ≡ true → Matches ss parts
unfolding match_from
match_from_sound [] [] h = end
match_from_sound [] (p ∷ parts) h = cc
match_from_sound (multi ∷ []) parts h = rest parts
match_from_sound (multi ∷ s ∷ ss) parts h = cc
match_from_sound (one ∷ ss) [] h = cc
match_from_sound (one ∷ ss) ([] ∷ parts) h = cc
match_from_sound (one ∷ ss) ((c ∷ p) ∷ parts) h =
    level (c ∷ p) ss parts (λ e. cc e) (match_from_sound ss parts h)
match_from_sound (lit l ∷ ss) [] h = cc
match_from_sound (lit l ∷ ss) (p ∷ parts) h = elim (Bool-cases (str_eq p l)) [
  | inl e ↦
      let found : match_from ss parts ≡ true = ground (arith, e, h) in
      rw (← str_eq_sound p l e) (same p ss parts (match_from_sound ss parts found))
  | inr e ↦ ground (arith, e, h)
]

match_from_complete :
    (ss : List Segment) (parts : List Str) → Matches ss parts → match_from ss parts ≡ true
unfolding match_from
match_from_complete ss parts end = refl
match_from_complete ss parts (rest _) = refl
match_from_complete ss parts (level [] ss' parts' h m) = absurd (h refl)
match_from_complete ss parts (level (c ∷ p) ss' parts' h m) = match_from_complete ss' parts' m
match_from_complete ss parts (same p ss' parts' m) =
    rw (str_eq_refl p) (match_from_complete ss' parts' m)

-- A filter matches a topic exactly if the levels of the topic, without the space and the slashes
-- around it, stand in the relation of the filter's segments: `+` for one level that is not empty, `#`
-- for all that follow, also none, and a literal for itself.
pub matches_iff :
    (p : TopicPattern) (topic : Str)
    → (matches p topic ≡ true) ↔ Matches p.segments (split (normalize topic))
unfolding matches
matches_iff p topic = (
  match_from_sound p.segments (split (normalize topic)),
  match_from_complete p.segments (split (normalize topic)),
)

-- Segments of which only the last may be `#`; there is at least one, and no literal is empty.
abbrev pub IsFilter : List Segment → Type 0
IsFilter [] = ⊥
IsFilter (multi ∷ []) = Unit
IsFilter (multi ∷ s ∷ ss) = ⊥
IsFilter (one ∷ []) = Unit
IsFilter (one ∷ s ∷ ss) = IsFilter (s ∷ ss)
IsFilter (lit l ∷ []) = l ≢ []
IsFilter (lit l ∷ s ∷ ss) = (l ≢ []) × IsFilter (s ∷ ss)

-- A segment that stands at the end or, unless it is `#`, before others.
abbrev Fits : Segment → Bool → Type 0
Fits multi last = last ≡ true
Fits one last = Unit
Fits (lit l) last = l ≢ []

parse_segment-Fits :
    (p : Str) (last : Bool) (s : Segment) → parse_segment p last ≡ ok s → Fits s last
unfolding parse_segment
parse_segment-Fits [] last s h = cc
parse_segment-Fits (c ∷ p) last one h = tt
parse_segment-Fits (c ∷ p) last multi h = ground arith
parse_segment-Fits (c ∷ p) last (lit l) h = ground arith

IsFilter-cons : (s : Segment) (ss : List Segment) → Fits s false → IsFilter ss → IsFilter (s ∷ ss)
IsFilter-cons multi ss f h = cc
IsFilter-cons one [] f h = absurd h
IsFilter-cons one (t ∷ ss) f h = h
IsFilter-cons (lit l) [] f h = absurd h
IsFilter-cons (lit l) (t ∷ ss) f h = (f, h)

IsFilter-end : (s : Segment) → Fits s true → IsFilter (s ∷ [])
IsFilter-end multi f = tt
IsFilter-end one f = tt
IsFilter-end (lit l) f = f

more :
    (p p' : Str) (ps : List Str) (s : Segment) (ss' ss : List Segment)
    → parse_segment p false ≡ ok s
    → parse_segments (p' ∷ ps) ≡ ok ss'
    → parse_segments (p ∷ p' ∷ ps) ≡ ok ss
    → (s ∷ ss') ≡ ss
unfolding parse_segments
more p p' ps s ss' ss e e' h = ground (arith, e, e', h)

stops :
    (p p' : Str) (ps : List Str) (s : Segment) (ss : List Segment) (x : TopicError)
    → parse_segment p false ≡ ok s
    → parse_segments (p' ∷ ps) ≡ err x
    → parse_segments (p ∷ p' ∷ ps) ≡ ok ss
    → ⊥
unfolding parse_segments
stops p p' ps s ss x e e' h = ground (arith, e, e', h)

parse_segments-IsFilter :
    (p : Str) (ps : List Str) (ss : List Segment) → parse_segments (p ∷ ps) ≡ ok ss → IsFilter ss
unfolding parse_segments
parse_segments-IsFilter p [] ss h = elim (Result-cases (parse_segment p true)) [
  | inl (s, e) ↦
      let q : (s ∷ []) ≡ ss = ground (arith, e, h) in
      rw (← q) (IsFilter-end s (parse_segment-Fits p true s e))
  | inr (x, e) ↦ ground (arith, e, h)
]
parse_segments-IsFilter p (p' ∷ ps) ss h = elim (Result-cases (parse_segment p false)) [
  | inl (s, e) ↦ elim (Result-cases (parse_segments (p' ∷ ps))) [
    | inl (ss', e') ↦
        let q : (s ∷ ss') ≡ ss = more p p' ps s ss' ss e e' h in
        rw (← q) (
          IsFilter-cons s ss' (parse_segment-Fits p false s e)
            (parse_segments-IsFilter p' ps ss' e'))
    | inr (x, e') ↦ absurd (stops p p' ps s ss x e e' h)
  ]
  | inr (x, e) ↦ ground (arith, e, h)
]

split-cons : (s : Str) → (p : Str) × (ps : List Str) × (split s ≡ p ∷ ps)
unfolding split cons_part
split-cons [] = ([], [], refl)
split-cons (c ∷ s) = elim (Bool-cases (c == slash)) [
  | inl e ↦ ([], split s, rw e refl)
  | inr e ↦ let (p, ps, q) = split-cons s in (c ∷ p, ps, rw (e, q) refl)
]

-- A filter that `new` accepts has at least one segment, `#` at its end only, and no empty literal.
new-IsFilter : (raw : Str) (p : TopicPattern) → new raw ≡ ok p → IsFilter p.segments
unfolding new
new-IsFilter raw p h =
    let (q, qs, e) = split-cons (normalize raw) in
    elim (Result-cases (parse_segments (split (normalize raw)))) [
      | inl (ss, f) ↦
          let same_segments : ss ≡ p.segments = ground (arith, f, h) in
          let parsed : parse_segments (q ∷ qs) ≡ ok ss = rw (← e) f in
          rw (← same_segments) (parse_segments-IsFilter q qs ss parsed)
      | inr (x, f) ↦ ground (arith, f, h)
    ]
