-- ===== src/Model/Topic.antt =====
-- src/model/topic.rs: topic filters with the wildcards `+` and `#`. A string is the list of its
-- characters.
pub mod Matching
use ingestion_service.Common.{
  ℕ, zero, suc, ◌+◌, ◌-◌, ◌≡◌, Bool, true, false, not, ◌&&◌, ◌||◌, Option, none, some, List, [],
  ◌∷◌, ◌++◌, Result, ok, err, ◌>>=◌, length, ltb, leb, ◌==◌, if◌then◌else◌,
}
use ingestion_service.Model.Messages.{Str}

-- `char::is_whitespace`
unfoldable pub is_whitespace : ℕ → Bool
is_whitespace c =
    (leb 9 c && leb c 13)
    || (c == 32)
    || (c == 133)
    || (c == 160)
    || (c == 5760)
    || (leb 8192 c && leb c 8202)
    || (c == 8232)
    || (c == 8233)
    || (c == 8239)
    || (c == 8287)
    || (c == 12288)

abbrev pub slash : ℕ
slash = 47

unfoldable pub drop_while : (ℕ → Bool) → Str → Str
drop_while p [] = []
drop_while p (c ∷ cs) = if p c then drop_while p cs else c ∷ cs

unfoldable pub reverse : Str → Str
reverse [] = []
reverse (c ∷ cs) = reverse cs ++ (c ∷ [])

-- `str::trim_matches` with a test on characters.
unfoldable pub trim_matches : (ℕ → Bool) → Str → Str
trim_matches p s = reverse (drop_while p (reverse (drop_while p s)))

-- `raw.trim().trim_matches('/')`
unfoldable pub normalize : Str → Str
normalize s = trim_matches (λ c. c == slash) (trim_matches is_whitespace s)

-- A character in front of the first part.
unfoldable pub cons_part : ℕ → List Str → List Str
cons_part c [] = (c ∷ []) ∷ []
cons_part c (p ∷ ps) = (c ∷ p) ∷ ps

-- `split('/')`, which gives one part more than there are slashes.
unfoldable pub split : Str → List Str
split [] = [] ∷ []
split (c ∷ cs) = if c == slash then [] ∷ split cs else cons_part c (split cs)

unfoldable pub str_eq : Str → Str → Bool
str_eq [] [] = true
str_eq (a ∷ as') (b ∷ bs) = (a == b) && str_eq as' bs
str_eq _ _ = false

pub data Segment : Type 0 where
  lit : Str → Segment
  one multi : Segment

pub record TopicPattern : Type 0 where
  pub segments : List Segment
  pub device_id_index : Option ℕ

pub data TopicError : Type 0 where
  empty_pattern empty_segment multi_not_last : TopicError

-- "+", "#" and "smarthome"
abbrev pub plus : Str
plus = 43 ∷ []

abbrev pub hash : Str
hash = 35 ∷ []

abbrev pub smarthome : Str
smarthome = 115 ∷ 109 ∷ 97 ∷ 114 ∷ 116 ∷ 104 ∷ 111 ∷ 109 ∷ 101 ∷ []

abbrev pub is_empty {ℓ} : {A : Type ℓ} → List A → Bool
is_empty [] = true
is_empty (x ∷ xs) = false

-- One round of the loop of `new`: the segment of a part that is the last one or is not.
unfoldable pub parse_segment : Str → Bool → Result TopicError Segment
parse_segment seg last =
    if is_empty seg
    then err empty_segment
    else if str_eq seg plus
    then ok one
    else if str_eq seg hash
    then (if last then ok multi else err multi_not_last)
    else ok (lit seg)

unfoldable pub parse_segments : List Str → Result TopicError (List Segment)
parse_segments [] = ok []
parse_segments (p ∷ ps) = do s ← parse_segment p (is_empty ps); ss ← parse_segments ps; ok (s ∷ ss)

-- The index of the first `+`, from an index on.
unfoldable pub first_one : ℕ → List Segment → Option ℕ
first_one i [] = none
first_one i (one ∷ ss) = some i
first_one i (_ ∷ ss) = first_one (suc i) ss

-- The convention for topics below "smarthome".
unfoldable pub fallback_index : List Str → Option ℕ
fallback_index [] = none
fallback_index (p ∷ []) = none
fallback_index (p ∷ q ∷ ps) = if str_eq p smarthome then some 1 else none

unfoldable pub or_else : Option ℕ → Option ℕ → Option ℕ
or_else (some i) o = some i
or_else none o = o

unfoldable pub new : Str → Result TopicError TopicPattern
new raw = if is_empty (normalize raw) then err empty_pattern else do
  segments ← parse_segments (split (normalize raw))
  ok (record {
    segments = segments;
    device_id_index = or_else (first_one 0 segments) (fallback_index (split (normalize raw)));
  })

-- The loop of `matches`, on the segments and the parts from the two indices on.
unfoldable pub match_from : List Segment → List Str → Bool
match_from [] parts = is_empty parts
match_from (multi ∷ ss) parts = is_empty ss
match_from (one ∷ ss) [] = false
match_from (one ∷ ss) (p ∷ parts) = if is_empty p then false else match_from ss parts
match_from (lit l ∷ ss) [] = false
match_from (lit l ∷ ss) (p ∷ parts) = if str_eq p l then match_from ss parts else false

unfoldable pub matches : TopicPattern → Str → Bool
matches pattern' topic = match_from pattern'.segments (split (normalize topic))

abbrev pub nth {ℓ} : {A : Type ℓ} → ℕ → List A → Option A
nth n [] = none
nth zero (x ∷ xs) = some x
nth (suc n) (x ∷ xs) = nth n xs

unfoldable pub device_id_from_topic : TopicPattern → Str → Option Str
device_id_from_topic pattern' topic = elim pattern'.device_id_index [
  | some idx ↦ nth idx (split (normalize topic))
  | none ↦ none
]
