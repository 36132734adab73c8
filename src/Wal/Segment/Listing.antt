-- ===== src/Wal/Segment/Listing.antt =====
-- `list_segments` of wal/segment.rs.
use ingestion_service.Common.{
  ℕ, ◌+◌, ◌≤◌, ◌≡◌, refl, ◌∙◌, none, some, List, [], ◌∷◌, ok, Bool-cases, inl, inr, leb, leb→le,
  not_leb→lt, ◌==◌, if◌then◌else◌, arith, All, Result-cases,
}
use ingestion_service.Wal.Segment.{
  DirEntry, unreadable, not_utf8, named, parse_segment_id, segment_ids, insert_sorted, sort,
  list_segments,
}

-- Ascending.
abbrev pub IsSorted : List ℕ → Type 0
IsSorted [] = Unit
IsSorted (x ∷ xs) = All (λ y. x ≤ y) xs × IsSorted xs

-- How often a number stands in a list.
abbrev pub count : ℕ → List ℕ → ℕ
count a [] = 0
count a (x ∷ xs) = (if a == x then 1 else 0) + count a xs

-- How many entries of the directory are segments of an id.
abbrev pub files_of : ℕ → List DirEntry → ℕ
files_of a [] = 0
files_of a (named name ∷ es) =
    elim (parse_segment_id name) [ none ↦ 0 | some id ↦ if a == id then 1 else 0 ] + files_of a es
files_of a (_ ∷ es) = files_of a es

All-le-insert :
    (b x : ℕ) (ys : List ℕ) → b ≤ x → All (λ y. b ≤ y) ys → All (λ y. b ≤ y) (insert_sorted x ys)
unfolding insert_sorted
All-le-insert b x [] h k = (h, tt)
All-le-insert b x (y ∷ ys) h (k, ks) = elim (Bool-cases (leb x y)) [
  | inl e ↦ rw e (h, (k, ks))
  | inr e ↦ rw e (k, All-le-insert b x ys h ks)
]

All-le_trans : (a b : ℕ) (ys : List ℕ) → a ≤ b → All (λ y. b ≤ y) ys → All (λ y. a ≤ y) ys
All-le_trans a b [] h k = tt
All-le_trans a b (y ∷ ys) h (k, ks) = (omega arith, All-le_trans a b ys h ks)

insert_sorted-IsSorted : (x : ℕ) (ys : List ℕ) → IsSorted ys → IsSorted (insert_sorted x ys)
unfolding insert_sorted
insert_sorted-IsSorted x [] h = (tt, tt)
insert_sorted-IsSorted x (y ∷ ys) (k, ks) = elim (Bool-cases (leb x y)) [
  | inl e ↦ rw e ((leb→le x y e, All-le_trans x y ys (leb→le x y e) k), (k, ks))
  | inr e ↦
      rw e
        (All-le-insert y x ys (omega (arith, not_leb→lt x y e)) k, insert_sorted-IsSorted x ys ks)
]

count-insert_sorted : (a x : ℕ) (ys : List ℕ) → count a (insert_sorted x ys) ≡ count a (x ∷ ys)
unfolding insert_sorted
count-insert_sorted a x [] = refl
count-insert_sorted a x (y ∷ ys) = elim (Bool-cases (leb x y)) [
  | inl e ↦ rw e refl
  | inr e ↦ rw e (omega (arith, count-insert_sorted a x ys))
]

sort-IsSorted : (xs : List ℕ) → IsSorted (sort xs)
unfolding sort
sort-IsSorted [] = tt
sort-IsSorted (x ∷ xs) = insert_sorted-IsSorted x (sort xs) (sort-IsSorted xs)

count-sort : (a : ℕ) (xs : List ℕ) → count a (sort xs) ≡ count a xs
unfolding sort
count-sort a [] = refl
count-sort a (x ∷ xs) = count-insert_sorted a x (sort xs) ∙ omega (arith, count-sort a xs)

count-segment_ids :
    (a : ℕ) (es : List DirEntry) (ids : List ℕ)
    → segment_ids es ≡ ok ids
    → count a ids ≡ files_of a es
unfolding segment_ids
count-segment_ids a [] ids h = ground arith
count-segment_ids a (unreadable ∷ es) ids h = cc
count-segment_ids a (not_utf8 ∷ es) ids h = count-segment_ids a es ids h
count-segment_ids a (named name ∷ es) ids h = elim (Result-cases (segment_ids es)) [
  | inl (ids', e) ↦ ground (arith, e, h, count-segment_ids a es ids' e)
  | inr (x, e) ↦ ground (arith, e, h)
]

-- A listing that succeeds is in ascending order and has each id as often as the directory has files
-- that are named for it.
pub list_segments_lem :
    (entries : List DirEntry) (ids : List ℕ)
    → list_segments (some entries) ≡ ok ids
    → IsSorted ids × ((a : ℕ) → count a ids ≡ files_of a entries)
unfolding list_segments
list_segments_lem entries ids h = elim (Result-cases (segment_ids entries)) [
  | inl (ids', e) ↦
      let q : sort ids' ≡ ids = ground (arith, e, h) in
      rw (← q) (sort-IsSorted ids', λ a. count-sort a ids' ∙ count-segment_ids a entries ids' e)
  | inr (x, e) ↦ ground (arith, e, h)
]
