-- ===== src/Wal/Writer/Stored.antt =====
-- Where a record stands on disk, and that files which only grow keep it.
use ingestion_service.Common.{
  ℕ, ◌≡◌, ap, sym, ◌∙◌, Option, some, List, [], ◌∷◌, ◌++◌, append_assoc, append-nil, All, map,
}
use ingestion_service.Wal.Types.{AckError}
use ingestion_service.Wal.Writer.{Answer, done, failed}

-- `x` stands in `l`.
abbrev pub Occurs : List ℕ → List ℕ → Type 0
Occurs x l = (before after : List ℕ) × (l ≡ before ++ (x ++ after))

pub Occurs-grow : (x l g : List ℕ) → Occurs x l → Occurs x (l ++ g)
Occurs-grow x l g (before, after, e) = (
  before,
  after ++ g,
  ap (λ (t : List ℕ). t ++ g) e
      ∙ append_assoc before (x ++ after) g
      ∙ ap (λ (t : List ℕ). before ++ t) (append_assoc x after g),
)

pub Occurs-last : (x l : List ℕ) → Occurs x (l ++ x)
Occurs-last x l = (l, [], ap (λ (t : List ℕ). l ++ t) (sym (append-nil x)))

-- Every file of the first disk is the start of the same file of the second.
abbrev pub Extends : (ℕ → Option (List ℕ)) → (ℕ → Option (List ℕ)) → Type 0
Extends disk disk' =
    (i : ℕ) (f : List ℕ) → disk i ≡ some f → (g : List ℕ) × (disk' i ≡ some (f ++ g))

pub Extends-trans : (a b c : ℕ → Option (List ℕ)) → Extends a b → Extends b c → Extends a c
Extends-trans a b c h k i f e =
    let (g, e') = h i f e in
    let (g', e'') = k i (f ++ g) e' in (g ++ g', e'' ∙ ap some (append_assoc f g g'))

module _ (frame_of : ℕ → List ℕ) where
  -- An append that was answered `Ok` has its record in a segment file.
  abbrev pub IsStored : (ℕ → Option (List ℕ)) → Answer → Type 0
  IsStored disk (done a) = (i : ℕ) × (f : List ℕ) × (disk i ≡ some f) × Occurs (frame_of a) f
  IsStored disk (failed a e) = Unit

  pub IsStored-Extends :
      (disk disk' : ℕ → Option (List ℕ)) (x : Answer)
      → Extends disk disk'
      → IsStored disk x
      → IsStored disk' x
  IsStored-Extends disk disk' (done a) h (i, f, e, o) =
      let (g, e') = h i f e in (i, f ++ g, e', Occurs-grow (frame_of a) f g o)
  IsStored-Extends disk disk' (failed a e) h s = tt

  pub AllStored-Extends :
      (disk disk' : ℕ → Option (List ℕ)) (xs : List Answer)
      → Extends disk disk'
      → All (IsStored disk) xs
      → All (IsStored disk') xs
  AllStored-Extends disk disk' [] h s = tt
  AllStored-Extends disk disk' (x ∷ xs) h (s, ss) =
      (IsStored-Extends disk disk' x h s, AllStored-Extends disk disk' xs h ss)

  -- What waits for the bytes of a file may be answered when they are in it.
  pub AllStored-done :
      (disk : ℕ → Option (List ℕ)) (i : ℕ) (f : List ℕ) (pending : List ℕ)
      → disk i ≡ some f
      → All (λ a. Occurs (frame_of a) f) pending
      → All (IsStored disk) (map done pending)
  AllStored-done disk i f [] e h = tt
  AllStored-done disk i f (a ∷ as') e (o, os) = ((i, f, e, o), AllStored-done disk i f as' e os)

  pub AllStored-failed :
      (disk : ℕ → Option (List ℕ)) (e : AckError) (pending : List ℕ)
      → All (IsStored disk) (map (λ a. failed a e) pending)
  AllStored-failed disk e [] = tt
  AllStored-failed disk e (a ∷ as') = (tt, AllStored-failed disk e as')

  pub AllOccurs-grow :
      (l g : List ℕ) (pending : List ℕ)
      → All (λ a. Occurs (frame_of a) l) pending
      → All (λ a. Occurs (frame_of a) (l ++ g)) pending
  AllOccurs-grow l g [] h = tt
  AllOccurs-grow l g (a ∷ as') (o, os) = (Occurs-grow (frame_of a) l g o, AllOccurs-grow l g as' os)
