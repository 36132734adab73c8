-- ===== src/Wal/Writer/Moved.antt =====
-- The file operations of the `BufWriter` move bytes towards the end of the current file, and change
-- nothing else.
use ingestion_service.Common.{
  ℕ, ◌-◌, ◌≤◌, ◌≡◌, ◌≢◌, refl, sym, ap, ◌∙◌, Bool, true, false, none, some, List, [], ◌++◌, length,
  take, drop, append_assoc, append-nil, take-append-drop, arith, Bool-cases, inl, inr, ltb, leb,
}
use ingestion_service.Wal.Writer.{Writer, Fault}
use ingestion_service.Wal.Writer.BufWriter
use ingestion_service.Wal.Writer.BufWriter.{
  set_file, contents, append, flush, capacity, make_room, write_cold,
}

-- From `w` to `w'` the current file, `f` in `w`, has grown by `g`, and the buffer holds `rest`.
pub record Moved (f g rest : List ℕ) (w w' : Writer) : Type 0 where
  pub file : w'.disk w.segment_id ≡ some (f ++ g)
  pub others : (i : ℕ) → i ≢ w.segment_id → w'.disk i ≡ w.disk i
  pub buffer : w'.buffer ≡ rest
  pub same : w' ≡ record w { disk = w'.disk; buffer = w'.buffer }

Moved-none : (f : List ℕ) (w : Writer) → w.disk w.segment_id ≡ some f → Moved f [] w.buffer w w
Moved-none f w h = record {
  file = h ∙ ap some (sym (append-nil f));
  others = λ i _. refl;
  buffer = refl;
  same = refl;
}

-- The writer with `g` appended to the current file and `rest` in the buffer.
abbrev appended : List ℕ → List ℕ → Writer → Writer
appended g rest w = record w {
  disk = set_file w.disk w.segment_id (contents (w.disk w.segment_id) ++ g);
  buffer = rest;
}

Moved-appended :
    (f g rest : List ℕ) (w : Writer)
    → w.disk w.segment_id ≡ some f
    → Moved f g rest w (appended g rest w)
Moved-appended f g rest w h = record {
  file = ground (arith, h);
  others = λ i ne. ground arith;
  buffer = refl;
  same = refl;
}

pub flush-Moved :
    (fault : Fault) (w : Writer) (f : List ℕ)
    → w.disk w.segment_id ≡ some f
    → (g rest : List ℕ) × Moved f g rest w (flush fault w).1
      × (g ++ rest ≡ w.buffer)
      × ((flush fault w).0 ≡ true → rest ≡ [])
unfolding flush
flush-Moved none w f h =
    (w.buffer, [], Moved-appended f w.buffer [] w h, append-nil w.buffer, λ _. refl)
flush-Moved (some k) w f h = elim (Bool-cases (ltb k (length w.buffer))) [
  | inl e ↦ rw e (
    take k w.buffer,
    drop k w.buffer,
    Moved-appended f (take k w.buffer) (drop k w.buffer) w h,
    take-append-drop k w.buffer,
    λ p. cc,
  )
  | inr e ↦ rw e (w.buffer, [], Moved-appended f w.buffer [] w h, append-nil w.buffer, λ _. refl)
]

append-Moved :
    (fault : Fault) (bytes : List ℕ) (w : Writer) (f : List ℕ)
    → w.disk w.segment_id ≡ some f
    → (g : List ℕ) × Moved f g w.buffer w (append fault bytes w).1
      × ((append fault bytes w).0 ≡ true → g ≡ bytes)
unfolding append
append-Moved none bytes w f h = (bytes, Moved-appended f bytes w.buffer w h, λ _. refl)
append-Moved (some k) bytes w f h = elim (Bool-cases (ltb k (length bytes))) [
  | inl e ↦ rw e (take k bytes, Moved-appended f (take k bytes) w.buffer w h, λ p. cc)
  | inr e ↦ rw e (bytes, Moved-appended f bytes w.buffer w h, λ _. refl)
]

Moved-trans :
    (f g g' r r' : List ℕ) (w w' w'' : Writer)
    → Moved f g r w w'
    → Moved (f ++ g) g' r' w' w''
    → Moved f (g ++ g') r' w w''
Moved-trans f g g' r r' w w' w'' m n =
    let here : w'.segment_id ≡ w.segment_id = ap (λ (v : Writer). v.segment_id) m.same in
    record {
      file = ground (arith, n.file, here, append_assoc f g g');
      others = λ i ne. ground (arith, here, m.others i ne, n.others i);
      buffer = n.buffer;
      same = ground (arith, n.same, m.same);
    }

Moved-push :
    (f bytes : List ℕ) (w : Writer)
    → w.disk w.segment_id ≡ some f
    → Moved f [] (w.buffer ++ bytes) w (record w { buffer = w.buffer ++ bytes })
Moved-push f bytes w h = record {
  file = h ∙ ap some (sym (append-nil f));
  others = λ i _. refl;
  buffer = refl;
  same = refl;
}

make_room-Moved :
    (fault : Fault) (bytes : List ℕ) (w : Writer) (f : List ℕ)
    → w.disk w.segment_id ≡ some f
    → (g rest : List ℕ) × Moved f g rest w (make_room fault bytes w).1
      × (g ++ rest ≡ w.buffer)
      × ((make_room fault bytes w).0 ≡ true → capacity ≤ length bytes → rest ≡ [])
unfolding make_room
make_room-Moved fault bytes w f h =
    elim (Bool-cases (ltb (capacity - length w.buffer) (length bytes))) [
      | inl e ↦
          let (g, rest, m, q, done) = flush-Moved fault w f h in rw e (g, rest, m, q, λ t _. done t)
      | inr e ↦ rw e ([], w.buffer, Moved-none f w h, refl, λ _ big. ground arith)
    ]

abbrev Whole : List ℕ → List ℕ → Bool × Writer → Writer → Type 0
Whole f all out w = (g rest : List ℕ) × Moved f g rest w out.1 × (out.0 ≡ true → g ++ rest ≡ all)

write_cold-Moved :
    (fault : Fault) (bytes : List ℕ) (w : Writer) (f g rest : List ℕ) (ready : Bool) (w' : Writer)
    → Moved f g rest w w'
    → g ++ rest ≡ w.buffer
    → (ready ≡ true → capacity ≤ length bytes → rest ≡ [])
    → Whole f (w.buffer ++ bytes) (write_cold fault bytes (ready, w')) w
unfolding write_cold
write_cold-Moved fault bytes w f g rest false w' m q z = (g, rest, m, λ t. cc)
write_cold-Moved fault bytes w f g rest true w' m q z =
    let here : w'.segment_id ≡ w.segment_id = ap (λ (v : Writer). v.segment_id) m.same in
    let file : w'.disk w'.segment_id ≡ some (f ++ g) = ap w'.disk here ∙ m.file in
    elim (Bool-cases (leb capacity (length bytes))) [
      | inl e ↦
          let (g', n, done) = append-Moved fault bytes w' (f ++ g) file in
          rw e (
            g ++ g',
            w'.buffer,
            Moved-trans f g g' rest w'.buffer w w' _ m n,
            λ t. ground (
              arith,
              done t,
              z refl (ground arith),
              append-nil g,
              append-nil (g ++ g'),
              m.buffer,
            ),
          )
      | inr e ↦ rw e (
        g ++ [],
        w'.buffer ++ bytes,
        Moved-trans f g [] rest (w'.buffer ++ bytes) w w' _ m (Moved-push (f ++ g) bytes w' file),
        λ t. ground (arith, append-nil g, m.buffer, append_assoc g rest bytes),
      )
    ]

-- `write_all` keeps every byte in order where it succeeds: the file and the buffer have gained just
-- what was written.
pub write_all_moved :
    (flush_fault direct_fault : Fault) (bytes : List ℕ) (w : Writer) (f : List ℕ)
    → w.disk w.segment_id ≡ some f
    → Whole f (w.buffer ++ bytes) (BufWriter.write_all flush_fault direct_fault bytes w) w
unfolding BufWriter.write_all
write_all_moved flush_fault direct_fault bytes w f h =
    elim (Bool-cases (ltb (length bytes) (capacity - length w.buffer))) [
      | inl e ↦ rw e ([], w.buffer ++ bytes, Moved-push f bytes w h, λ _. refl)
      | inr e ↦
          let (g, rest, m, q, z) = make_room-Moved flush_fault bytes w f h in
          rw e (write_cold-Moved direct_fault bytes w f g rest _ _ m q z)
    ]
