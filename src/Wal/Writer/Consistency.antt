-- ===== src/Wal/Writer/Consistency.antt =====
-- The writer's account of its file, and of what it owes to whom, is right while it runs.
use ingestion_service.Common.{
  ℕ, ◌+◌, ◌≤◌, ◌<◌, ◌≡◌, refl, sym, ap, subst, ◌∙◌, ◌⊎◌, inl, inr, false, none, some, List, [], ◌∷◌,
  ◌++◌, map, length, length-append, append_assoc, append-nil, arith, Bool-cases, All, All-append,
  ◌==◌,
}
use ingestion_service.Wal.Writer.{Writer, Answer, done}
use ingestion_service.Wal.Writer.Moved.{Moved}
use ingestion_service.Wal.Writer.Stored.{
  Occurs, Extends, IsStored, AllStored-Extends, AllStored-done,
}
use ingestion_service.Wal.Writer.Turn.{
  publish, store_head, notify_waiters, acknowledge_pending_durable_ok, next_segment,
}

right-nil : (g rest : List ℕ) → g ++ rest ≡ [] → rest ≡ []
right-nil [] rest h = h
right-nil (x ∷ g) rest h = cc

module _ (frame_of : ℕ → List ℕ) where
  -- `f` is the current file. `frame_of` names the record of each ack.
  pub record IsConsistent (w : Writer) (f : List ℕ) : Type 0 where
    pub file : w.disk w.segment_id ≡ some f
    pub counted : length f + length w.buffer ≡ w.byte_offset
    pub fresh : (i : ℕ) → w.segment_id < i → w.disk i ≡ none
    pub published :
        (w.head.segment_id < w.segment_id)
        ⊎ ((w.head.segment_id ≡ w.segment_id) × (w.head.byte_offset ≤ length f))
    pub clean : w.dirty ≡ false → (w.buffer ≡ []) × (w.pending ≡ [])
    pub waiting : All (λ a. Occurs (frame_of a) (f ++ w.buffer)) w.pending
    pub answered : All (IsStored frame_of w.disk) w.sent

  pub Moved-Extends :
      (f g rest : List ℕ) (w w' : Writer)
      → w.disk w.segment_id ≡ some f
      → Moved f g rest w w'
      → Extends w.disk w'.disk
  Moved-Extends f g rest w w' file m i h e = elim (Bool-cases (i == w.segment_id)) [
    | inl same ↦ (g, ground (arith, m.file, file, e))
    | inr other ↦ ([], m.others i (ground arith) ∙ e ∙ ap some (sym (append-nil h)))
  ]

  -- Moving bytes to the file keeps the account.
  pub Moved-IsConsistent :
      (f g rest : List ℕ) (w w' : Writer)
      → IsConsistent w f
      → Moved f g rest w w'
      → g ++ rest ≡ w.buffer
      → IsConsistent w' (f ++ g)
  Moved-IsConsistent f g rest w w' c m q =
      let here : w'.segment_id ≡ w.segment_id = ap (λ (v : Writer). v.segment_id) m.same in
      let whole : f ++ w.buffer ≡ (f ++ g) ++ w'.buffer =
        ap (λ (l : List ℕ). f ++ l) (sym q)
        ∙ sym (append_assoc f g rest)
        ∙ ap (λ (l : List ℕ). (f ++ g) ++ l) (sym m.buffer) in
      let dirty : w.dirty ≡ w'.dirty = sym (ap (λ (v : Writer). v.dirty) m.same) in
      let pending : w'.pending ≡ w.pending = ap (λ (v : Writer). v.pending) m.same in
      record {
        file = ap w'.disk here ∙ m.file;
        counted = omega (
          arith,
          c.counted,
          length-append f g,
          ap length whole,
          length-append (f ++ g) w'.buffer,
          length-append f w.buffer,
          ap (λ (v : Writer). v.byte_offset) m.same,
        );
        fresh = λ i lt. m.others i (omega (arith, here)) ∙ c.fresh i (omega (arith, here));
        published = ground (arith, c.published, m.same, length-append f g);
        clean = λ d. (
          m.buffer ∙ right-nil g rest (q ∙ (c.clean (dirty ∙ d)).0),
          pending ∙ (c.clean (dirty ∙ d)).1,
        );
        waiting =
            subst (λ (l : List ℕ). All (λ a. Occurs (frame_of a) l) w'.pending) whole
              (subst (λ (p : List ℕ). All (λ a. Occurs (frame_of a) (f ++ w.buffer)) p)
                (sym pending) c.waiting);
        answered =
            subst (λ (l : List Answer). All (IsStored frame_of w'.disk) l)
              (sym (ap (λ (v : Writer). v.sent) m.same))
              (AllStored-Extends frame_of w.disk w'.disk w.sent
                (Moved-Extends f g rest w w' c.file m) c.answered);
      }

  -- Publishing with an empty buffer: what waited is in the file.
  pub publish-IsConsistent :
      (w : Writer) (f : List ℕ) → IsConsistent w f → w.buffer ≡ [] → IsConsistent (publish w) f
  unfolding publish store_head notify_waiters acknowledge_pending_durable_ok
  publish-IsConsistent w f c empty =
      let whole : f ++ w.buffer ≡ f = ap (λ (l : List ℕ). f ++ l) empty ∙ append-nil f in
      record {
        file = c.file;
        counted = c.counted;
        fresh = c.fresh;
        published = inr (refl, omega (arith, c.counted, ap (λ (l : List ℕ). length l) empty));
        clean = λ d. (empty, refl);
        waiting = tt;
        answered = All-append (IsStored frame_of w.disk) w.sent (map done w.pending) c.answered (
            AllStored-done frame_of w.disk w.segment_id f w.pending c.file
              (subst (λ (l : List ℕ). All (λ a. Occurs (frame_of a) l) w.pending) whole c.waiting));
      }

  -- The next segment starts with an empty file.
  pub next_segment-IsConsistent :
      (w : Writer) (f : List ℕ)
      → IsConsistent w f
      → w.pending ≡ []
      → IsConsistent (next_segment w) []
  unfolding next_segment
  next_segment-IsConsistent w f c none_wait = record {
    file = ground (arith, c.fresh (w.segment_id + 1) (omega arith));
    counted = refl;
    fresh = λ i lt. ground (arith, c.fresh i (omega arith));
    published = ground (arith, c.published);
    clean = λ d. (refl, none_wait);
    waiting = rw none_wait tt;
    answered =
        AllStored-Extends frame_of w.disk (next_segment w).disk w.sent
          (λ i h e. ([], ground (arith, e, append-nil h, c.fresh (w.segment_id + 1) (omega arith))))
          c.answered;
  }
