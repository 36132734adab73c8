-- ===== src/Wal/Writer/Durable.antt =====
-- One pass of `writer_loop`, and the whole of it: the account stays right, and nobody is told that a
-- record is durable which is not in a file.
use ingestion_service.Common.{
  ℕ, ◌+◌, ◌≡◌, refl, sym, ap, subst, ◌∙◌, inl, inr, true, Option, none, some, List, [], ◌∷◌, ◌++◌,
  length, length-append, append_assoc, arith, Bool-cases, All, All-append, if◌then◌else◌, Result,
  ok, err,
}
use ingestion_service.Wal.Types.{WalError}
use ingestion_service.Wal.Codec.{Bincode, encode_into}
use ingestion_service.Wal.Writer.{Writer, Fault, Answer, flush_interval}
use ingestion_service.Wal.Writer.BufWriter
use ingestion_service.Wal.Writer.BufWriter.{set_file, contents, append, flush}
use ingestion_service.Wal.Writer.Moved.{Moved, write_all_moved}
use ingestion_service.Wal.Writer.Stored.{
  Occurs, Occurs-last, IsStored, AllStored-Extends, AllStored-failed, AllOccurs-grow,
}
use ingestion_service.Wal.Writer.Consistency.{IsConsistent, Moved-Extends, publish-IsConsistent}
use ingestion_service.Wal.Writer.Turn.{
  Pass, Flow, running, stopped, fatal, Received, request, timeout, disconnected, flush_if_due,
  publish, write_record, then_write, handle_encoded, receive, pass, fail_pending_durable_acks,
  push_ack, store_head, notify_waiters, acknowledge_pending_durable_ok,
}
use ingestion_service.Wal.Writer.Loop.{writer_loop, shutdown}
use ingestion_service.Wal.Writer.Steps.{
  Names, IsHonest, IsGood, fail_ack-IsConsistent, flush-IsHonest, give_up-IsGood,
  flush-IsConsistent, flush_if_due-IsConsistent, rotate-IsGood,
}

module _ (frame_of : ℕ → List ℕ) where
  -- What a successful `write_all` leaves, with the bookkeeping behind it.
  abbrev counted_up : Pass → List ℕ → Option ℕ → Writer → Writer
  counted_up p bytes ack w = record w {
    byte_offset = w.byte_offset + length bytes;
    pending = push_ack ack w.pending;
    dirty = true;
    flush_deadline = if w.dirty then w.flush_deadline else p.later + flush_interval;
  }

  push_ack-Occurs :
      (ack : Option ℕ) (bytes l : List ℕ) (pending : List ℕ)
      → ((a : ℕ) → ack ≡ some a → frame_of a ≡ bytes)
      → All (λ a. Occurs (frame_of a) l) pending
      → All (λ a. Occurs (frame_of a) (l ++ bytes)) (push_ack ack pending)
  unfolding push_ack
  push_ack-Occurs none bytes l pending named h = AllOccurs-grow frame_of l bytes pending h
  push_ack-Occurs (some a) bytes l pending named h =
      All-append (λ a. Occurs (frame_of a) (l ++ bytes)) pending (a ∷ [])
        (AllOccurs-grow frame_of l bytes pending h) (rw (named a refl) (Occurs-last bytes l), tt)

  counted_up-IsConsistent :
      (p : Pass) (bytes : List ℕ) (ack : Option ℕ) (w w' : Writer) (f g rest : List ℕ)
      → ((a : ℕ) → ack ≡ some a → frame_of a ≡ bytes)
      → IsConsistent frame_of w f
      → Moved f g rest w w'
      → g ++ rest ≡ w.buffer ++ bytes
      → IsConsistent frame_of (counted_up p bytes ack w') (f ++ g)
  counted_up-IsConsistent p bytes ack w w' f g rest named c m q =
      let here : w'.segment_id ≡ w.segment_id = ap (λ (v : Writer). v.segment_id) m.same in
      let whole : (f ++ w.buffer) ++ bytes ≡ (f ++ g) ++ w'.buffer =
        append_assoc f w.buffer bytes
        ∙ ap (λ (l : List ℕ). f ++ l) (sym q)
        ∙ sym (append_assoc f g rest)
        ∙ ap (λ (l : List ℕ). (f ++ g) ++ l) (sym m.buffer) in
      record {
        file = ap w'.disk here ∙ m.file;
        counted = omega (
          arith,
          c.counted,
          ap length whole,
          length-append (f ++ g) w'.buffer,
          length-append (f ++ w.buffer) bytes,
          length-append f w.buffer,
          ap (λ (v : Writer). v.byte_offset) m.same,
        );
        fresh = λ i lt. m.others i (omega (arith, here)) ∙ c.fresh i (omega (arith, here));
        published = ground (arith, c.published, m.same, length-append f g);
        clean = λ d. cc;
        waiting =
            subst (λ (l : List ℕ). All (λ a. Occurs (frame_of a) l) (push_ack ack w'.pending)) whole
              (push_ack-Occurs ack bytes (f ++ w.buffer) w'.pending named (
                subst (λ (p : List ℕ). All (λ a. Occurs (frame_of a) (f ++ w.buffer)) p)
                  (sym (ap (λ (v : Writer). v.pending) m.same)) c.waiting));
        answered =
            subst (λ (l : List Answer). All (IsStored frame_of w'.disk) l)
              (sym (ap (λ (v : Writer). v.sent) m.same))
              (AllStored-Extends frame_of w.disk w'.disk w.sent
                (Moved-Extends frame_of f g rest w w' c.file m) c.answered);
      }

  write_record-IsGood :
      (p : Pass) (bytes : List ℕ) (ack : Option ℕ) (w : Writer) (f : List ℕ)
      → ((a : ℕ) → ack ≡ some a → frame_of a ≡ bytes)
      → IsConsistent frame_of w f
      → IsGood frame_of (write_record p bytes ack w)
  unfolding write_record
  write_record-IsGood p bytes ack w f named c =
      let out = BufWriter.write_all p.write_flush p.write_direct bytes w in
      let (g, rest, m, q) = write_all_moved p.write_flush p.write_direct bytes w f c.file in
      elim (Bool-cases out.0) [
        | inl t ↦
            rw t (f ++ g, counted_up-IsConsistent p bytes ack w out.1 f g rest named c m (q t))
        | inr t ↦ rw t (
            give_up-IsGood frame_of p _ _ ack out.1 (f ++ g)
              (ap out.1.disk (ap (λ (v : Writer). v.segment_id) m.same) ∙ m.file)
              (subst (λ (l : List Answer). All (IsStored frame_of out.1.disk) l)
                (sym (ap (λ (v : Writer). v.sent) m.same))
                (AllStored-Extends frame_of w.disk out.1.disk w.sent
                  (Moved-Extends frame_of f g rest w out.1 c.file m) c.answered)))
      ]

  then_write-IsGood :
      (p : Pass) (bytes : List ℕ) (ack : Option ℕ) (x : Flow × Writer)
      → ((a : ℕ) → ack ≡ some a → frame_of a ≡ bytes)
      → IsGood frame_of x
      → IsGood frame_of (then_write p bytes ack x)
  unfolding then_write
  then_write-IsGood p bytes ack (running, w) named (f, c) =
      write_record-IsGood p bytes ack w f named c
  then_write-IsGood p bytes ack (stopped, w) named h = h
  then_write-IsGood p bytes ack (fatal reason, w) named h = h

  handle_encoded-IsGood :
      (p : Pass) (x : Result WalError (List ℕ)) (ack : Option ℕ) (w : Writer) (f : List ℕ)
      → ((a : ℕ) (b : List ℕ) → ack ≡ some a → x ≡ ok b → frame_of a ≡ b)
      → IsConsistent frame_of w f
      → IsGood frame_of (handle_encoded p x ack w)
  unfolding handle_encoded
  handle_encoded-IsGood p (ok bytes) ack w f named c =
      then_write-IsGood p bytes ack _ (λ a e. named a bytes e refl)
        (rotate-IsGood frame_of p (length bytes) ack w f c)
  handle_encoded-IsGood p (err e) ack w f named c = (f, fail_ack-IsConsistent frame_of ack _ w f c)

  receive-IsGood :
      (bc : Bincode) (p : Pass) (x : Received) (w : Writer) (f : List ℕ)
      → Names frame_of bc x
      → IsConsistent frame_of w f
      → IsGood frame_of (receive bc p x w)
  unfolding receive
  receive-IsGood bc p (request r) w f named c =
      handle_encoded-IsGood p (encode_into bc r.event) r.durable_ack w f named c
  receive-IsGood bc p timeout w f named c = (f, c)
  receive-IsGood bc p disconnected w f named c = (f, c)

  -- One pass of the loop, from a state whose account is right: if the loop goes on, or leaves because
  -- the channel is closed, the account is right again (the file and the buffer make up
  -- `byte_offset`, `head` is not past the file, later segments do not exist, a clean writer holds
  -- nothing, and the record of each append that waits is in the file or the buffer); and on every
  -- outcome each append answered `Ok` has its record in a segment file.
  pub pass-IsGood :
      (bc : Bincode) (p : Pass) (w : Writer) (f : List ℕ)
      → Names frame_of bc p.received
      → IsConsistent frame_of w f
      → IsGood frame_of (pass bc p w)
  unfolding pass
  pass-IsGood bc p w f named c =
      let (f', c') = flush_if_due-IsConsistent frame_of p w f c in
      receive-IsGood bc p p.received (flush_if_due p w) f' named c'

  shutdown-IsHonest :
      (final_flush drop_flush : Fault) (w : Writer) (f : List ℕ)
      → IsConsistent frame_of w f
      → IsHonest frame_of (shutdown final_flush drop_flush w)
  unfolding shutdown
  shutdown-IsHonest final_flush drop_flush w f c =
      let (f', c', empty) = flush-IsConsistent frame_of final_flush w f c in
      let w' = (flush final_flush w).1 in
      elim (Bool-cases (flush final_flush w).0) [
        | inl t ↦ rw t (
            unfold store_head notify_waiters acknowledge_pending_durable_ok publish in
            (publish-IsConsistent frame_of w' f' c' (empty t)).answered)
        | inr t ↦ rw t (
            flush-IsHonest frame_of drop_flush (notify_waiters (fail_pending_durable_acks _ w')) f'
              (unfold notify_waiters fail_pending_durable_acks in c'.file)
              (unfold notify_waiters fail_pending_durable_acks in
                All-append (IsStored frame_of w'.disk) w'.sent _ c'.answered
                  (AllStored-failed frame_of w'.disk _ w'.pending)))
      ]

  -- Over a whole run of the writer thread, however its file operations end, each append that was
  -- answered `Ok` has its record in a segment file when the run ends.
  pub writer_loop-IsHonest :
      (bc : Bincode) (final_flush drop_flush : Fault) (ps : List Pass) (w : Writer) (f : List ℕ)
      → All (λ p. Names frame_of bc p.received) ps
      → IsConsistent frame_of w f
      → IsHonest frame_of (writer_loop bc final_flush drop_flush ps w).1
  unfolding writer_loop
  writer_loop-IsHonest bc ff df [] w f named c = c.answered
  writer_loop-IsHonest bc ff df (p ∷ ps) w f named c =
      go (pass bc p w) refl (pass-IsGood bc p w f named.0 c)
        (λ w' f' c'. writer_loop-IsHonest bc ff df ps w' f' named.1 c')
    where
      go :
          (x : Flow × Writer)
          → pass bc p w ≡ x
          → IsGood frame_of x
          → ((w' : Writer) (f' : List ℕ)
              → IsConsistent frame_of w' f'
              → IsHonest frame_of (writer_loop bc ff df ps w').1)
          → IsHonest frame_of (writer_loop bc ff df (p ∷ ps) w).1
      go (running, w') e (f', c') k =
          let eq : writer_loop bc ff df (p ∷ ps) w ≡ writer_loop bc ff df ps w' =
            ground (arith, e) in
          subst (λ (y : Flow × Writer). IsHonest frame_of y.1) (sym eq) (k w' f' c')
      go (stopped, w') e (f', c') k =
          let eq : writer_loop bc ff df (p ∷ ps) w ≡ (stopped, shutdown ff df w') =
            ground (arith, e) in
          subst (λ (y : Flow × Writer). IsHonest frame_of y.1) (sym eq)
            (shutdown-IsHonest ff df w' f' c')
      go (fatal reason, w') e h k =
          let eq : writer_loop bc ff df (p ∷ ps) w ≡ (fatal reason, w') = ground (arith, e) in
          subst (λ (y : Flow × Writer). IsHonest frame_of y.1) (sym eq) h
