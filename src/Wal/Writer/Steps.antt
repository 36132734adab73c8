-- ===== src/Wal/Writer/Steps.antt =====
-- The parts of a pass of `writer_loop` before its write, on a writer whose account is right.
use ingestion_service.Common.{
  ℕ, ◌≡◌, refl, sym, ap, subst, ◌∙◌, inl, inr, true, false, Option, none, some, List, [], ◌∷◌, ◌++◌,
  Bool-cases, All, All-append, leb, ◌&&◌, ok,
}
use ingestion_service.Wal.Types.{AckError}
use ingestion_service.Wal.Codec.{Bincode, encode_into}
use ingestion_service.Wal.Writer.{Writer, Fault, Answer, failed, WriterFatalReason}
use ingestion_service.Wal.Writer.BufWriter.{flush}
use ingestion_service.Wal.Writer.Moved.{flush-Moved}
use ingestion_service.Wal.Writer.Stored.{IsStored, AllStored-Extends, AllStored-failed}
use ingestion_service.Wal.Writer.Consistency.{
  IsConsistent, Moved-Extends, Moved-IsConsistent, publish-IsConsistent, next_segment-IsConsistent,
}
use ingestion_service.Wal.Writer.Turn.{
  Pass, Flow, running, stopped, fatal, Received, request, timeout, disconnected, flush_if_due,
  publish, needs_rotation, rotate, give_up, fail_ack, fail_all, fail_pending_durable_acks,
  store_head, notify_waiters, acknowledge_pending_durable_ok,
}

module _ (frame_of : ℕ → List ℕ) where
  -- The ack of a request is the name of the record that the request is encoded to.
  abbrev pub Names : Bincode → Received → Type 0
  Names bc (request r) =
      (a : ℕ) (b : List ℕ) → r.durable_ack ≡ some a → encode_into bc r.event ≡ ok b → frame_of a ≡ b
  Names bc timeout = Unit
  Names bc disconnected = Unit

  abbrev pub IsHonest : Writer → Type 0
  IsHonest w = All (IsStored frame_of w.disk) w.sent

  -- After a pass that goes on, or meets the closed channel, the account is right; after any, no
  -- answer is wrong.
  abbrev pub IsGood : Flow × Writer → Type 0
  IsGood (running, w) = (f : List ℕ) × IsConsistent frame_of w f
  IsGood (stopped, w) = (f : List ℕ) × IsConsistent frame_of w f
  IsGood (fatal reason, w) = IsHonest w

  pub fail_ack-IsConsistent :
      (ack : Option ℕ) (e : AckError) (w : Writer) (f : List ℕ)
      → IsConsistent frame_of w f
      → IsConsistent frame_of (fail_ack ack e w) f
  unfolding fail_ack
  fail_ack-IsConsistent none e w f c = c
  fail_ack-IsConsistent (some a) e w f c = record {
    file = c.file;
    counted = c.counted;
    fresh = c.fresh;
    published = c.published;
    clean = c.clean;
    waiting = c.waiting;
    answered = All-append (IsStored frame_of w.disk) w.sent (failed a e ∷ []) c.answered (tt, tt);
  }

  pub fail_all-IsHonest :
      (e : AckError) (ack : Option ℕ) (w : Writer) → IsHonest w → IsHonest (fail_all e ack w)
  unfolding fail_all fail_ack fail_pending_durable_acks
  fail_all-IsHonest e none w h =
      All-append (IsStored frame_of w.disk) w.sent _ h
        (AllStored-failed frame_of w.disk e w.pending)
  fail_all-IsHonest e (some a) w h =
      All-append (IsStored frame_of w.disk) (w.sent ++ failed a e ∷ []) _
        (All-append (IsStored frame_of w.disk) w.sent (failed a e ∷ []) h (tt, tt))
        (AllStored-failed frame_of w.disk e w.pending)

  pub flush-IsHonest :
      (fault : Fault) (w : Writer) (f : List ℕ)
      → w.disk w.segment_id ≡ some f
      → IsHonest w
      → IsHonest (flush fault w).1
  flush-IsHonest fault w f file h =
      let (g, rest, m, q, emptied) = flush-Moved fault w f file in
      subst (λ (l : List Answer). All (IsStored frame_of (flush fault w).1.disk) l)
        (sym (ap (λ (v : Writer). v.sent) m.same))
        (AllStored-Extends frame_of w.disk (flush fault w).1.disk w.sent
          (Moved-Extends frame_of f g rest w (flush fault w).1 file m) h)

  fail_all_same :
      (e : AckError) (ack : Option ℕ) (w : Writer)
      → ((fail_all e ack w).disk ≡ w.disk) × ((fail_all e ack w).segment_id ≡ w.segment_id)
  unfolding fail_all fail_ack fail_pending_durable_acks
  fail_all_same e none w = (refl, refl)
  fail_all_same e (some a) w = (refl, refl)

  pub give_up-IsGood :
      (p : Pass) (reason : WriterFatalReason) (e : AckError) (ack : Option ℕ) (w : Writer)
      (f : List ℕ)
      → w.disk w.segment_id ≡ some f
      → IsHonest w
      → IsGood (give_up p reason e ack w)
  unfolding give_up
  give_up-IsGood p reason e ack w f file h =
      flush-IsHonest p.drop_flush (fail_all e ack w) f
        (rw (fail_all_same e ack w).1 (rw (fail_all_same e ack w).0 file))
        (fail_all-IsHonest e ack w h)

  -- A flush, with the account right and the buffer empty where it succeeds.
  pub flush-IsConsistent :
      (fault : Fault) (w : Writer) (f : List ℕ)
      → IsConsistent frame_of w f
      → (f' : List ℕ) × IsConsistent frame_of (flush fault w).1 f'
        × ((flush fault w).0 ≡ true → (flush fault w).1.buffer ≡ [])
  flush-IsConsistent fault w f c =
      let (g, rest, m, q, emptied) = flush-Moved fault w f c.file in
      (
        f ++ g,
        Moved-IsConsistent frame_of f g rest w (flush fault w).1 c m q,
        λ t. m.buffer ∙ emptied t,
      )

  clean-IsConsistent :
      (w : Writer) (f : List ℕ)
      → IsConsistent frame_of w f
      → w.buffer ≡ []
      → IsConsistent frame_of (publish (record w { dirty = false })) f
  unfolding publish store_head notify_waiters acknowledge_pending_durable_ok
  clean-IsConsistent w f c empty =
      let d = publish-IsConsistent frame_of w f c empty in
      record {
        file = d.file;
        counted = d.counted;
        fresh = d.fresh;
        published = d.published;
        clean = λ _. (empty, refl);
        waiting = d.waiting;
        answered = d.answered;
      }

  late-IsConsistent :
      (w : Writer) (f : List ℕ) (deadline : ℕ)
      → IsConsistent frame_of w f
      → IsConsistent frame_of (record w { flush_deadline = deadline }) f
  late-IsConsistent w f deadline c = record {
    file = c.file;
    counted = c.counted;
    fresh = c.fresh;
    published = c.published;
    clean = c.clean;
    waiting = c.waiting;
    answered = c.answered;
  }

  pending-publish : (w : Writer) → (publish w).pending ≡ []
  unfolding publish acknowledge_pending_durable_ok
  pending-publish w = refl

  pub flush_if_due-IsConsistent :
      (p : Pass) (w : Writer) (f : List ℕ)
      → IsConsistent frame_of w f
      → (f' : List ℕ) × IsConsistent frame_of (flush_if_due p w) f'
  unfolding flush_if_due
  flush_if_due-IsConsistent p w f c = elim (Bool-cases (w.dirty && leb w.flush_deadline p.now)) [
    | inr e ↦ rw e (f, c)
    | inl e ↦
        let (f', c', empty) = flush-IsConsistent p.periodic_flush w f c in
        elim (Bool-cases (flush p.periodic_flush w).0) [
          | inl t ↦ rw (e, t) (f', clean-IsConsistent _ f' c' (empty t))
          | inr t ↦ rw (e, t) (f', late-IsConsistent _ f' _ c')
        ]
  ]

  pub rotate-IsGood :
      (p : Pass) (n : ℕ) (ack : Option ℕ) (w : Writer) (f : List ℕ)
      → IsConsistent frame_of w f
      → IsGood (rotate p n ack w)
  unfolding rotate
  rotate-IsGood p n ack w f c = elim (Bool-cases (needs_rotation n w)) [
    | inr e ↦ rw e (f, c)
    | inl e ↦
        let (f', c', empty) = flush-IsConsistent p.rotation_flush w f c in
        elim (Bool-cases (flush p.rotation_flush w).0) [
          | inr t ↦ rw (e, t) (give_up-IsGood p _ _ ack _ f' c'.file c'.answered)
          | inl t ↦
              let c'' = publish-IsConsistent frame_of _ f' c' (empty t) in
              elim (Bool-cases p.opens) [
                | inl o ↦
                    rw (e, t, o)
                      ([], next_segment-IsConsistent frame_of _ f' c'' (pending-publish _))
                | inr o ↦ rw (e, t, o) (fail_all-IsHonest _ ack _ c''.answered)
              ]
        ]
  ]
