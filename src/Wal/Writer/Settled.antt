-- ===== src/Wal/Writer/Settled.antt =====
-- That no append is left waiting when the writer thread ends.
use ingestion_service.Common.{
  ℕ, ◌≡◌, ◌≢◌, refl, ap, ◌∙◌, Option, none, some, List, [], ◌∷◌, Result, ok, err, Bool-cases, ◌⊎◌,
  inl, inr, arith,
}
use ingestion_service.Wal.Types.{AckError, WalError}
use ingestion_service.Wal.Codec.{Bincode, encode_into}
use ingestion_service.Wal.Writer.{Writer, Fault, WriterFatalReason}
use ingestion_service.Wal.Writer.BufWriter
use ingestion_service.Wal.Writer.BufWriter.{flush, append}
use ingestion_service.Wal.Writer.Turn.{
  Pass, Flow, running, stopped, fatal, Received, request, timeout, disconnected,
  fail_pending_durable_acks, fail_all, give_up, needs_rotation, rotate, write_record, then_write,
  handle_encoded, receive, pass, flush_if_due, acknowledge_pending_durable_ok, notify_waiters,
}
use ingestion_service.Wal.Writer.Loop.{shutdown, writer_loop}

-- Where a pass ends the thread at once, nobody waits.
abbrev pub IsSettled : Flow × Writer → Type 0
IsSettled (running, w) = Unit
IsSettled (stopped, w) = Unit
IsSettled (fatal reason, w) = w.pending ≡ []

flush-pending : (fault : Fault) (w : Writer) → (flush fault w).1.pending ≡ w.pending
unfolding flush append
flush-pending none w = refl
flush-pending (some k) w = ground arith

fail_all-pending : (e : AckError) (ack : Option ℕ) (w : Writer) → (fail_all e ack w).pending ≡ []
unfolding fail_all fail_pending_durable_acks
fail_all-pending e ack w = refl

give_up-IsSettled :
    (p : Pass) (reason : WriterFatalReason) (e : AckError) (ack : Option ℕ) (w : Writer)
    → IsSettled (give_up p reason e ack w)
unfolding give_up
give_up-IsSettled p reason e ack w =
    flush-pending p.drop_flush (fail_all e ack w) ∙ fail_all-pending e ack w

rotate-IsSettled : (p : Pass) (n : ℕ) (ack : Option ℕ) (w : Writer) → IsSettled (rotate p n ack w)
unfolding rotate
rotate-IsSettled p n ack w = elim (Bool-cases (needs_rotation n w)) [
  | inr e ↦ rw e tt
  | inl e ↦ elim (Bool-cases (flush p.rotation_flush w).0) [
    | inr t ↦ rw (e, t) (give_up-IsSettled p _ _ ack _)
    | inl t ↦ elim (Bool-cases p.opens) [
      | inl o ↦ rw (e, t, o) tt
      | inr o ↦ rw (e, t, o) (fail_all-pending _ ack _)
    ]
  ]
]

write_record-IsSettled :
    (p : Pass) (bytes : List ℕ) (ack : Option ℕ) (w : Writer)
    → IsSettled (write_record p bytes ack w)
unfolding write_record
write_record-IsSettled p bytes ack w =
    elim (Bool-cases (BufWriter.write_all p.write_flush p.write_direct bytes w).0) [
      | inl t ↦ rw t tt
      | inr t ↦ rw t (give_up-IsSettled p _ _ ack _)
    ]

then_write-IsSettled :
    (p : Pass) (bytes : List ℕ) (ack : Option ℕ) (r : Flow × Writer)
    → IsSettled r
    → IsSettled (then_write p bytes ack r)
unfolding then_write
then_write-IsSettled p bytes ack (running, w) h = write_record-IsSettled p bytes ack w
then_write-IsSettled p bytes ack (stopped, w) h = h
then_write-IsSettled p bytes ack (fatal reason, w) h = h

handle_encoded-IsSettled :
    (p : Pass) (r : Result WalError (List ℕ)) (ack : Option ℕ) (w : Writer)
    → IsSettled (handle_encoded p r ack w)
unfolding handle_encoded
handle_encoded-IsSettled p (ok bytes) ack w =
    then_write-IsSettled p bytes ack _ (rotate-IsSettled p _ ack w)
handle_encoded-IsSettled p (err e) ack w = tt

receive-IsSettled :
    (bc : Bincode) (p : Pass) (r : Received) (w : Writer) → IsSettled (receive bc p r w)
unfolding receive
receive-IsSettled bc p (request r) w =
    handle_encoded-IsSettled p (encode_into bc r.event) r.durable_ack w
receive-IsSettled bc p timeout w = tt
receive-IsSettled bc p disconnected w = tt

shutdown-pending :
    (final_flush drop_flush : Fault) (w : Writer) → (shutdown final_flush drop_flush w).pending ≡ []
unfolding shutdown notify_waiters acknowledge_pending_durable_ok fail_pending_durable_acks
shutdown-pending final_flush drop_flush w = elim (Bool-cases (flush final_flush w).0) [
  | inl t ↦ rw t refl
  | inr t ↦ rw t (flush-pending drop_flush _)
]

pass-IsSettled : (bc : Bincode) (p : Pass) (w : Writer) → IsSettled (pass bc p w)
unfolding pass
pass-IsSettled bc p w = receive-IsSettled bc p p.received (flush_if_due p w)

Flow-cases :
    (x : Flow)
    → (x ≡ running) ⊎ ((x ≡ stopped) ⊎ ((reason : WriterFatalReason) × (x ≡ fatal reason)))
Flow-cases running = inl refl
Flow-cases stopped = inr (inl refl)
Flow-cases (fatal reason) = inr (inr (reason, refl))

fatal-pending :
    (reason : WriterFatalReason) (x : Flow × Writer)
    → x.0 ≡ fatal reason
    → IsSettled x
    → x.1.pending ≡ []
fatal-pending reason (running, w) e h = cc
fatal-pending reason (stopped, w) e h = cc
fatal-pending reason (fatal other, w) e h = h

-- When the writer thread has ended, by the closed channel or by an error, its list of appends that
-- wait for an answer is empty, however its file operations end.
pub writer_loop-pending :
    (bc : Bincode) (final_flush drop_flush : Fault) (ps : List Pass) (w : Writer)
    → (writer_loop bc final_flush drop_flush ps w).0 ≢ running
    → (writer_loop bc final_flush drop_flush ps w).1.pending ≡ []
unfolding writer_loop
writer_loop-pending bc final_flush drop_flush [] w ended = absurd (ended refl)
writer_loop-pending bc final_flush drop_flush (p ∷ ps) w ended = elim (Flow-cases (pass bc p w).0) [
  | inl e ↦
      let on : writer_loop bc final_flush drop_flush (p ∷ ps) w
          ≡ writer_loop bc final_flush drop_flush ps (pass bc p w).1 =
        ground (arith, e) in
      ap (λ (x : Flow × Writer). x.1.pending) on
      ∙ writer_loop-pending bc final_flush drop_flush ps (pass bc p w).1
          (λ h. ended (ap (λ (x : Flow × Writer). x.0) on ∙ h))
  | inr (inl e) ↦
      let on : writer_loop bc final_flush drop_flush (p ∷ ps) w
          ≡ (stopped, shutdown final_flush drop_flush (pass bc p w).1) =
        ground (arith, e) in
      ap (λ (x : Flow × Writer). x.1.pending) on
      ∙ shutdown-pending final_flush drop_flush (pass bc p w).1
  | inr (inr (reason, e)) ↦
      let on : writer_loop bc final_flush drop_flush (p ∷ ps) w ≡ (fatal reason, (pass bc p w).1) =
        ground (arith, e) in
      ap (λ (x : Flow × Writer). x.1.pending) on
      ∙ fatal-pending reason (pass bc p w) e (pass-IsSettled bc p w)
]
