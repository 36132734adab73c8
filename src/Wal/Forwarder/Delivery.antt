-- ===== src/Wal/Forwarder/Delivery.antt =====
-- That a flush of the forwarder returns once the sink and the cursor have recovered.
use ingestion_service.Common.{
  ℕ, ◌≡◌, refl, ap, ◌∙◌, Option, some, List, [], ◌∷◌, ◌++◌, Bool, true, false, arith, All, map,
  append-nil,
}
use ingestion_service.Wal.Types.{WalOffset, WalEvent, WalEntry}
use ingestion_service.Wal.Forwarder.{
  Response, written, retryable, permanent, Effect, sink_write, commit, sleep, initial_backoff_ms,
  next_backoff, write_loop, commit_loop, highest, events_of, flush_commit, flush,
}
use ingestion_service.Wal.Forwarder.Order.{last, highest-last}

-- The writes to the sink among effects, each with its answer, and the commits.
abbrev pub writes : List Effect → List (List WalEvent × Response)
writes [] = []
writes (sink_write events r ∷ t) = (events, r) ∷ writes t
writes (_ ∷ t) = writes t

abbrev pub commits_tried : List Effect → List (WalOffset × Bool)
commits_tried [] = []
commits_tried (commit o ok ∷ t) = (o, ok) ∷ commits_tried t
commits_tried (_ ∷ t) = commits_tried t

abbrev pub IsFailure : Response → Type 0
IsFailure written = ⊥
IsFailure _ = Unit

writes-append : (s t : List Effect) → writes (s ++ t) ≡ writes s ++ writes t
writes-append [] t = refl
writes-append (sink_write events r ∷ s) t =
    ap (λ (l : List (List WalEvent × Response)). (events, r) ∷ l) (writes-append s t)
writes-append (commit o ok ∷ s) t = writes-append s t
writes-append (sleep b ∷ s) t = writes-append s t

commits_tried-append :
    (s t : List Effect) → commits_tried (s ++ t) ≡ commits_tried s ++ commits_tried t
commits_tried-append [] t = refl
commits_tried-append (sink_write events r ∷ s) t = commits_tried-append s t
commits_tried-append (commit o ok ∷ s) t =
    ap (λ (l : List (WalOffset × Bool)). (o, ok) ∷ l) (commits_tried-append s t)
commits_tried-append (sleep b ∷ s) t = commits_tried-append s t

write_loop_lem :
    (events : List WalEvent) (b : ℕ) (fs rs : List Response)
    → All IsFailure fs
    → ((write_loop events b (fs ++ (written ∷ rs))).1 ≡ some rs)
      × (writes (write_loop events b (fs ++ (written ∷ rs))).0
          ≡ map (λ r. (events, r)) (fs ++ (written ∷ [])))
      × (commits_tried (write_loop events b (fs ++ (written ∷ rs))).0 ≡ [])
unfolding write_loop
write_loop_lem events b [] rs h = (refl, refl, refl)
write_loop_lem events b (retryable ∷ fs) rs (h, hs) =
    let (p, q, r) = write_loop_lem events (next_backoff b) fs rs hs in
    (p, ap (λ (l : List (List WalEvent × Response)). (events, retryable) ∷ l) q, r)
write_loop_lem events b (permanent ∷ fs) rs (h, hs) =
    let (p, q, r) = write_loop_lem events (next_backoff b) fs rs hs in
    (p, ap (λ (l : List (List WalEvent × Response)). (events, permanent) ∷ l) q, r)
write_loop_lem events b (written ∷ fs) rs (h, hs) = absurd h

commit_loop_lem :
    (o : WalOffset) (b : ℕ) (fs cs : List Bool)
    → All (λ x. x ≡ false) fs
    → ((commit_loop o b (fs ++ (true ∷ cs))).1 ≡ some cs)
      × (commits_tried (commit_loop o b (fs ++ (true ∷ cs))).0
          ≡ map (λ x. (o, x)) (fs ++ (true ∷ [])))
      × (writes (commit_loop o b (fs ++ (true ∷ cs))).0 ≡ [])
unfolding commit_loop
commit_loop_lem o b [] cs h = (refl, refl, refl)
commit_loop_lem o b (false ∷ fs) cs (h, hs) =
    let (p, q, r) = commit_loop_lem o (next_backoff b) fs cs hs in
    (p, ap (λ (l : List (WalOffset × Bool)). (o, false) ∷ l) q, r)
commit_loop_lem o b (true ∷ fs) cs (h, hs) = cc

flush_commit-some :
    (i : ℕ) (o : WalOffset) (cs cs' : List Bool) (rs : List Response)
    (wl : List Effect × Option (List Response))
    → wl.1 ≡ some rs
    → (commit_loop o (initial_backoff_ms i) cs).1 ≡ some cs'
    → flush_commit i o cs wl ≡ (
      wl.0 ++ (commit_loop o (initial_backoff_ms i) cs).0,
      some (record { responses = rs; commits = cs' }),
    )
unfolding flush_commit
flush_commit-some i o cs cs' rs (w, left) h k = ground (arith, h, k)

-- A flush returns as soon as one write and, behind it, one commit have succeeded, after any number of
-- failures of each, permanent ones of the sink included. Its writes are then of the whole batch, once
-- for each failure of the sink and once more; and its commits are of the offset behind the last entry,
-- once for each failed commit and once more.
pub flush-returns :
    (i : ℕ) (e : WalEntry) (es : List WalEntry) (fs rs : List Response) (gs cs : List Bool)
    → All IsFailure fs
    → All (λ x. x ≡ false) gs
    → let out =
        flush i e es (record { responses = fs ++ (written ∷ rs); commits = gs ++ (true ∷ cs) }) in
      (out.1 ≡ some (record { responses = rs; commits = cs }))
      × (writes out.0 ≡ map (λ r. (events_of (e ∷ es), r)) (fs ++ (written ∷ [])))
      × (commits_tried out.0 ≡ map (λ x. ((last e es).offset_after, x)) (gs ++ (true ∷ [])))
unfolding flush
flush-returns i e es fs rs gs cs h k =
    let (p, q, r) = write_loop_lem (events_of (e ∷ es)) (initial_backoff_ms i) fs rs h in
    let (p', q', r') = commit_loop_lem (highest e es) (initial_backoff_ms i) gs cs k in
    let w = write_loop (events_of (e ∷ es)) (initial_backoff_ms i) (fs ++ (written ∷ rs)) in
    let c = commit_loop (highest e es) (initial_backoff_ms i) (gs ++ (true ∷ cs)) in
    let end = flush_commit-some i (highest e es) (gs ++ (true ∷ cs)) cs rs w p p' in
    (
      ap (λ x. x.1) end,
      ap (λ x. writes x.0) end
          ∙ writes-append w.0 c.0
          ∙ ap (λ l. writes w.0 ++ l) r'
          ∙ append-nil (writes w.0)
          ∙ q,
      ap (λ x. commits_tried x.0) end
          ∙ commits_tried-append w.0 c.0
          ∙ ap (λ l. l ++ commits_tried c.0) r
          ∙ q'
          ∙ ap (λ o. map (λ x. (o, x)) (gs ++ (true ∷ []))) (highest-last e es),
    )
