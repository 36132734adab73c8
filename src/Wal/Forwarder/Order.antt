-- ===== src/Wal/Forwarder/Order.antt =====
-- In which order the forwarder writes and commits.
use ingestion_service.Common.{
  ℕ, ◌≤◌, ◌≡◌, refl, sym, Option, none, some, List, [], ◌∷◌, ◌++◌, Bool, true, false, length, leb,
  arith, Bool-cases, inl, inr, append-nil, append_assoc, subst,
}
use ingestion_service.Wal.Types.{WalOffset, WalEntry}
use ingestion_service.Wal.Forwarder.{
  Response, written, retryable, permanent, Effect, sink_write, commit, sleep, initial_backoff_ms,
  next_backoff, write_loop, commit_loop, World, highest, events_of, flush_commit, flush, Input,
  tick, arrived, closed, Progress, returned, then_run, flush_then, run_forwarder,
  retry_backoff_cap_ms,
}

-- The entries that a run is given, in order, up to the end of the log.
abbrev pub entries : List Input → List WalEntry
entries [] = []
entries (tick ∷ xs) = entries xs
entries (arrived e ∷ xs) = e ∷ entries xs
entries (closed ∷ xs) = []

abbrev pub IsBackoff : ℕ → Type 0
IsBackoff b = (1 ≤ b) × (b ≤ retry_backoff_cap_ms)

abbrev pub last : WalEntry → List WalEntry → WalEntry
last e [] = e
last e (e' ∷ es) = last e' es

pub highest-last : (e : WalEntry) (es : List WalEntry) → highest e es ≡ (last e es).offset_after
unfolding highest
highest-last e [] = refl
highest-last e (e' ∷ es) = highest-last e' es

-- A batch is the one that the sink has refused, if there is one.
abbrev pub IsHeld : Option (List WalEntry) → List WalEntry → Type 0
IsHeld none batch = Unit {0}
IsHeld (some held) batch = batch ≡ held

-- A write takes the next entries, none left out; behind a write that failed comes no commit, and no
-- write but one of the same batch, which is held until one succeeds; a commit is of the offset behind
-- what the sink has stored last; and a sleep is short.
abbrev pub InOrder :
    List WalEntry → Option (List WalEntry) → Option WalOffset → List Effect → Type 0
InOrder pending held stored [] = Unit
InOrder pending held stored (sleep b ∷ t) = IsBackoff b × InOrder pending held stored t
InOrder pending held stored (commit o ok ∷ t) =
    (held ≡ none) × (stored ≡ some o) × InOrder pending held stored t
InOrder pending held stored (sink_write events written ∷ t) =
    (e : WalEntry) × (es rest : List WalEntry) × (pending ≡ (e ∷ es) ++ rest)
    × (events ≡ events_of (e ∷ es))
    × IsHeld held (e ∷ es)
    × InOrder rest none (some (last e es).offset_after) t
InOrder pending held stored (sink_write events _ ∷ t) =
    (e : WalEntry) × (es rest : List WalEntry) × (pending ≡ (e ∷ es) ++ rest)
    × (events ≡ events_of (e ∷ es))
    × IsHeld held (e ∷ es)
    × InOrder pending (some (e ∷ es)) stored t

initial_backoff_ms-IsBackoff : (i : ℕ) → IsBackoff (initial_backoff_ms i)
unfolding initial_backoff_ms
initial_backoff_ms-IsBackoff i = (omega arith, omega arith)

next_backoff-IsBackoff : (b : ℕ) → IsBackoff b → IsBackoff (next_backoff b)
unfolding next_backoff
next_backoff-IsBackoff b (h, k) = (omega arith, omega arith)

-- Effects that are in order from here on whatever follows, where that is in order behind them.
commit_loop-InOrder :
    (pending : List WalEntry) (o : WalOffset) (b : ℕ) (cs : List Bool) (t : List Effect)
    → IsBackoff b
    → InOrder pending none (some o) t
    → InOrder pending none (some o) ((commit_loop o b cs).0 ++ t)
unfolding commit_loop
commit_loop-InOrder pending o b [] t h rest = rest
commit_loop-InOrder pending o b (true ∷ cs) t h rest = (refl, refl, rest)
commit_loop-InOrder pending o b (false ∷ cs) t h rest = (
  refl,
  refl,
  (h, commit_loop-InOrder pending o (next_backoff b) cs t (next_backoff-IsBackoff b h) rest),
)

-- A write loop that has ended.
write_loop-ended :
    (e : WalEntry) (es rest : List WalEntry) (held : Option (List WalEntry))
    (stored : Option WalOffset) (b : ℕ) (rs left : List Response) (t : List Effect)
    → IsBackoff b
    → IsHeld held (e ∷ es)
    → (write_loop (events_of (e ∷ es)) b rs).1 ≡ some left
    → InOrder rest none (some (last e es).offset_after) t
    → InOrder ((e ∷ es) ++ rest) held stored ((write_loop (events_of (e ∷ es)) b rs).0 ++ t)
unfolding write_loop
write_loop-ended e es rest held stored b [] left t h q r k = cc
write_loop-ended e es rest held stored b (written ∷ rs) left t h q r k =
    (e, es, rest, refl, refl, q, k)
write_loop-ended e es rest held stored b (retryable ∷ rs) left t h q r k = (
  e,
  es,
  rest,
  refl,
  refl,
  q,
  (
    h,
    write_loop-ended e es rest (some (e ∷ es)) stored (next_backoff b) rs left t
        (next_backoff-IsBackoff b h) refl r k,
  ),
)
write_loop-ended e es rest held stored b (permanent ∷ rs) left t h q r k = (
  e,
  es,
  rest,
  refl,
  refl,
  q,
  (
    h,
    write_loop-ended e es rest (some (e ∷ es)) stored (next_backoff b) rs left t
        (next_backoff-IsBackoff b h) refl r k,
  ),
)

write_loop-open :
    (e : WalEntry) (es rest : List WalEntry) (held : Option (List WalEntry))
    (stored : Option WalOffset) (b : ℕ) (rs : List Response)
    → IsBackoff b
    → IsHeld held (e ∷ es)
    → (write_loop (events_of (e ∷ es)) b rs).1 ≡ none
    → InOrder ((e ∷ es) ++ rest) held stored (write_loop (events_of (e ∷ es)) b rs).0
unfolding write_loop
write_loop-open e es rest held stored b [] h q r = tt
write_loop-open e es rest held stored b (written ∷ rs) h q r = cc
write_loop-open e es rest held stored b (retryable ∷ rs) h q r = (
  e,
  es,
  rest,
  refl,
  refl,
  q,
  (
    h,
    write_loop-open e es rest (some (e ∷ es)) stored (next_backoff b) rs
        (next_backoff-IsBackoff b h) refl r,
  ),
)
write_loop-open e es rest held stored b (permanent ∷ rs) h q r = (
  e,
  es,
  rest,
  refl,
  refl,
  q,
  (
    h,
    write_loop-open e es rest (some (e ∷ es)) stored (next_backoff b) rs
        (next_backoff-IsBackoff b h) refl r,
  ),
)

-- A flush followed by a run that is in order for every world, from the parts of the flush.
module _ (pending rest : List WalEntry) (stored : Option WalOffset) (o : WalOffset)
    (next : World → List Effect × Progress)
    (continues : (w : World) → InOrder rest none (some o) (next w).0) where
  commits-InOrder :
      (wl : List Effect) (rs : List Response) (c : List Effect × Option (List Bool))
      → ((t : List Effect) → InOrder rest none (some o) t → InOrder pending none stored (wl ++ t))
      → ((t : List Effect) → InOrder rest none (some o) t → InOrder rest none (some o) (c.0 ++ t))
      → InOrder pending none stored
          (then_run
            (
              wl ++ c.0,
              elim c.1 [ none ↦ none | some cs ↦ some (record { responses = rs; commits = cs }) ],
            )
            next).0
  unfolding then_run
  commits-InOrder wl rs (cl, none) before between =
      before cl (subst (λ t. InOrder rest none (some o) t) (append-nil cl) (between [] tt))
  commits-InOrder wl rs (cl, some cs) before between =
      let w : World = record { responses = rs; commits = cs } in
      subst (λ t. InOrder pending none stored t) (sym (append_assoc wl cl (next w).0))
        (before (cl ++ (next w).0) (between (next w).0 (continues w)))

  flush_commit-InOrder :
      (i : ℕ) (cs : List Bool) (wl : List Effect × Option (List Response))
      → ((left : List Response) (t : List Effect)
          → wl.1 ≡ some left
          → InOrder rest none (some o) t
          → InOrder pending none stored (wl.0 ++ t))
      → (wl.1 ≡ none → InOrder pending none stored wl.0)
      → InOrder pending none stored (then_run (flush_commit i o cs wl) next).0
  unfolding flush_commit then_run
  flush_commit-InOrder i cs (wl, none) ended open_ = open_ refl
  flush_commit-InOrder i cs (wl, some rs) ended open_ =
      commits-InOrder wl rs (commit_loop o (initial_backoff_ms i) cs) (λ t. ended rs t refl)
        (λ t.
          commit_loop-InOrder rest o (initial_backoff_ms i) cs t (initial_backoff_ms-IsBackoff i))

flush-InOrder :
    (i : ℕ) (e : WalEntry) (es rest : List WalEntry) (stored : Option WalOffset) (w : World)
    (next : World → List Effect × Progress)
    → ((w' : World) → InOrder rest none (some (last e es).offset_after) (next w').0)
    → InOrder ((e ∷ es) ++ rest) none stored (then_run (flush i e es w) next).0
unfolding flush
flush-InOrder i e es rest stored w next k =
    let b = initial_backoff_ms i in
    let fits = initial_backoff_ms-IsBackoff i in
    let wl = write_loop (events_of (e ∷ es)) b w.responses in
    subst
      (λ o.
        InOrder ((e ∷ es) ++ rest) none stored (then_run (flush_commit i o w.commits wl) next).0)
      (sym (highest-last e es))
      (flush_commit-InOrder ((e ∷ es) ++ rest) rest stored (last e es).offset_after next k i
        w.commits wl (λ left t. write_loop-ended e es rest none stored b w.responses left t fits tt)
        (write_loop-open e es rest none stored b w.responses fits tt))

flush_then-InOrder :
    (i : ℕ) (batch rest : List WalEntry) (stored : Option WalOffset) (w : World)
    (next : World → List Effect × Progress)
    → ((o : Option WalOffset) (w' : World) → InOrder rest none o (next w').0)
    → InOrder (batch ++ rest) none stored (flush_then i batch w next).0
unfolding flush_then
flush_then-InOrder i [] rest stored w next k = k stored w
flush_then-InOrder i (e ∷ es) rest stored w next k =
    flush-InOrder i e es rest stored w next (k (some (last e es).offset_after))

-- Whatever the sink and the cursor answer, and whatever arrives: the writes to the sink carry the
-- entries in the log's order, none left out and none repeated once it is stored; behind a write that
-- failed, permanently or not, the next write is of the same batch, and no commit comes before one of
-- them has succeeded; every commit is of the offset behind the last entry that is stored; and every
-- sleep is from 1 to 5000 milliseconds long.
pub run_forwarder-InOrder :
    (batch_size interval_ms : ℕ) (batch : List WalEntry) (stored : Option WalOffset) (w : World)
    (xs : List Input)
    → InOrder (batch ++ entries xs) none stored (run_forwarder batch_size interval_ms batch w xs).0
unfolding run_forwarder
run_forwarder-InOrder n i batch stored w [] = tt
run_forwarder-InOrder n i batch stored w (tick ∷ xs) =
    flush_then-InOrder i batch (entries xs) stored w (λ w'. run_forwarder n i [] w' xs)
      (λ o w'. run_forwarder-InOrder n i [] o w' xs)
run_forwarder-InOrder n i batch stored w (arrived e ∷ xs) =
    let batch' = batch ++ (e ∷ []) in
    subst (λ p. InOrder p none stored (run_forwarder n i batch w (arrived e ∷ xs)).0)
      (append_assoc batch (e ∷ []) (entries xs))
      (elim (Bool-cases (leb n (length batch'))) [
        | inl t ↦ rw t (
            flush_then-InOrder i batch' (entries xs) stored w (λ w'. run_forwarder n i [] w' xs)
              (λ o w'. run_forwarder-InOrder n i [] o w' xs))
        | inr t ↦ rw t (run_forwarder-InOrder n i batch' stored w xs)
      ])
run_forwarder-InOrder n i batch stored w (closed ∷ xs) =
    flush_then-InOrder i batch [] stored w (λ w'. ([], returned)) (λ o w'. tt)
