-- ===== src/Sink/Influx/Body.antt =====
-- The body of a batch, line by line.
use ingestion_service.Common.{
  ℕ, ◌+◌, ◌≡◌, ◌≢◌, refl, sym, ap, ◌∙◌, false, List, [], ◌∷◌, ◌++◌, map, ◌==◌, if◌then◌else◌, arith,
  append-nil, append_assoc, All,
}
use ingestion_service.Wal.Types.{WalEvent}
use ingestion_service.Model.Messages.{Str}
use ingestion_service.Model.Topic.{cons_part}
use ingestion_service.Sink.Influx.{newline, is_empty, add_lines, build_body}

-- The parts between the newlines.
unfoldable pub lines : Str → List Str
lines [] = [] ∷ []
lines (c ∷ cs) = if c == newline then [] ∷ lines cs else cons_part c (lines cs)

abbrev pub newlines : Str → ℕ
newlines [] = 0
newlines (c ∷ cs) = (if c == newline then 1 else 0) + newlines cs

-- What is one line by itself.
abbrev pub IsLine : Str → Type 0
IsLine s = (newlines s ≡ 0) × (s ≢ [])

lines-one : (p : Str) → newlines p ≡ 0 → lines p ≡ p ∷ []
unfolding lines cons_part
lines-one [] h = refl
lines-one (c ∷ p) h = ground (arith, lines-one p (ground arith))

lines-next : (p r : Str) → newlines p ≡ 0 → lines (p ++ (newline ∷ r)) ≡ p ∷ lines r
unfolding lines cons_part
lines-next [] r h = refl
lines-next (c ∷ p) r h = ground (arith, lines-next p r (ground arith))

-- The events behind the first.
abbrev later : List WalEvent → Str
later [] = []
later (e ∷ es) = newline ∷ (e.payload ++ later es)

is_empty-append : (s t : Str) → is_empty s ≡ false → is_empty (s ++ t) ≡ false
is_empty-append [] t h = cc h
is_empty-append (c ∷ s) t h = refl

add_lines-later :
    (es : List WalEvent) (body : Str) → is_empty body ≡ false → add_lines es body ≡ body ++ later es
unfolding add_lines
add_lines-later [] body h = sym (append-nil body)
add_lines-later (e ∷ es) body h =
    let whole = (body ++ (newline ∷ [])) ++ e.payload in
    let longer : is_empty whole ≡ false =
      is_empty-append (body ++ (newline ∷ [])) e.payload (is_empty-append body (newline ∷ []) h) in
    ap (λ b. add_lines es ((if b then body else body ++ (newline ∷ [])) ++ e.payload)) h
    ∙ add_lines-later es whole longer
    ∙ append_assoc (body ++ (newline ∷ [])) e.payload (later es)
    ∙ append_assoc body (newline ∷ []) (e.payload ++ later es)

lines-later :
    (p : Str) (es : List WalEvent)
    → newlines p ≡ 0
    → All (λ (e : WalEvent). IsLine e.payload) es
    → lines (p ++ later es) ≡ p ∷ map (λ (e : WalEvent). e.payload) es
lines-later p [] h k = ap lines (append-nil p) ∙ lines-one p h
lines-later p (e ∷ es) h (k, ks) =
    lines-next p (e.payload ++ later es) h ∙ ap (λ ls. p ∷ ls) (lines-later e.payload es k.0 ks)

is_empty-IsLine : (s : Str) → IsLine s → is_empty s ≡ false
is_empty-IsLine [] (h, n) = absurd (n refl)
is_empty-IsLine (c ∷ s) h = refl

-- The lines of the body of a batch are the payloads of its events in their order, none split and none
-- joined, where each payload is one line and not empty.
pub build_body-lines :
    (e : WalEvent) (es : List WalEvent)
    → All (λ (v : WalEvent). IsLine v.payload) (e ∷ es)
    → lines (build_body (e ∷ es)) ≡ map (λ (v : WalEvent). v.payload) (e ∷ es)
unfolding build_body add_lines
build_body-lines e es (h, hs) =
    ap lines (add_lines-later es e.payload (is_empty-IsLine e.payload h))
    ∙ lines-later e.payload es h.0 hs
