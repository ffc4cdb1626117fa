-- ===== src/Logging/Splunk/Batches.antt =====
-- What the exporter's loop does with the events that it receives.
use mathlib.Core.Path.{subst}
use mathlib.Core.List.{append_assoc, append-nil}
use jwt_exchange.Prelude.{
  ◌≤◌, ◌<◌, ◌≡◌, refl, sym, ap, ◌∙◌, true, false, List, [], ◌∷◌, ◌++◌, arith, length, is_empty,
  length-append, Bool-cases, leb, inl, inr, All, if◌then◌else◌,
}
use jwt_exchange.Logging.Splunk.{
  SplunkEvent, Signal, received, ticked, closed, Exporter, flush, turn, run_exporter, batch_size,
}

-- The batches that were handed over, the first first, in one list.
abbrev pub handed : List (List SplunkEvent) → List SplunkEvent
handed [] = []
handed (b ∷ bs) = handed bs ++ b

-- All that the exporter has received and not lost: what it has handed over, and its batch.
abbrev pub kept : Exporter → List SplunkEvent
kept x = handed x.flushed ++ x.batch

-- The events of signals, up to the end of the channel.
unfoldable pub events_of : List Signal → List SplunkEvent
events_of [] = []
events_of (received e ∷ signals) = e ∷ events_of signals
events_of (ticked ∷ signals) = events_of signals
events_of (closed ∷ signals) = []

-- The batch is below its size; no batch was empty or above it; and the batch is empty at the end.
pub record IsValid (x : Exporter) : Type 0 where
  pub below : length x.batch < batch_size
  pub sizes : All (λ b. (1 ≤ length b) × (length b ≤ batch_size)) x.flushed
  pub ended : x.running ≡ false → x.batch ≡ []

flush-kept : (x : Exporter) → kept (flush x) ≡ kept x
unfolding flush
flush-kept x = append-nil (handed x.flushed ++ x.batch)

turn-kept : (s : Signal) (x : Exporter) → kept (turn s x) ≡ kept x ++ events_of (s ∷ [])
unfolding turn events_of
turn-kept (received e) x =
    let y = record x { batch = x.batch ++ (e ∷ []) } in
    let joined : kept y ≡ kept x ++ (e ∷ []) =
      sym (append_assoc (handed x.flushed) x.batch (e ∷ [])) in
    elim (Bool-cases (leb batch_size (length y.batch))) [
      | inl full ↦ rw (full, turn) (flush-kept y ∙ joined)
      | inr short ↦ rw (short, turn) joined
    ]
turn-kept ticked x = elim (Bool-cases (is_empty x.batch)) [
  | inl e ↦ rw (e, turn) (sym (append-nil (kept x)))
  | inr e ↦ rw (e, turn) (flush-kept x ∙ sym (append-nil (kept x)))
]
turn-kept closed x = elim (Bool-cases (is_empty x.batch)) [
  | inl e ↦ rw (e, turn) (sym (append-nil (kept x)))
  | inr e ↦ rw (e, turn) (flush-kept x ∙ sym (append-nil (kept x)))
]

run_exporter-cons :
    (s : Signal) (signals : List Signal) (x : Exporter)
    → x.running ≡ true
    → run_exporter (s ∷ signals) x ≡ run_exporter signals (turn s x)
unfolding run_exporter
run_exporter-cons s signals x h = ap (λ b. if b then run_exporter signals (turn s x) else x) h

run_exporter_stopped :
    (signals : List Signal) (x : Exporter) → x.running ≡ false → run_exporter signals x ≡ x
unfolding run_exporter
run_exporter_stopped [] x h = refl
run_exporter_stopped (s ∷ signals) x h =
    ap (λ b. if b then run_exporter signals (turn s x) else x) h

turn-running :
    (s : Signal) (x : Exporter)
    → (turn s x).running ≡ elim s [ received e ↦ x.running | ticked ↦ x.running | closed ↦ false ]
unfolding turn
turn-running (received e) x = elim (Bool-cases (leb batch_size (length (x.batch ++ (e ∷ []))))) [
  | inl full ↦ rw (full, turn, flush) refl
  | inr short ↦ rw (short, turn) refl
]
turn-running ticked x = elim (Bool-cases (is_empty x.batch)) [
  | inl e ↦ rw (e, turn) refl
  | inr e ↦ rw (e, turn, flush) refl
]
turn-running closed x = refl

-- Every event that comes before the end of the channel is handed over or still in the batch, once
-- and in the order in which the events came, and nothing else is.
pub run_exporter-kept :
    (signals : List Signal) (x : Exporter)
    → x.running ≡ true
    → kept (run_exporter signals x) ≡ kept x ++ events_of signals
unfolding events_of
run_exporter-kept [] x h = unfold run_exporter in sym (append-nil (kept x))
run_exporter-kept (received e ∷ signals) x h =
    ap kept (run_exporter-cons (received e) signals x h)
    ∙ run_exporter-kept signals (turn (received e) x) (turn-running (received e) x ∙ h)
    ∙ ap (λ es. es ++ events_of signals) (turn-kept (received e) x)
    ∙ append_assoc (kept x) (e ∷ []) (events_of signals)
run_exporter-kept (ticked ∷ signals) x h =
    ap kept (run_exporter-cons ticked signals x h)
    ∙ run_exporter-kept signals (turn ticked x) (turn-running ticked x ∙ h)
    ∙ ap (λ es. es ++ events_of signals) (turn-kept ticked x ∙ append-nil (kept x))
run_exporter-kept (closed ∷ signals) x h =
    ap kept (
      run_exporter-cons closed signals x h
      ∙ run_exporter_stopped signals (turn closed x) (turn-running closed x))
    ∙ turn-kept closed x

nonempty-length : (b : List SplunkEvent) → is_empty b ≡ false → 1 ≤ length b
nonempty-length [] h = cc
nonempty-length (e ∷ b) h = omega arith

is_empty-nil : (b : List SplunkEvent) → is_empty b ≡ true → b ≡ []
is_empty-nil [] h = refl
is_empty-nil (e ∷ b) h = cc

flush-IsValid : (x : Exporter) → is_empty x.batch ≡ false → IsValid x → IsValid (flush x)
unfolding flush
flush-IsValid x h v = record {
  below = omega arith;
  sizes = ((nonempty-length x.batch h, let k = v.below in omega arith), v.sizes);
  ended = λ _. refl;
}

-- The exporter that stops with an empty batch.
stopped-IsValid : (x : Exporter) → x.batch ≡ [] → IsValid x → IsValid (record x { running = false })
stopped-IsValid x h v = record { below = v.below; sizes = v.sizes; ended = λ _. h }

turn-IsValid : (s : Signal) (x : Exporter) → x.running ≡ true → IsValid x → IsValid (turn s x)
unfolding turn flush
turn-IsValid (received e) x on v =
    elim (Bool-cases (leb batch_size (length (x.batch ++ (e ∷ []))))) [
      | inl full ↦
          rw (full, turn)
            (record {
              below = omega arith;
              sizes = (grow, v.sizes);
              ended = λ off. absurd (ground arith);
            })
      | inr short ↦
          rw (short, turn)
            (record { below = ground arith; sizes = v.sizes; ended = λ off. absurd (ground arith) })
    ]
  where
    grow : (1 ≤ length (x.batch ++ (e ∷ []))) × (length (x.batch ++ (e ∷ [])) ≤ batch_size)
    grow = let h = v.below in rw (length-append x.batch (e ∷ [])) (omega arith, omega arith)
turn-IsValid ticked x on v = elim (Bool-cases (is_empty x.batch)) [
  | inl e ↦ rw (e, turn) v
  | inr e ↦ rw (e, turn) (flush-IsValid x e v)
]
turn-IsValid closed x on v = elim (Bool-cases (is_empty x.batch)) [
  | inl e ↦ rw (e, turn) (stopped-IsValid x (is_empty-nil x.batch e) v)
  | inr e ↦ rw (e, turn) (stopped-IsValid (flush x) refl (flush-IsValid x e v))
]

-- From a valid exporter, whatever signals come, the batch stays below fifty events, every batch that
-- is handed over holds between one and fifty, and once the channel has ended nothing is left behind.
pub run_exporter-IsValid :
    (signals : List Signal) (x : Exporter) → IsValid x → IsValid (run_exporter signals x)
run_exporter-IsValid [] x v = unfold run_exporter in v
run_exporter-IsValid (s ∷ signals) x v = elim (Bool-cases x.running) [
  | inl on ↦
      subst IsValid (sym (run_exporter-cons s signals x on))
        (run_exporter-IsValid signals (turn s x) (turn-IsValid s x on v))
  | inr off ↦ subst IsValid (sym (run_exporter_stopped (s ∷ signals) x off)) v
]
