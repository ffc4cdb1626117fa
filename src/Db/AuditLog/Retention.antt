-- ===== src/Db/AuditLog/Retention.antt =====
-- How long the rows of `request_log` last: the purge of src/db/audit.rs and its daily task against the
-- times at which the rows were inserted. Times are seconds after 1970.
use mathlib.Core.List.{map-append, append_assoc, append-nil}
use jwt_exchange.Prelude.{
  ℕ, ◌-◌, ◌*◌, ◌≤◌, ◌<◌, String, ◌≡◌, refl, sym, ap, ◌∙◌, Bool, not, none, some, List, [], ◌∷◌,
  ◌++◌, map, keep, length, All, All-append, All-keep, arith, ltb, leb, Bool-cases, inl, inr,
}
use jwt_exchange.Prelude.Int.{pos}
use jwt_exchange.Result.{ok}
use jwt_exchange.Db.Replay.{Fault}
use jwt_exchange.Db.AuditLog.{
  AuditRecord, LogRow, Sqlite, insert_audit_log, modifier, delete_older, purge_old_logs, LogEvent,
  inserted, tick, run_purge_task,
}

-- The first second of the year 10000, which the dates of SQLite do not reach.
abbrev pub era : ℕ
era = 253402300800

-- A row that is about to be written, with its time.
pub record TimedRow : Type 0 where
  pub time : ℕ
  pub entry : AuditRecord

-- An event whose time is a number.
pub data Timed : Type 0 where
  came : Fault → TimedRow → Timed
  ticked : Fault → ℕ → Timed

-- The rows that an insertion without a fault has written.
abbrev pub arrivals : List Timed → List TimedRow
arrivals [] = []
arrivals (came none r ∷ rest) = r ∷ arrivals rest
arrivals (came (some e) r ∷ rest) = arrivals rest
arrivals (ticked f now ∷ rest) = arrivals rest

-- All times are in the era; those of the ticks are late enough for the retention, and no later than
-- an instant.
abbrev pub Timely : ℕ → ℕ → Timed → Type 0
Timely days until (came f r) = r.time < era
Timely days until (ticked f now) = (86400 * days ≤ now) × (now ≤ until)

keep-append {ℓ} :
    {A : Type ℓ} (p : A → Bool) (xs ys : List A) → keep p (xs ++ ys) ≡ keep p xs ++ keep p ys
keep-append p [] ys = refl
keep-append p (x ∷ xs) ys = elim (Bool-cases (p x)) [
  | inl yes' ↦ rw yes' (ap (λ l. x ∷ l) (keep-append p xs ys))
  | inr no' ↦ rw no' (keep-append p xs ys)
]

-- A weaker test before a stronger one changes nothing.
keep-keep :
    (late early : ℕ) (xs : List TimedRow)
    → early ≤ late
    → keep (λ r. leb late r.time) (keep (λ r. leb early r.time) xs) ≡ keep (λ r. leb late r.time) xs
keep-keep late early [] h = refl
keep-keep late early (x ∷ xs) h = ground (arith, keep-keep late early xs h)

module _ (S : Sqlite) (stamp : ℕ → String) where
  -- The rows with the texts of their times.
  abbrev pub stamped : List TimedRow → List LogRow
  stamped rows = map (λ r. record { timestamp = stamp r.time; entry = r.entry }) rows

  abbrev pub event : Timed → LogEvent S
  event (came f r) = inserted f (stamp r.time) r.entry
  event (ticked f now) = tick f (pos now)

  -- The texts of two times compare as the times do.
  abbrev pub Ordered : Type 0
  Ordered = (s t : ℕ) → s < era → t < era → S.less (stamp s) (stamp t) ≡ ltb s t

  -- The modifier of a retention goes back by that many days.
  abbrev pub GoesBack : ℕ → Type 0
  GoesBack days =
      (now : ℕ)
      → 86400 * days ≤ now
      → now < era
      → S.datetime (pos now) (some (modifier S (pos days))) ≡ some (stamp (now - 86400 * days))

  module _ (ordered : Ordered) where
    kept-stamped :
        (cut : ℕ) (rows : List TimedRow)
        → cut < era
        → All (λ r. r.time < era) rows
        → keep (λ r. not (S.less r.timestamp (stamp cut))) (stamped rows)
          ≡ stamped (keep (λ r. leb cut r.time) rows)
    kept-stamped cut [] c h = refl
    kept-stamped cut (r ∷ rows) c (p, h) =
        rw (ordered r.time cut p c) (ground (arith, kept-stamped cut rows c h))

    dropped-stamped :
        (cut : ℕ) (rows : List TimedRow)
        → cut < era
        → All (λ r. r.time < era) rows
        → length (keep (λ r. S.less r.timestamp (stamp cut)) (stamped rows))
          ≡ length (keep (λ r. ltb r.time cut) rows)
    dropped-stamped cut [] c h = refl
    dropped-stamped cut (r ∷ rows) c (p, h) =
        rw (ordered r.time cut p c) (ground (arith, dropped-stamped cut rows c h))

    module _ (days : ℕ) (back : GoesBack days) where
      -- A purge without a fault deletes exactly the rows that are older than the retention, and answers
      -- how many those are; the others stay, in their order.
      pub purge_old_logs_window :
          (now : ℕ) (rows : List TimedRow)
          → 86400 * days ≤ now
          → now < era
          → All (λ r. r.time < era) rows
          → purge_old_logs S none (pos now) (pos days) (stamped rows) ≡ (
            ok (length (keep (λ r. ltb r.time (now - 86400 * days)) rows)),
            stamped (keep (λ r. leb (now - 86400 * days) r.time) rows),
          )
      unfolding purge_old_logs delete_older
      purge_old_logs_window now rows late e h =
          rw
            (
              back now late e,
              dropped-stamped (now - 86400 * days) rows (omega arith) h,
              kept-stamped (now - 86400 * days) rows (omega arith) h,
            )
            refl

      -- What the rows are after an event.
      held : Timed → List TimedRow → List TimedRow
      held (came none r) rows = rows ++ (r ∷ [])
      held (came (some e) r) rows = rows
      held (ticked none now) rows = keep (λ r. leb (now - 86400 * days) r.time) rows
      held (ticked (some e) now) rows = rows

      run-held :
          (e : Timed) (rest : List Timed) (rows : List TimedRow) (until : ℕ)
          → until < era
          → Timely days until e
          → All (λ r. r.time < era) rows
          → run_purge_task S (pos days) (event e ∷ map event rest) (stamped rows)
            ≡ run_purge_task S (pos days) (map event rest) (stamped (held e rows))
      unfolding run_purge_task held insert_audit_log purge_old_logs
      run-held (came none r) rest rows until u t h =
          ap (run_purge_task S (pos days) (map event rest)) (
            sym (
              map-append (λ q. record { timestamp = stamp q.time; entry = q.entry }) rows (r ∷ [])))
      run-held (came (some e) r) rest rows until u t h = refl
      run-held (ticked none now) rest rows until u (late, early) h =
          ap (λ l. run_purge_task S (pos days) (map event rest) l.1)
            (purge_old_logs_window now rows late (omega arith) h)
      run-held (ticked (some e) now) rest rows until u t h = refl

      held-arrivals :
          (e : Timed) (rest : List Timed) (rows : List TimedRow) (until : ℕ)
          → Timely days until e
          → keep (λ r. leb (until - 86400 * days) r.time) (held e rows ++ arrivals rest)
            ≡ keep (λ r. leb (until - 86400 * days) r.time) (rows ++ arrivals (e ∷ rest))
      unfolding held
      held-arrivals (came none r) rest rows until t =
          ap (keep (λ q. leb (until - 86400 * days) q.time))
            (append_assoc rows (r ∷ []) (arrivals rest))
      held-arrivals (came (some e) r) rest rows until t = refl
      held-arrivals (ticked none now) rest rows until (late, early) =
          let cut = λ (q : TimedRow). leb (until - 86400 * days) q.time in
          let before = λ (q : TimedRow). leb (now - 86400 * days) q.time in
          keep-append cut (keep before rows) (arrivals rest)
          ∙ ap (λ l. l ++ keep cut (arrivals rest))
              (keep-keep (until - 86400 * days) (now - 86400 * days) rows (omega arith))
          ∙ sym (keep-append cut rows (arrivals rest))
      held-arrivals (ticked (some e) now) rest rows until t = refl

      held-era :
          (e : Timed) (rows : List TimedRow) (until : ℕ)
          → Timely days until e
          → All (λ r. r.time < era) rows
          → All (λ r. r.time < era) (held e rows)
      unfolding held
      held-era (came none r) rows until t h = All-append (λ r. r.time < era) rows (r ∷ []) h (t, tt)
      held-era (came (some e) r) rows until t h = h
      held-era (ticked none now) rows until t h =
          All-keep (λ r. r.time < era) (λ r. leb (now - 86400 * days) r.time) rows h
      held-era (ticked (some e) now) rows until t h = h

      -- However insertions and ticks of the daily task follow one another and whichever of them
      -- fail, after a tick that does not fail the table holds exactly the rows that were there or
      -- were inserted and are no older than the retention at that tick, in their order, if no earlier
      -- tick had a later clock.
      pub run_purge_task_window :
          (history : List Timed) (now : ℕ) (rows : List TimedRow)
          → 86400 * days ≤ now
          → now < era
          → All (Timely days now) history
          → All (λ r. r.time < era) rows
          → run_purge_task S
              (pos days)
              (map event (history ++ (ticked none now ∷ [])))
              (stamped rows)
            ≡ stamped (keep (λ r. leb (now - 86400 * days) r.time) (rows ++ arrivals history))
      unfolding run_purge_task
      run_purge_task_window [] now rows late e t h =
          ap (λ l. l.1) (purge_old_logs_window now rows late e h)
          ∙ ap (λ l. stamped (keep (λ r. leb (now - 86400 * days) r.time) l))
              (sym (append-nil rows))
      run_purge_task_window (x ∷ history) now rows late e (t, ts) h =
          run-held x (history ++ (ticked none now ∷ [])) rows now e t h
          ∙ run_purge_task_window history now (held x rows) late e ts (held-era x rows now t h)
          ∙ ap stamped (held-arrivals x history rows now t)
