-- ===== src/Db/Replay/Growth.antt =====
-- The hourly purge of `used_jti` (src/db/audit.rs, `start_jti_purge_task`) among the calls of the
-- exchanges: what bounds the table.
use mathlib.Core.Path.{subst}
use jwt_exchange.Prelude.{
  ℕ, String, ◌≡◌, refl, sym, true, false, not, none, some, List, [], ◌∷◌, ◌++◌, keep, All,
  Bool-cases, All-keep, arith, ◌⊎◌, inl, inr,
}
use jwt_exchange.Prelude.Int.{ℤ, ◌≤ℤ◌, ltb_ℤ}
use jwt_exchange.Db.Replay.{Row, Table, check_and_record_jti, purge_expired_jtis, groups_int}
use jwt_exchange.Db.Replay.Spec.{Written, replay_write-table, strict-table}
use jwt_exchange.Db.Replay.History.{Action, check, purge, act, run}

-- Some call of the history is for the identifier and the expiry of a row.
abbrev pub Asked : Row → List Action → Type 0
Asked r [] = ⊥
Asked r (check f jti exp allow g ∷ rest) = ((r.jti ≡ jti) × (r.exp ≡ exp)) ⊎ Asked r rest
Asked r (purge f now ∷ rest) = Asked r rest

-- The row has not expired at a time, or a call of the history is for it.
abbrev pub Accounted : ℤ → List Action → Row → Type 0
Accounted now history r = (now ≤ℤ r.exp) ⊎ Asked r history

Written-All :
    (P : Row → Type 0) {j : String} {g : ℕ} {e : ℤ} (t t' : Table)
    → P (record { jti = j; has_groups = g; exp = e })
    → All P t
    → Written j g e t t'
    → All P t'
Written-All P t t' p h (inl same) = subst (All P) (sym same) h
Written-All P t t' p h (inr (_, added)) = subst (All P) (sym added) (p, h)

-- The rows that an action may add.
abbrev Adds : (Row → Type 0) → Action → Type 0
Adds P (check f jti exp allow g) = (n : ℕ) → P (record { jti = jti; has_groups = n; exp = exp })
Adds P (purge f now) = Unit

act-All : (P : Row → Type 0) (a : Action) (t : Table) → Adds P a → All P t → All P (act a t)
unfolding act
act-All P (check f j e true g) t p h =
    unfold check_and_record_jti in
    Written-All P t _ (p (groups_int g)) h (replay_write-table f.write j e g t)
act-All P (check f j e false g) t p h = Written-All P t _ (p 0) h (strict-table f j e g t)
act-All P (purge none now) t p h =
    unfold purge_expired_jtis in All-keep P (λ r. not (ltb_ℤ r.exp now)) t h
act-All P (purge (some e) now) t p h = unfold purge_expired_jtis in h

run-All :
    (P : Row → Type 0) (history : List Action) (t : Table)
    → All (Adds P) history
    → All P t
    → All P (run history t)
unfolding run
run-All P [] t p h = h
run-All P (a ∷ rest) t (p, ps) h = run-All P rest (act a t) ps (act-All P a t p h)

run-append : (xs ys : List Action) (t : Table) → run (xs ++ ys) t ≡ run ys (run xs t)
unfolding run
run-append [] ys t = refl
run-append (x ∷ xs) ys t = run-append xs ys (act x t)

-- Each call of a history accounts for the rows that it may add, also in a longer history.
Adds-within :
    (now : ℤ) (history whole : List Action)
    → ((r : Row) → Asked r history → Asked r whole)
    → All (Adds (Accounted now whole)) history
Adds-within now [] whole h = tt
Adds-within now (check f j e a g ∷ rest) whole h = (
  λ n. inr (h (record { jti = j; has_groups = n; exp = e }) (inl (refl, refl))),
  Adds-within now rest whole (λ r k. h r (inr k)),
)
Adds-within now (purge f t ∷ rest) whole h = (tt, Adds-within now rest whole h)

unexpired :
    (now : ℤ) (later : List Action) (t : Table)
    → All (Accounted now later) (keep (λ r. not (ltb_ℤ r.exp now)) t)
unexpired now later [] = tt
unexpired now later (r ∷ t) = elim (Bool-cases (ltb_ℤ r.exp now)) [
  | inl gone ↦ rw gone (unexpired now later t)
  | inr stays ↦ rw stays (inl (ground arith), unexpired now later t)
]

-- Whatever the table held and whichever calls and purges failed before, from the first tick of the
-- hourly purge that does not fail on, every row either had not expired at that tick, or is that of a
-- call which came after it.
pub rows-Accounted :
    (earlier later : List Action) (now : ℤ) (t : Table)
    → All (Accounted now later) (run (earlier ++ (purge none now ∷ later)) t)
unfolding run
rows-Accounted earlier later now t = rw (run-append earlier (purge none now ∷ later) t) (
    run-All (Accounted now later) later (act (purge none now) (run earlier t))
      (Adds-within now later later (λ r h. h))
      (unfold act purge_expired_jtis in unexpired now later (run earlier t)))
