-- ===== src/Db/Replay/History.antt =====
-- Calls of `check_and_record_jti` and purges one after another (src/db/audit.rs). A tick of the hourly
-- task `start_jti_purge_task` is one purge; a fault of it is logged, and the task goes on.
use jwt_exchange.Prelude.{
  ℕ, String, ◌≡◌, refl, Bool, true, false, not, ◌&&◌, none, some, List, [], ◌∷◌, any, keep, All,
  arith, eq_refl, inl, inr,
}
use jwt_exchange.Prelude.Int.{ℤ, ◌≤ℤ◌, ◌<ℤ◌, ltb_ℤ}
use jwt_exchange.Result.{ok}
use jwt_exchange.Db.Replay.{
  Row, Table, has_jti, has_key, Fault, Faults, no_faults, groups_int, select_jti, replay_write,
  strict_write, check_and_record_jti, purge_expired_jtis,
}
use jwt_exchange.Db.Replay.Spec.{Written, free_of_unknown, replay_write-table, strict-table}

-- What the service does to the table: a call for some token, or the hourly purge.
pub data Action : Type 0 where
  check : Faults → (jti : String) → (exp : ℤ) → (allow has_groups : Bool) → Action
  purge : Fault → (now : ℤ) → Action

unfoldable pub act : Action → Table → Table
act (check f jti exp allow g) t = (check_and_record_jti f jti exp allow g t).1
act (purge f now) t = (purge_expired_jtis f now t).1

unfoldable pub run : List Action → Table → Table
unfolding act
run [] t = t
run (a ∷ rest) t = run rest (act a t)

-- No purge of the history has a clock past `exp`.
abbrev pub Before : ℤ → Action → Type 0
Before exp (check f jti e allow g) = Unit
Before exp (purge f now) = now ≤ℤ exp

-- A row for the key that does not expire before `exp`.
abbrev lasting : String → ℕ → ℤ → Row → Bool
lasting jti g exp r = has_key jti g r && not (ltb_ℤ r.exp exp)

lasting-keep :
    (j : String) (g : ℕ) (exp now : ℤ) (t : Table)
    → now ≤ℤ exp
    → any (lasting j g exp) t ≡ true
    → any (lasting j g exp) (keep (λ r. not (ltb_ℤ r.exp now)) t) ≡ true
lasting-keep j g exp now [] h k = k
lasting-keep j g exp now (r ∷ t) h k = ground (arith, lasting-keep j g exp now t h)

-- A write drops no row.
any-Written :
    (p : Row → Bool) {i : String} {g : ℕ} {e : ℤ} (t t' : Table)
    → Written i g e t t'
    → any p t ≡ true
    → any p t' ≡ true
any-Written p t t' (inl same) k = rw same k
any-Written p t t' (inr (_, added)) k = rw added (ground arith)

lasting-act :
    (j : String) (g : ℕ) (exp : ℤ) (a : Action) (t : Table)
    → Before exp a
    → any (lasting j g exp) t ≡ true
    → any (lasting j g exp) (act a t) ≡ true
unfolding act
lasting-act j g exp (check f i e true h) t b k =
    unfold check_and_record_jti in
    any-Written (lasting j g exp) t _ (replay_write-table f.write i e h t) k
lasting-act j g exp (check f i e false h) t b k =
    any-Written (lasting j g exp) t _ (strict-table f i e h t) k
lasting-act j g exp (purge none now) t b k =
    unfold purge_expired_jtis in lasting-keep j g exp now t b k
lasting-act j g exp (purge (some x) now) t b k = unfold purge_expired_jtis in k

lasting-run :
    (j : String) (g : ℕ) (exp : ℤ) (history : List Action) (t : Table)
    → All (Before exp) history
    → any (lasting j g exp) t ≡ true
    → any (lasting j g exp) (run history t) ≡ true
unfolding run
lasting-run j g exp [] t h k = k
lasting-run j g exp (a ∷ rest) t (b, h) k =
    lasting-run j g exp rest (act a t) h (lasting-act j g exp a t b k)

known_of_lasting :
    (j : String) (g : ℕ) (exp : ℤ) (t : Table)
    → any (lasting j g exp) t ≡ true
    → (any (has_jti j) t ≡ true) × (any (has_key j g) t ≡ true)
known_of_lasting j g exp [] k = cc
known_of_lasting j g exp (r ∷ t) k = ground (arith, known_of_lasting j g exp t)

replay_accepts-lasting :
    (f : Fault) (j : String) (exp : ℤ) (g : Bool) (t : Table)
    → (replay_write f j exp g t).0 ≡ ok false
    → any (lasting j (groups_int g) exp) (replay_write f j exp g t).1 ≡ true
unfolding replay_write
replay_accepts-lasting none j exp g t h = ground (arith, eq_refl j)
replay_accepts-lasting (some e) j exp g t h = cc

strict_accepts-lasting :
    (f : Faults) (j : String) (exp : ℤ) (g : Bool) (t : Table)
    → (check_and_record_jti f j exp false g t).0 ≡ ok false
    → any (lasting j 0 exp) (check_and_record_jti f j exp false g t).1 ≡ true
unfolding check_and_record_jti strict_write
strict_accepts-lasting f j exp g t h = ground (arith, eq_refl j)

-- The key under which a call records its identifier.
abbrev pub recorded_key : Bool → Bool → ℕ
recorded_key true g = groups_int g
recorded_key false g = 0

accepts-lasting :
    (f : Faults) (j : String) (exp : ℤ) (allow g : Bool) (t : Table)
    → (check_and_record_jti f j exp allow g t).0 ≡ ok false
    → any (lasting j (recorded_key allow g) exp) (check_and_record_jti f j exp allow g t).1 ≡ true
accepts-lasting f j exp true g t h =
    unfold check_and_record_jti in replay_accepts-lasting f.write j exp g t h
accepts-lasting f j exp false g t h = strict_accepts-lasting f j exp g t h

-- Once a call has accepted an identifier, in either mode, every later strict call for it finds a
-- replay, whatever calls and purges run between the two, so long as no purge of them has a clock
-- past the recorded expiry and the later call reads the table.
pub strict_second_use :
    (f f' : Faults) (jti : String) (exp exp' : ℤ) (allow g g' : Bool) (t : Table)
    (history : List Action)
    → (check_and_record_jti f jti exp allow g t).0 ≡ ok false
    → All (Before exp) history
    → f'.read ≡ none
    → (check_and_record_jti f' jti exp' false g'
        (run history (check_and_record_jti f jti exp allow g t).1)).0
      ≡ ok true
strict_second_use f f' jti exp exp' allow g g' t history h b e =
    let t' = run history (check_and_record_jti f jti exp allow g t).1 in
    let found : any (has_jti jti) t' ≡ true =
      (known_of_lasting jti (recorded_key allow g) exp t' (
        lasting-run jti (recorded_key allow g) exp history _ b
          (accepts-lasting f jti exp allow g t h))).0 in
    unfold check_and_record_jti in rw (e, select_jti, found)

-- With `allow_replay` an identifier that was accepted with groups is refused with groups, and one
-- accepted without groups is refused without, under the same conditions.
pub replay_second_use :
    (f f' : Faults) (jti : String) (exp exp' : ℤ) (g : Bool) (t : Table) (history : List Action)
    → (check_and_record_jti f jti exp true g t).0 ≡ ok false
    → All (Before exp) history
    → f'.write ≡ none
    → (check_and_record_jti f' jti exp' true g
        (run history (check_and_record_jti f jti exp true g t).1)).0
      ≡ ok true
replay_second_use f f' jti exp exp' g t history h b e =
    let t' = run history (check_and_record_jti f jti exp true g t).1 in
    let found : any (has_key jti (groups_int g)) t' ≡ true =
      (known_of_lasting jti (groups_int g) exp t' (
        lasting-run jti (groups_int g) exp history _ b (accepts-lasting f jti exp true g t h))).1 in
    unfold check_and_record_jti replay_write in rw (e, found)

unknown-keep :
    (j : String) (p : Row → Bool) (t : Table)
    → any (has_jti j) t ≡ false
    → any (has_jti j) (keep p t) ≡ false
unknown-keep j p [] h = refl
unknown-keep j p (r ∷ t) h = ground (arith, unknown-keep j p t)

strict_first :
    (j : String) (e : ℤ) (g : Bool) (t : Table)
    → any (has_jti j) t ≡ false
    → check_and_record_jti no_faults j e false g t
      ≡ (ok false, record { jti = j; has_groups = 0; exp = e } ∷ t)
unfolding check_and_record_jti
strict_first j e g t h = rw (h, strict_write, free_of_unknown j 0 t h)

strict_unknown :
    (j : String) (e : ℤ) (g : Bool) (t : Table)
    → (check_and_record_jti no_faults j e false g t).0 ≡ ok false
    → any (has_jti j) t ≡ false
unfolding check_and_record_jti
strict_unknown j e g t h = ground arith

purged_row :
    (j : String) (e now : ℤ) (t : Table)
    → e <ℤ now
    → run (purge none now ∷ []) (record { jti = j; has_groups = 0; exp = e } ∷ t)
      ≡ keep (λ r. not (ltb_ℤ r.exp now)) t
unfolding run purge_expired_jtis
purged_row j e now t h = ground arith

-- A purge whose clock has passed the expiry of an accepted identifier forgets it: the next strict
-- call accepts it a second time.
pub purged_second_use :
    (jti : String) (exp exp' now : ℤ) (g g' : Bool) (t : Table)
    → (check_and_record_jti no_faults jti exp false g t).0 ≡ ok false
    → exp <ℤ now
    → (check_and_record_jti no_faults jti exp' false g'
        (run (purge none now ∷ []) (check_and_record_jti no_faults jti exp false g t).1)).0
      ≡ ok false
purged_second_use jti exp exp' now g g' t h lt =
    let t₁ = keep (λ r. not (ltb_ℤ r.exp now)) t in
    let unknown : any (has_jti jti) t ≡ false = strict_unknown jti exp g t h in
    let later = strict_first jti exp' g' t₁ (unknown-keep jti _ t unknown) in
    rw (strict_first jti exp g t unknown, purged_row jti exp now t lt, later)
