-- ===== src/Db/Replay/Tests.antt =====
-- Runs of the replay protection, and the theorems at inputs.
use jwt_exchange.Prelude.{
  ◌≤◌, String, ◌≡◌, ◌≢◌, refl, true, false, not, ◌&&◌, none, List, [], ◌∷◌, All, arith,
}
use jwt_exchange.Prelude.Int.{ℤ, pos, ltb_ℤ}
use jwt_exchange.Result.{ok}
use jwt_exchange.Db.Replay.{Row, has_jti, no_faults, select_jti, check_and_record_jti}
use jwt_exchange.Db.Replay.Table.{count, KeysUnique}
use jwt_exchange.Db.Replay.Spec.{uses, promised, IsValid, check_and_record_jti-promised}
use jwt_exchange.Db.Replay.History.{Action, check, purge, run, purged_second_use}
use jwt_exchange.Db.Replay.Growth.{Accounted, rows-Accounted}
use jwt_exchange.Db.Replay.Interleaved.{
  System, Reach, here, next, read, write, start, write_strict, strict_at_most_once,
}

abbrev first : Row
first = record { jti = "jti-1"; has_groups = 0; exp = pos 9999 }

strict_runs :
    (check_and_record_jti no_faults "jti-1" (pos 9999) false true [] ≡ (ok false, first ∷ []))
    × ((check_and_record_jti no_faults "jti-1" (pos 9999) false true (first ∷ [])).0 ≡ ok true)
    × ((check_and_record_jti no_faults "jti-2" (pos 9999) false true (first ∷ [])).0 ≡ ok false)
unfolding check_and_record_jti
strict_runs = (refl, refl, refl)

replay_runs :
    ((check_and_record_jti no_faults "jti-1" (pos 9999) true true (first ∷ [])).0 ≡ ok false)
    × ((check_and_record_jti no_faults "jti-1" (pos 9999) true false (first ∷ [])).0 ≡ ok true)
unfolding check_and_record_jti
replay_runs = (refl, refl)

empty-KeysUnique : KeysUnique []
unfolding count
empty-KeysUnique j g = omega arith

empty-IsValid : IsValid []
empty-IsValid = record { unique = empty-KeysUnique; binary = tt }

replayed : (check_and_record_jti no_faults "jti-1" (pos 9999) false true (first ∷ [])).0 ≢ ok false
unfolding check_and_record_jti
replayed e = cc

check_and_record_jti-promised_example :
    ((check_and_record_jti no_faults "jti-1" (pos 9999) true true []).0
      ≡ ok (promised true true "jti-1" (uses [])).0)
    × (uses (check_and_record_jti no_faults "jti-1" (pos 9999) true true []).1
        ≡ (promised true true "jti-1" (uses [])).1)
check_and_record_jti-promised_example =
    check_and_record_jti-promised "jti-1" (pos 9999) true true [] empty-IsValid

accepted_first : (check_and_record_jti no_faults "jti-1" (pos 9999) false false []).0 ≡ ok false
unfolding check_and_record_jti
accepted_first = refl

accepted_groups : (check_and_record_jti no_faults "jti-1" (pos 9999) true true []).0 ≡ ok false
unfolding check_and_record_jti
accepted_groups = refl

abbrev between : List Action
between =
    check no_faults "jti-2" (pos 5) false true
    ∷ purge none (pos 100)
    ∷ check no_faults "jti-1" (pos 7) true true
    ∷ []

purged_second_use_example :
    (check_and_record_jti no_faults "jti-1" (pos 9999) false false (
      run
        (purge none (pos 10000) ∷ [])
        (check_and_record_jti no_faults "jti-1" (pos 9999) false false []).1)).0
    ≡ ok false
purged_second_use_example =
    purged_second_use "jti-1" (pos 9999) (pos 9999) (pos 10000) false false [] accepted_first
      (omega arith)

-- Two strict calls read the empty table before either writes: the second write meets the key.
abbrev after_writes : System
after_writes = write_strict none "jti-1" (pos 9999) [] (
    write_strict none "jti-1" (pos 9999) (("jti-1", pos 9999) ∷ []) (record {
      table = [];
      pending = ("jti-1", pos 9999) ∷ ("jti-1", pos 9999) ∷ [];
      accepted = [];
    }))

abbrev task : String × ℤ
task = ("jti-1", pos 9999)

abbrev waiting : List Row → List (String × ℤ) → System
waiting t tasks = record { table = t; pending = tasks; accepted = [] }

race : Reach false (pos 9999) (start []) after_writes
unfolding select_jti
race =
    next
      (next
        (next (next here (read (start []) none "jti-1" (pos 9999) refl refl))
          (read (waiting [] (task ∷ [])) none "jti-1" (pos 9999) refl refl))
        (write (waiting [] (task ∷ task ∷ [])) none "jti-1" (pos 9999) [] (task ∷ []) refl refl))
      (write (write_strict none "jti-1" (pos 9999) (task ∷ []) (waiting [] (task ∷ task ∷ []))) none
        "jti-1" (pos 9999) [] [] refl refl)

strict_at_most_once_example :
    count (λ r. has_jti "jti-1" r && not (ltb_ℤ r.exp (pos 9999))) after_writes.accepted ≤ 1
strict_at_most_once_example =
    strict_at_most_once (pos 9999) [] after_writes "jti-1" empty-KeysUnique race

rows-Accounted_example :
    All (Accounted (pos 20000) (check no_faults "jti-2" (pos 30000) false false ∷ [])) (
      run
        (check no_faults "jti-1" (pos 9999) false true
          ∷ purge none (pos 20000)
          ∷ check no_faults "jti-2" (pos 30000) false false
          ∷ [])
        [])
rows-Accounted_example =
    rows-Accounted (check no_faults "jti-1" (pos 9999) false true ∷ [])
      (check no_faults "jti-2" (pos 30000) false false ∷ []) (pos 20000) []
