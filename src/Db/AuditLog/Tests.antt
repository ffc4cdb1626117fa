-- ===== src/Db/AuditLog/Tests.antt =====
-- Examples of the purge of `request_log` (src/db/audit.rs). The SQLite of the examples writes a time
-- as so many characters, and knows the modifier of one day.
use Prim.Native.Char.{nul}
use jwt_exchange.Prelude.{
  ℕ, zero, suc, ◌+◌, ◌-◌, String, ◌≡◌, refl, none, some, Option, List, [], ◌∷◌, ◌++◌, map, arith,
  ltb, leb, str_eq, if◌then◌else◌,
}
use jwt_exchange.Prelude.Int.{pos, pos_part}
use jwt_exchange.Db.AuditLog.{AuditRecord, Sqlite, modifier, run_purge_task}
use jwt_exchange.Db.AuditLog.Retention.{
  TimedRow, Timed, came, ticked, Ordered, GoesBack, stamped, event, run_purge_task_window,
}

strokes : ℕ → String
strokes zero = ""
strokes (suc n) = String.◌∷◌ nul (strokes n)

size : String → ℕ
size String.[] = 0
size (String.◌∷◌ c s) = size s + 1

size-strokes : (n : ℕ) → size (strokes n) ≡ n
unfolding strokes size
size-strokes zero = refl
size-strokes (suc n) = omega (arith, size-strokes n)

days_back : ℕ → Option String → Option String
days_back now none = some (strokes now)
days_back now (some m) = if str_eq m "-1 days" then some (strokes (now - 86400)) else none

abbrev counting : Sqlite
counting = record {
  int_text = λ n. if leb (pos_part n) 1 then "1" else "many";
  datetime = λ now m. days_back (pos_part now) m;
  less = λ s t. ltb (size s) (size t);
}

counting-Ordered : Ordered counting strokes
counting-Ordered s t _ _ = rw (size-strokes s, size-strokes t)

counting-GoesBack : GoesBack counting strokes 1
unfolding modifier days_back
counting-GoesBack now _ _ = refl

abbrev attempt : AuditRecord
attempt = record {
  source_ip = "10.0.0.1";
  inbound_sub = none;
  inbound_iss = none;
  inbound_aud = none;
  validation = "JWT has expired";
  error_detail = none;
  outbound_sub = none;
  token_jti = none;
  response_code = pos 401;
  elapsed_ms = pos 2;
}

abbrev at : ℕ → TimedRow
at time = record { time = time; entry = attempt }

-- A row of the first day, a tick that fails, a row of the second day, and a tick on the second day.
abbrev history : List Timed
history =
    came none (at 100000) ∷ ticked (some "database is locked") 150000 ∷ came none (at 170000) ∷ []

run_purge_task_window_example :
    run_purge_task counting
      (pos 1)
      (map (event counting strokes) (history ++ (ticked none 190000 ∷ [])))
      (stamped counting strokes (at 103000 ∷ []))
    ≡ stamped counting strokes (at 170000 ∷ [])
run_purge_task_window_example =
    run_purge_task_window counting strokes counting-Ordered 1 counting-GoesBack history 190000
      (at 103000 ∷ []) (omega arith) (omega arith) (omega arith) (omega arith)
