-- ===== src/Db/Migrations/Upgrade.antt =====
-- What a start does to a database of an earlier version: the files of migrations/ in their order.
use mathlib.Core.Path.{subst}
use jwt_exchange.Prelude.{
  ℕ, String, ◌≡◌, refl, ◌∙◌, Bool, true, false, ◌||◌, Option, none, some, List, [], ◌∷◌, any, arith,
  str_eq, eq_iff, Bool-cases, inl, inr,
}
use jwt_exchange.Result.{Result, ok}
use jwt_exchange.Db.Replay.{Table, has_jti, has_key, insert_or_ignore}
use jwt_exchange.Db.Replay.Spec.{IsValid, Written, write-IsValid}
use jwt_exchange.Db.Replay.Table.{count}
use jwt_exchange.Db.AuditLog.{LogRow}
use jwt_exchange.Db.Migrations.{
  JtiRow, UsedJti, simple, composite, Database, copy_rows, migrations, apply_pending,
  create_request_log, create_used_jti, create_schema_version, used_jti_composite_key,
}

-- The versions that a database before the composite key has recorded.
pub data Old : List ℕ → Type 0 where
  one : Old (20260101000000 ∷ [])
  two : Old (20260101000000 ∷ 20260501000000 ∷ [])
  three : Old (20260101000000 ∷ 20260501000000 ∷ 20260501000001 ∷ [])

-- The databases that a start may meet: a new one, one from before the composite key, or one of this
-- version, whose table of used identifiers is valid.
pub data Known : Database → Type 0 where
  new : Known (record { request_log = none; used_jti = none; schema_version = none; applied = [] })
  old :
      (log : List LogRow) (rows : List JtiRow) (versions applied : List ℕ)
      → Old applied
      → Known (record {
        request_log = some log;
        used_jti = some (simple rows);
        schema_version = some versions;
        applied = applied;
      })
  current :
      (log : List LogRow) (t : Table) (versions : List ℕ)
      → IsValid t
      → Known (record {
        request_log = some log;
        used_jti = some (composite t);
        schema_version = some versions;
        applied = 20260101000000 ∷ 20260501000000 ∷ 20260501000001 ∷ 20260518000000 ∷ [];
      })

-- A database of this version: both tables are there, and no key of used identifiers is held twice.
pub record IsCurrent (db : Database) : Type 0 where
  pub log : List LogRow
  pub table : Table
  pub logs : db.request_log ≡ some log
  pub used : db.used_jti ≡ some (composite table)
  pub valid : IsValid table
  pub versions : db.applied ≡ 20260101000000 ∷ 20260501000000 ∷ 20260501000001 ∷ 20260518000000 ∷ []

-- An identifier was used, by the table of either shape.
abbrev pub used_in : String → Option UsedJti → Bool
used_in j none = false
used_in j (some (simple rows)) = any (λ r. str_eq r.jti j) rows
used_in j (some (composite t)) = any (has_jti j) t

abbrev pub logged : Option (List LogRow) → List LogRow
logged none = []
logged (some log) = log

copied : JtiRow → Table → Table
unfolding insert_or_ignore
copied r t = (insert_or_ignore none (record { jti = r.jti; has_groups = 0; exp = r.exp }) t).1

copied-Written : (r : JtiRow) (t : Table) → Written r.jti 0 r.exp t (copied r t)
unfolding copied
copied-Written r t = elim (Bool-cases (any (has_key r.jti 0) t)) [
  | inl held ↦ inl (rw (copied, held))
  | inr free ↦ inr (free, rw (copied, free))
]

known_of_key :
    (j : String) (g : ℕ) (t : Table) → any (has_key j g) t ≡ true → any (has_jti j) t ≡ true
known_of_key j g [] h = h
known_of_key j g (r ∷ t) h = ground (arith, known_of_key j g t)

known_of_same :
    (i j : String) (t : Table)
    → str_eq i j ≡ true
    → any (has_jti i) t ≡ true
    → any (has_jti j) t ≡ true
known_of_same i j t same h = subst (λ k. any (has_jti k) t ≡ true) ((eq_iff i j).0 same) h

copied-any :
    (r : JtiRow) (j : String) (t : Table)
    → any (has_jti j) (copied r t) ≡ (str_eq r.jti j || any (has_jti j) t)
unfolding copied
copied-any r j t = elim (Bool-cases (any (has_key r.jti 0) t)) [
  | inl held ↦
      rw (copied, held)
        (elim (Bool-cases (str_eq r.jti j)) [
          | inl same ↦ rw (same, known_of_same r.jti j t same (known_of_key r.jti 0 t held)) refl
          | inr other ↦ rw other refl
        ])
  | inr free ↦ rw (copied, free) refl
]

copy_rows-IsValid : (rows : List JtiRow) (t : Table) → IsValid t → IsValid (copy_rows rows t)
unfolding copy_rows copied
copy_rows-IsValid [] t v = v
copy_rows-IsValid (r ∷ rows) t v =
    copy_rows-IsValid rows (copied r t)
      (write-IsValid r.jti 0 r.exp t (omega arith) v (copied r t) (copied-Written r t))

copy_rows-any :
    (rows : List JtiRow) (j : String) (t : Table)
    → any (has_jti j) (copy_rows rows t) ≡ (any (λ r. str_eq r.jti j) rows || any (has_jti j) t)
unfolding copy_rows copied
copy_rows-any [] j t = refl
copy_rows-any (r ∷ rows) j t =
    rw (copy_rows-any rows j (copied r t), copied-any r j t) (ground arith)

-- The start leads each known database to this version, with the same entries of the audit and the
-- same identifiers used.
abbrev pub Upgraded : Database → Database → Type 0
Upgraded db db' =
    IsCurrent db'
    × ((j : String) → used_in j db'.used_jti ≡ used_in j db.used_jti)
    × (logged db'.request_log ≡ logged db.request_log)

empty-IsValid : IsValid []
unfolding count
empty-IsValid = record { unique = λ j g. omega arith; binary = tt }

copied_all :
    (log : List LogRow) (rows : List JtiRow) (versions : List ℕ)
    → Upgraded
        (record {
          request_log = some log;
          used_jti = some (simple rows);
          schema_version = some versions;
          applied = [];
        })
        (record {
          request_log = some log;
          used_jti = some (composite (copy_rows rows []));
          schema_version = some versions;
          applied = 20260101000000 ∷ 20260501000000 ∷ 20260501000001 ∷ 20260518000000 ∷ [];
        })
copied_all log rows versions = (
  record {
    log = log;
    table = copy_rows rows [];
    logs = refl;
    used = refl;
    valid = copy_rows-IsValid rows [] empty-IsValid;
    versions = refl;
  },
  (λ j. copy_rows-any rows j [] ∙ or_false (any (λ r. str_eq r.jti j) rows)),
  refl,
)
  where
    or_false : (b : Bool) → (b || false) ≡ b
    or_false true = refl
    or_false false = refl

settled :
    (db db' : Database) {db₁ : Database}
    → Upgraded db db₁
    → ◌≡◌ {A = Result Database String} (ok db₁) (ok db')
    → Upgraded db db'
settled db db' u h = subst (Upgraded db) (inj h) u
  where
    inj : {a b : Database} → ◌≡◌ {A = Result Database String} (ok a) (ok b) → a ≡ b
    inj e = cc

pub apply_pending-Upgraded :
    {db : Database} (db' : Database)
    → Known db
    → apply_pending migrations db ≡ ok db'
    → Upgraded db db'
unfolding apply_pending create_request_log create_used_jti create_schema_version
    used_jti_composite_key
apply_pending-Upgraded {db} db' new h = settled db db' (copied_all [] [] (1 ∷ [])) h
apply_pending-Upgraded {db} db' (old log rows versions applied one) h =
    settled db db' (copied_all log rows _) h
apply_pending-Upgraded {db} db' (old log rows versions applied two) h =
    settled db db' (copied_all log rows _) h
apply_pending-Upgraded {db} db' (old log rows versions applied three) h =
    settled db db' (copied_all log rows versions) h
apply_pending-Upgraded {db} db' (current log t versions v) h =
    settled db db'
      (
        record { log = log; table = t; logs = refl; used = refl; valid = v; versions = refl },
        (λ j. refl),
        refl,
      )
      h
