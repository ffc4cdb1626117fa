-- ===== src/Db/Replay/Spec.antt =====
-- What the replay protection of src/db/audit.rs promises, over sets of used identifiers, and the
-- statements on the table against it.
use mathlib.Core.Path.{fun_ext, subst}
use jwt_exchange.Prelude.{
  ℕ, ◌≤◌, String, ◌≡◌, ◌≢◌, refl, sym, Bool, true, false, ◌||◌, none, some, [], ◌∷◌, any, All,
  arith, str_eq, if◌then◌else◌, Bool-cases, ◌⊎◌, inl, inr,
}
use jwt_exchange.Prelude.Int.{ℤ}
use jwt_exchange.Result.{Result, ok, err}
use jwt_exchange.Db.Replay.{
  Table, has_jti, has_key, Fault, Faults, no_faults, groups_int, select_jti, replay_write,
  strict_write, after_read, check_and_record_jti,
}
use jwt_exchange.Db.Replay.Table.{KeysUnique, KeysUnique-add}

-- The identifiers that were used without groups, and with groups.
pub record Uses : Type 0 where
  pub bare : String → Bool
  pub grouped : String → Bool

abbrev mark : String → (String → Bool) → String → Bool
mark jti s j = str_eq jti j || s j

-- The promise. With `allow_replay` an identifier is free once without and once with groups;
-- without it, the first use of either kind is the last. The Boolean says `already used`.
abbrev pub promised : Bool → Bool → String → Uses → Bool × Uses
promised true false jti u =
    if u.bare jti then (true, u) else (false, record u { bare = mark jti u.bare })
promised true true jti u =
    if u.grouped jti then (true, u) else (false, record u { grouped = mark jti u.grouped })
promised false has_groups jti u =
    if u.bare jti || u.grouped jti then (true, u) else (false, record u { bare = mark jti u.bare })

abbrev pub uses : Table → Uses
uses t = record { bare = λ j. any (has_key j 0) t; grouped = λ j. any (has_key j 1) t }

pub record IsValid (t : Table) : Type 0 where
  pub unique : KeysUnique t
  pub binary : All (λ r. r.has_groups ≤ 1) t

any-has_jti :
    (j : String) (t : Table)
    → All (λ r. r.has_groups ≤ 1) t
    → any (has_jti j) t ≡ (any (has_key j 0) t || any (has_key j 1) t)
any-has_jti j [] h = refl
any-has_jti j (r ∷ t) (p, h) = ground (arith, any-has_jti j t h)

pub free_of_unknown :
    (j : String) (g : ℕ) (t : Table) → any (has_jti j) t ≡ false → any (has_key j g) t ≡ false
free_of_unknown j g [] h = refl
free_of_unknown j g (r ∷ t) h = ground (arith, free_of_unknown j g t)

groups_int-le : (g : Bool) → groups_int g ≤ 1
groups_int-le true = omega arith
groups_int-le false = omega arith

-- The table after a write: as before, or with one row more under a key that was free.
abbrev pub Written : String → ℕ → ℤ → Table → Table → Type 0
Written j g e t t' =
    (t' ≡ t)
    ⊎ ((any (has_key j g) t ≡ false) × (t' ≡ record { jti = j; has_groups = g; exp = e } ∷ t))

pub replay_write-table :
    (f : Fault) (j : String) (e : ℤ) (g : Bool) (t : Table)
    → Written j (groups_int g) e t (replay_write f j e g t).1
unfolding replay_write
replay_write-table none j e g t = elim (Bool-cases (any (has_key j (groups_int g)) t)) [
  | inl held ↦ inl (rw held)
  | inr free ↦ inr (free, rw free)
]
replay_write-table (some x) j e g t = inl refl

strict_write-table :
    (f : Fault) (j : String) (e : ℤ) (t : Table) → Written j 0 e t (strict_write f j e t).1
unfolding strict_write
strict_write-table none j e t = elim (Bool-cases (any (has_key j 0) t)) [
  | inl held ↦ inl (rw held)
  | inr free ↦ inr (free, rw free)
]
strict_write-table (some x) j e t = inl refl

pub strict-table :
    (f : Faults) (j : String) (e : ℤ) (g : Bool) (t : Table)
    → Written j 0 e t (check_and_record_jti f j e false g t).1
unfolding check_and_record_jti
strict-table f j e g t = after (select_jti f.read j t)
  where
    after : (r : Result Bool String) → Written j 0 e t (after_read r f.write j e t).1
    after (ok true) = inl refl
    after (ok false) = strict_write-table f.write j e t
    after (err x) = inl refl

pub write-IsValid :
    (j : String) (g : ℕ) (e : ℤ) (t : Table)
    → g ≤ 1
    → IsValid t
    → (t' : Table) → Written j g e t t'
    → IsValid t'
write-IsValid j g e t h v t' (inl same) = subst IsValid (sym same) v
write-IsValid j g e t h v t' (inr (free, added)) = subst IsValid (sym added) (record {
  unique = KeysUnique-add (record { jti = j; has_groups = g; exp = e }) t free v.unique;
  binary = (h, v.binary);
})

-- Whatever its statements answer, a call keeps the table valid.
pub check_and_record_jti-IsValid :
    (f : Faults) (jti : String) (exp : ℤ) (allow has_groups : Bool) (t : Table)
    → IsValid t
    → IsValid (check_and_record_jti f jti exp allow has_groups t).1
unfolding check_and_record_jti
check_and_record_jti-IsValid f jti exp true g t v =
    write-IsValid jti (groups_int g) exp t (groups_int-le g) v (replay_write f.write jti exp g t).1
      (replay_write-table f.write jti exp g t)
check_and_record_jti-IsValid f jti exp false g t v =
    write-IsValid jti 0 exp t (omega arith) v (check_and_record_jti f jti exp false g t).1
      (strict-table f jti exp g t)

replay_write_unchanged :
    (f : Fault) (j : String) (e : ℤ) (g : Bool) (t : Table)
    → (replay_write f j e g t).0 ≢ ok false
    → (replay_write f j e g t).1 ≡ t
unfolding replay_write
replay_write_unchanged none j e g t h = ground arith
replay_write_unchanged (some x) j e g t h = refl

strict_write_unchanged :
    (f : Fault) (j : String) (e : ℤ) (t : Table)
    → (strict_write f j e t).0 ≢ ok false
    → (strict_write f j e t).1 ≡ t
unfolding strict_write
strict_write_unchanged none j e t h = ground arith
strict_write_unchanged (some x) j e t h = refl

-- A call that fails leaves the table as it was, and so does a call that finds a replay.
pub check_and_record_jti_unchanged :
    (f : Faults) (jti : String) (exp : ℤ) (allow has_groups : Bool) (t : Table)
    → (check_and_record_jti f jti exp allow has_groups t).0 ≢ ok false
    → (check_and_record_jti f jti exp allow has_groups t).1 ≡ t
unfolding check_and_record_jti
check_and_record_jti_unchanged f jti exp true g t h = replay_write_unchanged f.write jti exp g t h
check_and_record_jti_unchanged f jti exp false g t h = after (select_jti f.read jti t) h
  where
    after :
        (r : Result Bool String)
        → (after_read r f.write jti exp t).0 ≢ ok false
        → (after_read r f.write jti exp t).1 ≡ t
    after (ok true) k = refl
    after (ok false) k = strict_write_unchanged f.write jti exp t k
    after (err x) k = refl

Uses-ext :
    (u v : Uses)
    → ((j : String) → u.bare j ≡ v.bare j)
    → ((j : String) → u.grouped j ≡ v.grouped j)
    → u ≡ v
Uses-ext u v p q = λ i. record { bare = fun_ext p i; grouped = fun_ext q i }

uses-bare :
    (j : String) (e : ℤ) (t : Table)
    → uses (record { jti = j; has_groups = 0; exp = e } ∷ t)
      ≡ record { bare = mark j (uses t).bare; grouped = (uses t).grouped }
uses-bare j e t =
    Uses-ext (uses (record { jti = j; has_groups = 0; exp = e } ∷ t))
      (record { bare = mark j (uses t).bare; grouped = (uses t).grouped }) (λ k. ground arith)
      (λ k. ground arith)

uses-grouped :
    (j : String) (e : ℤ) (t : Table)
    → uses (record { jti = j; has_groups = 1; exp = e } ∷ t)
      ≡ record { bare = (uses t).bare; grouped = mark j (uses t).grouped }
uses-grouped j e t =
    Uses-ext (uses (record { jti = j; has_groups = 1; exp = e } ∷ t))
      (record { bare = (uses t).bare; grouped = mark j (uses t).grouped }) (λ k. ground arith)
      (λ k. ground arith)

-- On a valid table and without a fault, a call answers what is promised and makes the promised
-- change to the sets of used identifiers.
pub check_and_record_jti-promised :
    (jti : String) (exp : ℤ) (allow has_groups : Bool) (t : Table)
    → IsValid t
    → ((check_and_record_jti no_faults jti exp allow has_groups t).0
        ≡ ok (promised allow has_groups jti (uses t)).0)
      × (uses (check_and_record_jti no_faults jti exp allow has_groups t).1
          ≡ (promised allow has_groups jti (uses t)).1)
unfolding check_and_record_jti
check_and_record_jti-promised jti exp true false t v = elim (Bool-cases (any (has_key jti 0) t)) [
  | inl held ↦ rw (held, replay_write) (refl, refl)
  | inr free ↦ rw (free, replay_write) (refl, uses-bare jti exp t)
]
check_and_record_jti-promised jti exp true true t v = elim (Bool-cases (any (has_key jti 1) t)) [
  | inl held ↦ rw (held, replay_write) (refl, refl)
  | inr free ↦ rw (free, replay_write) (refl, uses-grouped jti exp t)
]
check_and_record_jti-promised jti exp false g t v =
    rw (← any-has_jti jti t v.binary) (elim (Bool-cases (any (has_jti jti) t)) [
      | inl known ↦ rw (known) (refl, refl)
      | inr unknown ↦
          rw (unknown, strict_write, free_of_unknown jti 0 t unknown) (refl, uses-bare jti exp t)
    ])
