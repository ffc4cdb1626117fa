-- ===== src/Db/Replay/Table.antt =====
-- Facts about the rows of the table: which are there after a purge, and that a key is held once.
use jwt_exchange.Prelude.{
  ℕ, ◌+◌, ◌≤◌, String, ◌≡◌, refl, Bool, true, false, [], ◌∷◌, any, keep, arith, str_eq, eq_iff,
  ◌==◌, if◌then◌else◌,
}
use jwt_exchange.Db.Replay.{Row, Table, has_key}

-- How many rows pass a test.
unfoldable pub count : (Row → Bool) → Table → ℕ
count p [] = 0
count p (r ∷ t) = (if p r then 1 else 0) + count p t

-- The rows under one key.
abbrev pub at_key : String → ℕ → Table → ℕ
at_key jti g t = count (has_key jti g) t

-- No key is held twice: the constraint of the primary key.
abbrev pub KeysUnique : Table → Type 0
KeysUnique t = (jti : String) (g : ℕ) → at_key jti g t ≤ 1

pub count-any : (p : Row → Bool) (t : Table) → any p t ≡ false → count p t ≡ 0
unfolding count
count-any p [] h = refl
count-any p (r ∷ t) h = ground (arith, count-any p t)

pub any-of_count : (p : Row → Bool) (t : Table) → 1 ≤ count p t → any p t ≡ true
unfolding count
any-of_count p [] h = absurd (omega arith)
any-of_count p (r ∷ t) h = ground (arith, any-of_count p t)

pub count-keep-le : (p q : Row → Bool) (t : Table) → count p (keep q t) ≤ count p t
unfolding count
count-keep-le p q [] = omega arith
count-keep-le p q (r ∷ t) = ground (arith, count-keep-le p q t)

-- Rows that a filter never drops are all kept.
pub count-keep :
    (p q : Row → Bool) (t : Table)
    → ((r : Row) → p r ≡ true → q r ≡ true)
    → count p (keep q t) ≡ count p t
unfolding count
count-keep p q [] h = refl
count-keep p q (r ∷ t) h = ground (arith, count-keep p q t h, h r)

-- A test that implies another counts no more rows.
pub count_mono :
    (p q : Row → Bool) (t : Table) → ((r : Row) → p r ≡ true → q r ≡ true) → count p t ≤ count q t
unfolding count
count_mono p q [] h = omega arith
count_mono p q (r ∷ t) h = ground (arith, count_mono p q t h, h r)

pub KeysUnique-keep : (q : Row → Bool) (t : Table) → KeysUnique t → KeysUnique (keep q t)
KeysUnique-keep q t h jti g = omega (arith, count-keep-le (has_key jti g) q t, h jti g)

-- A row whose key is free may be added.
pub KeysUnique-add :
    (r : Row) (t : Table)
    → any (has_key r.jti r.has_groups) t ≡ false
    → KeysUnique t
    → KeysUnique (r ∷ t)
unfolding count
KeysUnique-add r t free h jti g =
    ground (arith, eq_iff r.jti jti, h jti g, count-any (has_key r.jti r.has_groups) t free, same)
  where
    same :
        str_eq r.jti jti ≡ true
        → (r.has_groups == g) ≡ true
        → at_key r.jti r.has_groups t ≡ at_key jti g t
    same p q = cc ((eq_iff r.jti jti).0 p, num q)
      where
        num : (r.has_groups == g) ≡ true → r.has_groups ≡ g
        num e = ground arith
