-- ===== src/Db/Replay/Interleaved.antt =====
-- Exchanges that run at the same time: the two statements of a strict call are steps of their own,
-- between which any other task may run a statement.
use mathlib.Core.Path.{subst}
use jwt_exchange.Prelude.{
  ℕ, ◌≤◌, String, ◌≡◌, refl, sym, Bool, true, false, not, ◌&&◌, none, some, List, [], ◌∷◌, ◌++◌,
  any, All, arith, Bool-cases, ◌⊎◌, inl, inr,
}
use jwt_exchange.Prelude.Int.{ℤ, ◌≤ℤ◌, ltb_ℤ}
use jwt_exchange.Result.{Result, ok, err}
use jwt_exchange.Db.Replay.{
  Row, Table, has_jti, has_key, Fault, groups_int, select_jti, replay_write, strict_write,
  purge_expired_jtis,
}
use jwt_exchange.Db.Replay.Table.{
  count, count-keep, count_mono, KeysUnique, KeysUnique-keep, KeysUnique-add,
}

-- The table; the strict calls that have read and not yet written; and the rows of the calls that
-- have accepted their identifier, the last one first.
pub record System : Type 0 where
  pub table : Table
  pub pending : List (String × ℤ)
  pub accepted : List Row

abbrev pub note : Result Bool String → Row → List Row → List Row
note (ok false) r acc = r ∷ acc
note (ok true) r acc = acc
note (err e) r acc = acc

abbrev pub row : String → ℕ → ℤ → Row
row jti g exp = record { jti = jti; has_groups = g; exp = exp }

abbrev pub write_strict : Fault → String → ℤ → List (String × ℤ) → System → System
write_strict f jti exp others s =
    let (r, t) = strict_write f jti exp s.table in
    record { table = t; pending = others; accepted = note r (row jti 0 exp) s.accepted }

abbrev pub write_replay : Fault → String → ℤ → Bool → System → System
write_replay f jti exp g s =
    let (r, t) = replay_write f jti exp g s.table in
    record {
      table = t;
      pending = s.pending;
      accepted = note r (row jti (groups_int g) exp) s.accepted;
    }

-- One statement of one task. `allow` is the mode of the service, and no purge runs with a clock past
-- `horizon`. A read that finds the identifier, or fails, ends its call and changes nothing.
pub data Step (allow : Bool) (horizon : ℤ) : System → System → Type 0 where
  read :
      (s : System) (f : Fault) (jti : String) (exp : ℤ)
      → allow ≡ false
      → select_jti f jti s.table ≡ ok false
      → Step allow horizon s (record s { pending = (jti, exp) ∷ s.pending })
  write :
      (s : System) (f : Fault) (jti : String) (exp : ℤ) (earlier later : List (String × ℤ))
      → allow ≡ false
      → s.pending ≡ earlier ++ (jti, exp) ∷ later
      → Step allow horizon s (write_strict f jti exp (earlier ++ later) s)
  insert_or_ignore :
      (s : System) (f : Fault) (jti : String) (exp : ℤ) (g : Bool)
      → allow ≡ true
      → Step allow horizon s (write_replay f jti exp g s)
  purge :
      (s : System) (f : Fault) (now : ℤ)
      → now ≤ℤ horizon
      → Step allow horizon s (record s { table = (purge_expired_jtis f now s.table).1 })

pub data Reach (allow : Bool) (horizon : ℤ) (s : System) : System → Type 0 where
  here : Reach allow horizon s s
  next : {t u : System} → Reach allow horizon s t → Step allow horizon t u → Reach allow horizon s u

-- A row under the key that does not expire before the horizon.
abbrev pub lasting : ℤ → String → ℕ → Row → Bool
lasting horizon jti g r = has_key jti g r && not (ltb_ℤ r.exp horizon)

pub record Inv (allow : Bool) (horizon : ℤ) (s : System) : Type 0 where
  pub unique : KeysUnique s.table
  pub covered :
      (j : String) (g : ℕ)
      → count (lasting horizon j g) s.accepted ≤ count (lasting horizon j g) s.table
  pub bare : allow ≡ false → All (λ r. r.has_groups ≡ 0) s.accepted

-- What a write did: it accepted, under a free key, or it left the table and the record alone.
abbrev pub Outcome : Row → Table → List Row → Result Bool String × Table → Type 0
Outcome r t acc (o, t') =
    ((any (has_key r.jti r.has_groups) t ≡ false) × (t' ≡ r ∷ t) × (note o r acc ≡ r ∷ acc))
    ⊎ ((t' ≡ t) × (note o r acc ≡ acc))

pub strict-Outcome :
    (f : Fault) (j : String) (e : ℤ) (t : Table) (acc : List Row)
    → Outcome (row j 0 e) t acc (strict_write f j e t)
unfolding strict_write
strict-Outcome none j e t acc = elim (Bool-cases (any (has_key j 0) t)) [
  | inl held ↦ inr (rw held, rw held)
  | inr free ↦ inl (free, rw free, rw free)
]
strict-Outcome (some x) j e t acc = inr (refl, refl)

pub replay-Outcome :
    (f : Fault) (j : String) (e : ℤ) (g : Bool) (t : Table) (acc : List Row)
    → Outcome (row j (groups_int g) e) t acc (replay_write f j e g t)
unfolding replay_write
replay-Outcome none j e g t acc = elim (Bool-cases (any (has_key j (groups_int g)) t)) [
  | inl held ↦ inr (rw held, rw held)
  | inr free ↦ inl (free, rw free, rw free)
]
replay-Outcome (some x) j e g t acc = inr (refl, refl)

module _ {allow : Bool} {horizon : ℤ} where
  pub Outcome-Inv :
      (r : Row) (s : System) (o : Result Bool String × Table) (pending : List (String × ℤ))
      → (allow ≡ false → r.has_groups ≡ 0)
      → Outcome r s.table s.accepted o
      → Inv allow horizon s
      → Inv allow horizon
          (record { table = o.1; pending = pending; accepted = note o.0 r s.accepted })
  unfolding count
  Outcome-Inv r s o pending zero_key (inl (free, added, noted)) v = record {
    unique = subst KeysUnique (sym added) (KeysUnique-add r s.table free v.unique);
    covered = λ j g. rw (added, noted) (omega (arith, v.covered j g));
    bare = λ m. rw noted (zero_key m, v.bare m);
  }
  Outcome-Inv r s o pending zero_key (inr (same, quiet)) v = record {
    unique = rw same v.unique;
    covered = λ j g. rw (same, quiet) (v.covered j g);
    bare = λ m. rw quiet (v.bare m);
  }

  pub purge-Inv :
      (s : System) (f : Fault) (now : ℤ)
      → now ≤ℤ horizon
      → Inv allow horizon s
      → Inv allow horizon (record s { table = (purge_expired_jtis f now s.table).1 })
  unfolding purge_expired_jtis
  purge-Inv s none now h v = record {
    unique = KeysUnique-keep (λ r. not (ltb_ℤ r.exp now)) s.table v.unique;
    covered = λ j g.
        rw
          (count-keep (lasting horizon j g) (λ r. not (ltb_ℤ r.exp now)) s.table
            (λ r k. ground arith))
          (v.covered j g);
    bare = v.bare;
  }
  purge-Inv s (some e) now h v = record { unique = v.unique; covered = v.covered; bare = v.bare }

  Step-Inv : {s t : System} → Step allow horizon s t → Inv allow horizon s → Inv allow horizon t
  Step-Inv (read s f jti exp m e) v = record {
    unique = v.unique;
    covered = v.covered;
    bare = v.bare;
  }
  Step-Inv (write s f jti exp earlier later m e) v =
      Outcome-Inv (row jti 0 exp) s (strict_write f jti exp s.table) (earlier ++ later) (λ _. refl)
        (strict-Outcome f jti exp s.table s.accepted) v
  Step-Inv (insert_or_ignore s f jti exp g m) v =
      Outcome-Inv (row jti (groups_int g) exp) s (replay_write f jti exp g s.table) s.pending
        (λ n. cc) (replay-Outcome f jti exp g s.table s.accepted) v
  Step-Inv (purge s f now h) v = purge-Inv s f now h v

  Reach-Inv : {s t : System} → Reach allow horizon s t → Inv allow horizon s → Inv allow horizon t
  Reach-Inv here v = v
  Reach-Inv (next r st) v = Step-Inv st (Reach-Inv r v)

abbrev pub start : Table → System
start t = record { table = t; pending = []; accepted = [] }

pub start-Inv :
    (allow : Bool) (horizon : ℤ) (t : Table) → KeysUnique t → Inv allow horizon (start t)
unfolding count
start-Inv allow horizon t u = record { unique = u; covered = λ j g. omega arith; bare = λ m. tt }

pub count-bare :
    (horizon : ℤ) (j : String) (acc : List Row)
    → All (λ r. r.has_groups ≡ 0) acc
    → count (λ r. has_jti j r && not (ltb_ℤ r.exp horizon)) acc ≤ count (lasting horizon j 0) acc
unfolding count
count-bare horizon j [] h = omega arith
count-bare horizon j (r ∷ acc) (z, h) = ground (arith, count-bare horizon j acc h)

-- What the invariant bounds: the accepted rows of one identifier in the strict mode, and of one key in
-- either mode, that do not expire before the horizon.
pub strict_Inv_bound :
    (horizon : ℤ) (s : System) (jti : String)
    → Inv false horizon s
    → count (λ r. has_jti jti r && not (ltb_ℤ r.exp horizon)) s.accepted ≤ 1
strict_Inv_bound horizon s jti v = omega (
  arith,
  count-bare horizon jti s.accepted (v.bare refl),
  v.covered jti 0,
  v.unique jti 0,
  count_mono (lasting horizon jti 0) (has_key jti 0) s.table (λ r k. ground arith),
)

pub key_Inv_bound :
    (allow : Bool) (horizon : ℤ) (s : System) (jti : String) (g : ℕ)
    → Inv allow horizon s
    → count (lasting horizon jti g) s.accepted ≤ 1
key_Inv_bound allow horizon s jti g v = omega (
  arith,
  v.covered jti g,
  v.unique jti g,
  count_mono (lasting horizon jti g) (has_key jti g) s.table (λ r k. ground arith),
)

-- From a table with unique keys and however the statements of concurrent exchanges and purges
-- interleave, in the strict mode at most one exchange is accepted of those that present one identifier with an expiry that no purge's
-- clock has passed.
pub strict_at_most_once :
    (horizon : ℤ) (t : Table) (s : System) (jti : String)
    → KeysUnique t
    → Reach false horizon (start t) s
    → count (λ r. has_jti jti r && not (ltb_ℤ r.exp horizon)) s.accepted ≤ 1
strict_at_most_once horizon t s jti u r =
    strict_Inv_bound horizon s jti (Reach-Inv r (start-Inv false horizon t u))

-- With `allow_replay`, from a table with unique keys and however the statements of concurrent exchanges
-- and purges interleave, at most one exchange with groups and at most one without is accepted of those
-- that present one identifier with an expiry that no purge's clock has passed.
pub replay_at_most_once :
    (horizon : ℤ) (t : Table) (s : System) (jti : String) (g : Bool)
    → KeysUnique t
    → Reach true horizon (start t) s
    → count (lasting horizon jti (groups_int g)) s.accepted ≤ 1
replay_at_most_once horizon t s jti g u r =
    key_Inv_bound true horizon s jti (groups_int g) (Reach-Inv r (start-Inv true horizon t u))
