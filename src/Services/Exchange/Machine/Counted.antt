-- ===== src/Services/Exchange/Machine/Counted.antt =====
-- One token is given at most once (src/services/token_service.rs over the table of src/db/audit.rs), in
-- every state that concurrent exchanges, refreshes and purges reach.
use mathlib.Core.Path.{subst}
use jwt_exchange.Prelude.{
  ◌≤◌, String, ◌≡◌, refl, sym, Bool, true, false, ◌&&◌, Option, List, [], All, arith, str_eq,
  eq_iff,
}
use jwt_exchange.Prelude.Int.{ℤ}
use jwt_exchange.Result.{ok, map_err-eq-ok}
use jwt_exchange.Crates.{Crates, InboundClaims, Validation}
use jwt_exchange.Config.{AppConfig}
use jwt_exchange.Auth.Jwks.{CachedJwks, stamp}
use jwt_exchange.Auth.Jwks.Interleaved.{Answer}
use jwt_exchange.Db.Replay.{Row, Table, groups_int, replay_write, strict_write}
use jwt_exchange.Db.Replay.Table.{count}
use jwt_exchange.Db.Replay.Interleaved as Db
use jwt_exchange.Db.Replay.Interleaved.{
  note, row, lasting, Outcome-Inv, purge-Inv, strict-Outcome, replay-Outcome, strict_Inv_bound,
  key_Inv_bound,
}
use jwt_exchange.Services.Mint.{
  Moment, has_groups, validate, validation_for, of_kind, replay_id_of, expiry_of,
}
use jwt_exchange.Services.Exchange.{Shared}
use jwt_exchange.Services.Exchange.Machine.{
  Phase, arrived, looking, missed, retried, checking, passed, waiting, keyed, valid, cleared, done,
  at_table, advance,
}
use jwt_exchange.Services.Exchange.Machine.Tasks.{
  Task, System, Step, arrive, move, read, renew, purge, Reach, here, next, accepts, accepts_at,
  All-take,
}
use jwt_exchange.Services.Exchange.Machine.Backing.{Validated}
use jwt_exchange.Services.Exchange.Machine.Keys as Keys
use jwt_exchange.Services.Exchange.Machine.Weights.{stored, exchanged, exchanged-at, advance-weight}

-- A table and accepted rows as the state of Db.Replay.Interleaved.
abbrev pub at : Table → List Row → Db.System
at t acc = record { table = t; pending = []; accepted = acc }

module _ (X : Crates) (config : AppConfig) (horizon : ℤ) where
  open X use {Value, Jwk, DecodingKey, EncodingKey, decode, new_validation}

  abbrev Kept : Table → List Row → Type 0
  Kept t acc = Db.Inv config.allow_replay horizon (at t acc)

  table-Kept :
      (key : EncodingKey) (raw : String) (requested : Option (List String)) (m : Moment)
      (allow : Bool) (claims : InboundClaims Value) (sub : String) (s : Shared Jwk) (acc : List Row)
      → config.allow_replay ≡ allow
      → Kept s.used acc
      → Kept
          (at_table X config key raw requested allow m claims sub s).1.used
          (accepts_at X allow m (replay_id_of X raw claims) (expiry_of X claims) requested s acc)
  table-Kept key raw requested m true claims sub s acc mode v =
      let id = replay_id_of X raw claims in
      let exp = expiry_of X claims in
      let g = has_groups requested in
      Outcome-Inv (row id (groups_int g) exp) (at s.used acc)
        (replay_write m.faults.write id exp g s.used) [] (λ n. cc)
        (replay-Outcome m.faults.write id exp g s.used acc) v
  table-Kept key raw requested m false claims sub s acc mode v = v

  -- Each step of a task keeps the constraint of the table and its cover of the accepted rows.
  advance-Kept :
      (key : EncodingKey) (raw : String) (requested : Option (List String)) (m : Moment)
      (p : Phase X) (s : Shared Jwk) (acc : List Row)
      → Kept s.used acc
      → Kept
          (advance X config key raw requested m p s).1.used
          (accepts X config m raw requested p s acc)
  unfolding advance stamp
  advance-Kept key raw requested m arrived s acc v = v
  advance-Kept key raw requested m (looking kid) s acc v = v
  advance-Kept key raw requested m (missed kid) s acc v = v
  advance-Kept key raw requested m (checking kid uri) s acc v = v
  advance-Kept key raw requested m (passed kid uri) s acc v = v
  advance-Kept key raw requested m (waiting kid uri) s acc v = v
  advance-Kept key raw requested m (retried kid) s acc v = v
  advance-Kept key raw requested m (keyed dk) s acc v = v
  advance-Kept key raw requested m (valid claims sub) s acc v =
      table-Kept key raw requested m config.allow_replay claims sub s acc refl v
  advance-Kept key raw requested m (cleared claims sub) s acc v =
      let id = replay_id_of X raw claims in
      let exp = expiry_of X claims in
      Outcome-Inv (row id 0 exp) (at s.used acc) (strict_write m.faults.write id exp s.used) []
        (λ n. refl) (strict-Outcome m.faults.write id exp s.used acc) v
  advance-Kept key raw requested m (done r) s acc v = v

  module _ (first : CachedJwks Jwk) (raw : String) (c : InboundClaims Value)
      (claims_of : (now : ℤ) (k : DecodingKey) (v : Validation) (d : InboundClaims Value)
        → decode now raw k v ≡ ok d
        → d ≡ c)
      (kind : Option (List String) → Bool) (counts : Row → Bool)
      (row_counts : (requested : Option (List String))
        → kind requested ≡ true
        → counts (row (replay_id_of X raw c) (stored config.allow_replay requested) (expiry_of X c))
          ≡ true) where
    -- The tasks are known, the table is kept, and the tasks that gave a token for `raw` are no more
    -- than the accepted rows that count.
    pub record Inv (s : System X) : Type 0 where
      pub known : Keys.Inv X config first s
      pub kept : Kept s.shared.used s.accepted
      pub bounded : exchanged X raw kind s.tasks ≤ count counts s.accepted

    valid_claims :
        (answered : List (Answer Jwk)) (raw_token : String) (claims : InboundClaims Value)
        (sub : String)
        → Validated X config first answered raw_token claims sub
        → raw_token ≡ raw
        → claims ≡ c
    unfolding validate
    valid_claims answered raw_token claims sub (m, dk, _, v, _) same =
        claims_of m.validated_at dk (validation_for config new_validation) claims (
          subst (λ t. decode m.validated_at t dk (validation_for config new_validation) ≡ ok claims)
            same
            (map_err-eq-ok of_kind
              (decode m.validated_at raw_token dk (validation_for config new_validation)) v))

    -- An accepted row of a task for `raw` counts.
    counts_row :
        (answered : List (Answer Jwk)) (t : Task X) (claims : InboundClaims Value) (sub : String)
        → Validated X config first answered t.raw_token claims sub
        → (str_eq t.raw_token raw && kind t.requested) ≡ true
        → counts (
            row
              (replay_id_of X t.raw_token claims)
              (stored config.allow_replay t.requested)
              (expiry_of X claims))
          ≡ true
    counts_row answered t claims sub v counted =
        let for_raw = (eq_iff t.raw_token raw).0 (ground arith) in
        subst
          (λ z.
            counts (
              row (replay_id_of X z claims) (stored config.allow_replay t.requested)
                (expiry_of X claims))
            ≡ true)
          (sym for_raw)
          (subst
            (λ z.
              counts (
                row (replay_id_of X raw z) (stored config.allow_replay t.requested) (expiry_of X z))
              ≡ true)
            (sym (valid_claims answered t.raw_token claims sub v for_raw))
            (row_counts t.requested (ground arith)))

    Step-Inv : {s t : System X} → Step X config horizon s t → Inv s → Inv t
    unfolding exchanged
    Step-Inv (arrive s raw_token requested) v = record {
      known =
          Keys.Step-Inv X config first {horizon = horizon} (arrive s raw_token requested) v.known;
      kept = v.kept;
      bounded = ground (arith, v.bounded);
    }
    Step-Inv (move s m key earlier t later e) v =
        let (backed, _) =
          All-take (Keys.Known X config first s.answered) earlier later t
            (subst (All (Keys.Known X config first s.answered)) e v.known.known) in
        record {
          known =
              Keys.Step-Inv X config first {horizon = horizon} (move s m key earlier t later e)
                v.known;
          kept = advance-Kept key t.raw_token t.requested m t.phase s.shared s.accepted v.kept;
          bounded = omega (
            arith,
            v.bounded,
            subst (λ l. exchanged X raw kind l ≤ count counts s.accepted) e v.bounded,
            exchanged-at X raw kind earlier later t,
            exchanged-at X raw kind earlier later (record t {
              phase = (advance X config key t.raw_token t.requested m t.phase s.shared).0;
            }),
            advance-weight X config key t.raw_token t.requested m
                (str_eq t.raw_token raw && kind t.requested) counts first s.answered
                (counts_row s.answered t) t.phase s.shared s.accepted backed,
          );
        }
    Step-Inv (read s) v = record {
      known = Keys.Step-Inv X config first {horizon = horizon} (read s) v.known;
      kept = v.kept;
      bounded = v.bounded;
    }
    Step-Inv (renew s client uri etag earlier later e) v = record {
      known =
          Keys.Step-Inv X config first {horizon = horizon} (renew s client uri etag earlier later e)
            v.known;
      kept = v.kept;
      bounded = v.bounded;
    }
    Step-Inv (purge s f now h) v = record {
      known = Keys.Step-Inv X config first {horizon = horizon} (purge s f now h) v.known;
      kept = purge-Inv (at s.shared.used s.accepted) f now h v.kept;
      bounded = v.bounded;
    }

    pub Reach-Inv : {s t : System X} → Reach X config horizon s t → Inv s → Inv t
    Reach-Inv here v = v
    Reach-Inv (next r st) v = Step-Inv st (Reach-Inv r v)
