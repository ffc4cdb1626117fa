-- ===== src/Services/Exchange/Machine/Tests.antt =====
-- Two whole exchanges of one token whose steps alternate, so that both read the table before either
-- writes, and the theorems at them.
use mathlib.Core.Option.{bind}
use jwt_exchange.Prelude.{
  List, All, ◌≤◌, String, ◌≡◌, refl, sym, true, false, Bool-cases, none, some, [], ◌∷◌, arith,
  str_eq, inl, inr,
}
use jwt_exchange.Prelude.Int.{ℤ, pos, wrap_i64, ◌-ℤ◌, ◌+ℤ◌}
use jwt_exchange.Result.{Result, ok, err}
use jwt_exchange.Error.{ServiceError, other, replay_detected}
use jwt_exchange.Maps.{lookup, insert}
use jwt_exchange.Crates.{InboundClaims, ErrorKind, Validation}
use jwt_exchange.Crates.Sample.{sample, sample_claims, answering}
use jwt_exchange.Config.{AppConfig}
use jwt_exchange.Http.{is_success}
use jwt_exchange.Auth.Jwks.{
  CachedJwks, index_keys, read_jwks, fetch_jwks_with_etag, cooling, gate, stamp, settle,
}
use jwt_exchange.Auth.Jwks.Interleaved.{Answer, answer}
use jwt_exchange.Db.Replay.{Table, select_jti, replay_write, strict_write}
use jwt_exchange.Db.Replay.Table.{KeysUnique, count}
use jwt_exchange.Str.{split, as_bytes}
use jwt_exchange.Services.Base64.{base64url_decode}
use jwt_exchange.Services.Groups.{filter_groups}
use jwt_exchange.Services.Kid.{kid_of_header, extract_kid}
use jwt_exchange.Services.Mint.{
  Moment, TokenExchangeResult, validate, mint, expiry, replay_id_of, validation_for, of_kind,
  qlik_claims,
}
use jwt_exchange.Services.Exchange.{Shared, key_of, audience_text, exchange_token}
use jwt_exchange.Services.Exchange.Tests.{config, moment, fresh, token, result_at}
use jwt_exchange.Services.Exchange.Machine.{
  Phase, arrived, looking, missed, checking, passed, waiting, retried, keyed, valid, cleared, done,
  conclude, advance, drive,
}
use jwt_exchange.Services.Exchange.Machine.Ends.{HasResult, interrupted, interrupted_ends}
use jwt_exchange.Services.Exchange.Machine.Whole.{drive-exchange_token}
use jwt_exchange.Services.Exchange.Machine.Tasks.{
  Task, System, arrive, move, Reach, here, next, start,
}
use jwt_exchange.Services.Exchange.Machine.Backing.{MadeFrom}
use jwt_exchange.Services.Exchange.Machine.Keys.{reached-MadeFrom}
use jwt_exchange.Services.Exchange.Machine.Weights.{exchanged}
use jwt_exchange.Services.Exchange.Machine.AtMostOnce.{
  grouped, exchanged_at_most_once, exchanged_per_groups,
}

abbrev at : Phase sample → Task sample
at p = record { raw_token = token; requested = none; phase = p }

abbrev with_table : Table → Phase sample → Phase sample → System sample
with_table t p q = record {
  shared = record fresh { used = t };
  tasks = at p ∷ at q ∷ [];
  background = [];
  accepted = t;
  answered = [];
}

abbrev used_row : Table
used_row = (record { jti = "jti-1"; has_groups = 0; exp = pos 5000 }) ∷ []

abbrev replayed : Result TokenExchangeResult ServiceError
replayed = err (replay_detected "alice" (some "https://idp") (some "qlik") "jti-1")

drive-exchange_token_example : drive sample config "key" token none moment 10 arrived fresh ≡ (
  done (exchange_token sample config moment "key" token none fresh).0,
  (exchange_token sample config moment "key" token none fresh).1,
)
drive-exchange_token_example = drive-exchange_token sample config "key" token none moment fresh

-- The second write of a race ends with the error of the primary key.
abbrev conflict : Result TokenExchangeResult ServiceError
conflict = err (other "UNIQUE constraint failed: used_jti.jti, used_jti.has_groups")

abbrev minted_task : Phase sample
minted_task = done (ok (result_at (pos 3000)))

abbrev one_task : System sample
one_task = record {
  shared = fresh;
  tasks = at arrived ∷ [];
  background = [];
  accepted = [];
  answered = [];
}

race :
    Reach sample config
      (pos 5000)
      (start sample fresh)
      (with_table used_row (done conflict) minted_task)
unfolding advance conclude validate mint qlik_claims expiry extract_kid kid_of_header split
    base64url_decode select_jti strict_write key_of filter_groups replay_id_of audience_text of_kind
    validation_for as_bytes bind lookup wrap_i64 ◌-ℤ◌ ◌+ℤ◌
race =
    next
      (next
        (next
          (next
            (next
              (next
                (next
                  (next
                    (next
                      (next
                        (next (next here (arrive (start sample fresh) token none))
                          (arrive one_task token none))
                        (move (with_table [] arrived arrived) moment "key" [] (at arrived)
                          (at arrived ∷ []) refl))
                      (move (with_table [] (looking "k1") arrived) moment "key"
                        (at (looking "k1") ∷ []) (at arrived) [] refl))
                    (move (with_table [] (looking "k1") (looking "k1")) moment "key" []
                      (at (looking "k1")) (at (looking "k1") ∷ []) refl))
                  (move (with_table [] (keyed "k1") (looking "k1")) moment "key"
                    (at (keyed "k1") ∷ []) (at (looking "k1")) [] refl))
                (move (with_table [] (keyed "k1") (keyed "k1")) moment "key" [] (at (keyed "k1"))
                  (at (keyed "k1") ∷ []) refl))
              (move (with_table [] (valid sample_claims "alice") (keyed "k1")) moment "key"
                (at (valid sample_claims "alice") ∷ []) (at (keyed "k1")) [] refl))
            (move (with_table [] (valid sample_claims "alice") (valid sample_claims "alice")) moment
              "key" [] (at (valid sample_claims "alice")) (at (valid sample_claims "alice") ∷ [])
              refl))
          (move (with_table [] (cleared sample_claims "alice") (valid sample_claims "alice")) moment
            "key" (at (cleared sample_claims "alice") ∷ []) (at (valid sample_claims "alice")) []
            refl))
        (move (with_table [] (cleared sample_claims "alice") (cleared sample_claims "alice")) moment
          "key" (at (cleared sample_claims "alice") ∷ []) (at (cleared sample_claims "alice")) []
          refl))
      (move (with_table used_row (cleared sample_claims "alice") minted_task) moment "key" []
        (at (cleared sample_claims "alice")) (at minted_task ∷ []) refl)

abbrev allowing : AppConfig
allowing = record config { allow_replay = true }

replay_race :
    Reach sample allowing
      (pos 5000)
      (start sample fresh)
      (with_table used_row (done replayed) minted_task)
unfolding advance conclude validate mint qlik_claims expiry extract_kid kid_of_header split
    base64url_decode replay_write key_of filter_groups replay_id_of audience_text of_kind
    validation_for as_bytes bind lookup wrap_i64 ◌-ℤ◌ ◌+ℤ◌
replay_race =
    next
      (next
        (next
          (next
            (next
              (next
                (next
                  (next
                    (next (next here (arrive (start sample fresh) token none))
                      (arrive one_task token none))
                    (move (with_table [] arrived arrived) moment "key" [] (at arrived)
                      (at arrived ∷ []) refl))
                  (move (with_table [] (looking "k1") arrived) moment "key" (at (looking "k1") ∷ [])
                    (at arrived) [] refl))
                (move (with_table [] (looking "k1") (looking "k1")) moment "key" []
                  (at (looking "k1")) (at (looking "k1") ∷ []) refl))
              (move (with_table [] (keyed "k1") (looking "k1")) moment "key" (at (keyed "k1") ∷ [])
                (at (looking "k1")) [] refl))
            (move (with_table [] (keyed "k1") (keyed "k1")) moment "key" [] (at (keyed "k1"))
              (at (keyed "k1") ∷ []) refl))
          (move (with_table [] (valid sample_claims "alice") (keyed "k1")) moment "key"
            (at (valid sample_claims "alice") ∷ []) (at (keyed "k1")) [] refl))
        (move (with_table [] (valid sample_claims "alice") (valid sample_claims "alice")) moment
          "key" (at (valid sample_claims "alice") ∷ []) (at (valid sample_claims "alice")) [] refl))
      (move (with_table used_row (valid sample_claims "alice") minted_task) moment "key" []
        (at (valid sample_claims "alice")) (at minted_task ∷ []) refl)

sample_claims_of :
    (now : ℤ) (k : String) (v : Validation) (d : InboundClaims String)
    → sample.decode now token k v ≡ ok d
    → d ≡ sample_claims
sample_claims_of now k v d h = elim (Bool-cases (str_eq k "k1")) [
  | inl e ↦ sym (inj (rw e at h))
  | inr e ↦ absurd (let g = rw e at h in ground arith)
]
  where
    inj :
        {a b : InboundClaims String}
        → ◌≡◌ {A = Result (InboundClaims String) ErrorKind} (ok a) (ok b)
        → a ≡ b
    inj e = cc

empty-KeysUnique : KeysUnique []
unfolding count
empty-KeysUnique jti g = omega arith

exchanged_at_most_once_example :
    exchanged sample token
      (λ requested. true)
      (with_table used_row (done conflict) minted_task).tasks
    ≤ 1
exchanged_at_most_once_example =
    exchanged_at_most_once sample config (pos 5000) token sample_claims (omega arith)
      sample_claims_of fresh (with_table used_row (done conflict) minted_task) refl empty-KeysUnique
      race

exchanged_per_groups_example :
    exchanged sample token (grouped false) (with_table used_row (done replayed) minted_task).tasks
    ≤ 1
exchanged_per_groups_example =
    exchanged_per_groups sample allowing (pos 5000) token sample_claims (omega arith)
      sample_claims_of fresh (with_table used_row (done replayed) minted_task) false refl
      empty-KeysUnique replay_race

-- A task whose key is not in the cache at the start.
abbrev empty : Shared String
empty = record fresh { cache = record fresh.cache { keys_by_kid = [] } }

abbrev stamped : CachedJwks String
stamped = record empty.cache { last_force_refresh = some 1000 }

abbrev renewed : CachedJwks String
renewed = record stamped { keys_by_kid = ("k1", "k1") ∷ [] }

abbrev one_answer : List (Answer String)
one_answer = answer sample answering "https://idp/keys" none ∷ []

abbrev alone : CachedJwks String → Table → List (Answer String) → Phase sample → System sample
alone c t answered p = record {
  shared = record { cache = c; used = t };
  tasks = at p ∷ [];
  background = [];
  accepted = t;
  answered = answered;
}

refreshed_run :
    Reach sample config
      (pos 5000)
      (start sample empty)
      (alone renewed used_row one_answer minted_task)
unfolding advance conclude validate mint qlik_claims expiry extract_kid kid_of_header split
    base64url_decode select_jti strict_write key_of filter_groups replay_id_of audience_text of_kind
    validation_for as_bytes bind lookup wrap_i64 ◌-ℤ◌ ◌+ℤ◌ gate cooling stamp settle
    fetch_jwks_with_etag read_jwks index_keys insert is_success
refreshed_run =
    next
      (next
        (next
          (next
            (next
              (next
                (next
                  (next
                    (next
                      (next (next here (arrive (start sample empty) token none)) (
                        move (alone empty.cache [] [] arrived) moment "key" [] (at arrived) []
                          refl))
                      (move (alone empty.cache [] [] (looking "k1")) moment "key" []
                        (at (looking "k1")) [] refl))
                    (move (alone empty.cache [] [] (missed "k1")) moment "key" [] (at (missed "k1"))
                      [] refl))
                  (move (alone empty.cache [] [] (checking "k1" "https://idp/keys")) moment "key" []
                    (at (checking "k1" "https://idp/keys")) [] refl))
                (move (alone empty.cache [] [] (passed "k1" "https://idp/keys")) moment "key" []
                  (at (passed "k1" "https://idp/keys")) [] refl))
              (move (alone stamped [] [] (waiting "k1" "https://idp/keys")) moment "key" []
                (at (waiting "k1" "https://idp/keys")) [] refl))
            (move (alone renewed [] one_answer (retried "k1")) moment "key" [] (at (retried "k1"))
              [] refl))
          (move (alone renewed [] one_answer (keyed "k1")) moment "key" [] (at (keyed "k1")) []
            refl))
        (move (alone renewed [] one_answer (valid sample_claims "alice")) moment "key" []
          (at (valid sample_claims "alice")) [] refl))
      (move (alone renewed [] one_answer (cleared sample_claims "alice")) moment "key" []
        (at (cleared sample_claims "alice")) [] refl)

reached-MadeFrom_example :
    All (λ a. a.uri ≡ empty.cache.jwks_uri) one_answer
    × MadeFrom sample config empty.cache one_answer token none (result_at (pos 3000))
reached-MadeFrom_example =
    reached-MadeFrom sample config (pos 5000) empty (alone renewed used_row one_answer minted_task)
      [] [] (at minted_task) (result_at (pos 3000)) refreshed_run refl refl

-- The cache that another task's refresh has emptied, and the table that another exchange has filled.
abbrev views : List (Moment × Shared String)
views =
    (moment, fresh)
    ∷ (moment, record fresh { cache = record fresh.cache { keys_by_kid = [] } })
    ∷ (moment, fresh)
    ∷ (moment, fresh)
    ∷ (moment, fresh)
    ∷ (moment, fresh)
    ∷ (moment, fresh)
    ∷ (moment, fresh)
    ∷ (moment, fresh)
    ∷ (moment, record fresh { used = used_row })
    ∷ []

interrupted_ends_example :
    HasResult sample (interrupted sample config "key" token none views arrived)
interrupted_ends_example = interrupted_ends sample config "key" token none views (omega arith)
