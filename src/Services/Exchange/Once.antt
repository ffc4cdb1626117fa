-- ===== src/Services/Exchange/Once.antt =====
-- Two exchanges of one token: `exchange_token` of src/services/token_service.rs over a history of the
-- table.
use mathlib.Core.Path.{ap₂}
use jwt_exchange.Prelude.{String, ◌≡◌, ◌≢◌, sym, ap, ◌∙◌, Bool, false, Option, none, List, All}
use jwt_exchange.Prelude.Int.{ℤ}
use jwt_exchange.Result.{ok}
use jwt_exchange.Crates.{Crates, InboundClaims, Validation}
use jwt_exchange.Config.{AppConfig}
use jwt_exchange.Db.Replay.{Table, Faults, check_and_record_jti}
use jwt_exchange.Db.Replay.History.{Action, run, Before, strict_second_use}
use jwt_exchange.Services.Mint.{Moment, TokenExchangeResult, has_groups, replay_id_of, expiry_of}
use jwt_exchange.Services.Exchange.{Shared, exchange_token}
use jwt_exchange.Services.Exchange.Minted.{IsMinted, exchange_token-IsMinted}

clash :
    (f f' : Faults) (jti : String) (exp exp' : ℤ) (allow allow' g g' : Bool) (t t₁ u : Table)
    (history : List Action)
    → check_and_record_jti f jti exp allow g t ≡ (ok false, t₁)
    → allow' ≡ false
    → All (Before exp) history
    → f'.read ≡ none
    → check_and_record_jti f' jti exp' allow' g' (run history t₁) ≡ (ok false, u)
    → ⊥
clash f f' jti exp exp' allow allow' g g' t t₁ u history first strict before reads second =
    let again =
      strict_second_use f f' jti exp exp' allow g g' t history (ap (λ p. p.0) first) before reads in
    let accepted : (check_and_record_jti f' jti exp' false g'
          (run history (check_and_record_jti f jti exp allow g t).1)).0
        ≡ ok false =
      ap₂ (λ a x. (check_and_record_jti f' jti exp' a g' (run history x)).0) (sym strict)
        (ap (λ p. p.1) first)
      ∙ ap (λ p. p.0) second in
    cc

module _ (X : Crates) where
  open X use {Value, Jwk, DecodingKey, EncodingKey, decode}

  -- The claims of a token are its payload: two validations that accept one token give the same.
  abbrev pub ClaimsFixed : Type 0
  ClaimsFixed =
      (raw : String) (now now' : ℤ) (k k' : DecodingKey) (v v' : Validation)
      (c c' : InboundClaims Value)
      → decode now raw k v ≡ ok c
      → decode now' raw k' v' ≡ ok c'
      → c ≡ c'

  -- After a token was exchanged, in either mode, no later exchange of it in the strict mode succeeds,
  -- whatever groups it asks for and however the keys, the configuration and the clock have changed,
  -- if the claims of a token are fixed, the table went only through calls for tokens and purges
  -- whose clock was not past the token's expiry, and the later exchange reads the table.
  pub exchange_once :
      (config config' : AppConfig) (m m' : Moment) (key key' : EncodingKey) (raw_token : String)
      (requested requested' : Option (List String)) (s s₁ s₂ : Shared Jwk) (history : List Action)
      (result result' : TokenExchangeResult)
      → ClaimsFixed
      → (t : IsMinted X config m key raw_token requested s s₁ result) → config'.allow_replay ≡ false
      → All (Before (expiry_of X t.claims)) history
      → s₂.used ≡ run history s₁.used
      → m'.faults.read ≡ none
      → (exchange_token X config' m' key' raw_token requested' s₂).0 ≢ ok result'
  exchange_once config config' m m' key key' raw_token requested requested' s s₁ s₂ history result
        result' fixed t strict before table reads h =
      let s' = (exchange_token X config' m' key' raw_token requested' s₂).1 in
      let t' =
        exchange_token-IsMinted X config' m' key' raw_token requested' s₂ s' result'
          (λ i. (h i, s')) in
      let same : t.claims ≡ t'.claims = fixed raw_token _ _ _ _ _ _ _ _ t.decoded t'.decoded in
      clash m.faults m'.faults (replay_id_of X raw_token t.claims) (expiry_of X t.claims)
        (expiry_of X t'.claims) config.allow_replay config'.allow_replay (has_groups requested)
        (has_groups requested') s.used s₁.used s'.used history t.fresh strict before reads
        (ap₂
            (λ u c.
              check_and_record_jti m'.faults (replay_id_of X raw_token c) (expiry_of X t'.claims)
                config'.allow_replay (has_groups requested') u)
            (sym table) same
          ∙ t'.fresh)
