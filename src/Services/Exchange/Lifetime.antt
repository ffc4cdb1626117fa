-- ===== src/Services/Exchange/Lifetime.antt =====
-- The lifetime of a minted token, in the `i64` seconds of the clock.
use mathlib.Core.Path.{subst}
use jwt_exchange.Prelude.{String, ◌≡◌, sym, ap, ◌∙◌, Option, List, arith}
use jwt_exchange.Prelude.Int.{
  ℤ, pos, ◌+ℤ◌, ◌-ℤ◌, ◌≤ℤ◌, ◌<ℤ◌, min_ℤ, wrap_i64, i64_max, IsI64, wrap_i64-eq_self, int_laws,
  +ℤ_parts, -ℤ_parts,
}
use jwt_exchange.Crates.{Crates}
use jwt_exchange.Config.{AppConfig}
use jwt_exchange.Services.Mint.{Moment, TokenExchangeResult, expiry_of, expiry, qlik_claims}
use jwt_exchange.Services.Exchange.{Shared}
use jwt_exchange.Services.Exchange.Minted.{IsMinted}

min_bounds : (a b : ℤ) → (min_ℤ a b ≤ℤ a) × (min_ℤ a b ≤ℤ b)
min_bounds a b = ground arith

min-nonneg : (a b : ℤ) → pos 0 ≤ℤ a → pos 0 ≤ℤ b → pos 0 ≤ℤ min_ℤ a b
min-nonneg a b h k = ground arith

min-right : (a b : ℤ) → b <ℤ a → min_ℤ a b ≡ b
min-right a b h = ground arith

le-trans_ℤ : (a b c : ℤ) → a ≤ℤ b → b ≤ℤ c → a ≤ℤ c
le-trans_ℤ a b c h k = omega arith

add-sub : (a b : ℤ) → a +ℤ (b -ℤ a) ≡ b
add-sub a b = omega int_laws

nonneg-IsI64 : (a : ℤ) → pos 0 ≤ℤ a → a ≤ℤ i64_max → IsI64 a
nonneg-IsI64 a h k = (omega arith, k)

difference-IsI64 :
    (a b : ℤ) → pos 0 ≤ℤ a → a ≤ℤ i64_max → pos 0 ≤ℤ b → b ≤ℤ i64_max → IsI64 (a -ℤ b)
difference-IsI64 a b p q r s = (omega (arith, -ℤ_parts a b), omega (arith, -ℤ_parts a b))

-- The expiry of a minted token, on the numbers that it is made of.
abbrev capped : ℤ → ℤ → ℤ → ℤ
capped now ttl inbound = min_ℤ (wrap_i64 (now +ℤ ttl)) inbound

module _ (now ttl inbound : ℤ) (now_nonneg : pos 0 ≤ℤ now) (ttl_nonneg : pos 0 ≤ℤ ttl)
    (fits : now +ℤ ttl ≤ℤ i64_max) (inbound_nonneg : pos 0 ≤ℤ inbound) where
  sum_nonneg : pos 0 ≤ℤ now +ℤ ttl
  sum_nonneg = omega (arith, +ℤ_parts now ttl)

  capped-eq : capped now ttl inbound ≡ min_ℤ (now +ℤ ttl) inbound
  capped-eq =
      ap (λ a. min_ℤ a inbound)
        (wrap_i64-eq_self (now +ℤ ttl) (nonneg-IsI64 (now +ℤ ttl) sum_nonneg fits))

  lifetime_exact : now +ℤ wrap_i64 (min_ℤ (now +ℤ ttl) inbound -ℤ now) ≡ min_ℤ (now +ℤ ttl) inbound
  lifetime_exact =
      let last = min_ℤ (now +ℤ ttl) inbound in
      let (p, q) = min_bounds (now +ℤ ttl) inbound in
      let r = min-nonneg (now +ℤ ttl) inbound sum_nonneg inbound_nonneg in
      let range : IsI64 (last -ℤ now) =
        difference-IsI64 last now r (le-trans_ℤ last (now +ℤ ttl) i64_max p fits) now_nonneg
          (omega (arith, +ℤ_parts now ttl)) in
      ap (λ d. now +ℤ d) (wrap_i64-eq_self (last -ℤ now) range) ∙ add-sub now last

  lifetime :
      (capped now ttl inbound ≤ℤ inbound)
      × (capped now ttl inbound ≤ℤ now +ℤ ttl)
      × (now +ℤ wrap_i64 (capped now ttl inbound -ℤ now) ≡ capped now ttl inbound)
  lifetime =
      let (p, q) = min_bounds (now +ℤ ttl) inbound in
      (
        subst (λ e. e ≤ℤ inbound) (sym capped-eq) q,
        subst (λ e. e ≤ℤ now +ℤ ttl) (sym capped-eq) p,
        subst (λ e. now +ℤ wrap_i64 (e -ℤ now) ≡ e) (sym capped-eq) lifetime_exact,
      )

past :
    (now ttl inbound : ℤ)
    → now ≤ℤ i64_max
    → pos 0 ≤ℤ inbound
    → pos 0 ≤ℤ ttl
    → now +ℤ ttl ≤ℤ i64_max
    → inbound <ℤ now
    → (capped now ttl inbound ≡ inbound) × (wrap_i64 (capped now ttl inbound -ℤ now) <ℤ pos 0)
past now ttl inbound h₁ h₂ h₃ h₄ h₅ =
    let now_nonneg : pos 0 ≤ℤ now = omega arith in
    let e : capped now ttl inbound ≡ inbound =
      capped-eq now ttl inbound now_nonneg h₃ h₄ h₂
      ∙ min-right (now +ℤ ttl) inbound (omega (arith, +ℤ_parts now ttl)) in
    let range : IsI64 (inbound -ℤ now) =
      difference-IsI64 inbound now h₂ (omega arith) now_nonneg h₁ in
    (
      e,
      subst (λ d. d <ℤ pos 0)
          (sym (ap (λ x. wrap_i64 (x -ℤ now)) e ∙ wrap_i64-eq_self (inbound -ℤ now) range))
          (omega (arith, -ℤ_parts inbound now)),
    )

module _ (X : Crates) where
  open X use {Jwk, EncodingKey}

  -- Where the clock and the lifetime are not negative and their sum is an `i64`, and the inbound token
  -- has no negative expiry, the minted token expires no later than the inbound one and no later than
  -- the configured lifetime allows, and `expires_in` is exactly its expiry less its time of issue.
  pub exchange_lifetime :
      (config : AppConfig) (m : Moment) (key : EncodingKey) (raw_token : String)
      (requested : Option (List String)) (s s' : Shared Jwk) (result : TokenExchangeResult)
      (t : IsMinted X config m key raw_token requested s s' result)
      → pos 0 ≤ℤ m.minted_at
      → pos 0 ≤ℤ config.token_ttl_seconds
      → m.minted_at +ℤ config.token_ttl_seconds ≤ℤ i64_max
      → pos 0 ≤ℤ expiry_of X t.claims
      → ((qlik_claims X config m t.claims result.outbound_sub t.groups).exp ≤ℤ expiry_of X t.claims)
        × ((qlik_claims X config m t.claims result.outbound_sub t.groups).exp
            ≤ℤ m.minted_at +ℤ config.token_ttl_seconds)
        × (m.minted_at +ℤ result.expires_in
            ≡ (qlik_claims X config m t.claims result.outbound_sub t.groups).exp)
  unfolding qlik_claims expiry
  exchange_lifetime config m key raw_token requested s s' result t h₁ h₂ h₃ h₄ =
      let (inbound, configured, exact) =
        lifetime m.minted_at config.token_ttl_seconds (expiry_of X t.claims) h₁ h₂ h₃ h₄ in
      (
        inbound,
        configured,
        ap (λ (r : TokenExchangeResult). m.minted_at +ℤ r.expires_in) t.reported ∙ exact,
      )

  -- A token whose inbound expiry lies before the clock at the time of minting, as the leeway of the
  -- validation allows, is minted all the same, with an expiry in the past and a negative lifetime.
  pub exchange_within_leeway :
      (config : AppConfig) (m : Moment) (key : EncodingKey) (raw_token : String)
      (requested : Option (List String)) (s s' : Shared Jwk) (result : TokenExchangeResult)
      (t : IsMinted X config m key raw_token requested s s' result)
      → m.minted_at ≤ℤ i64_max
      → pos 0 ≤ℤ expiry_of X t.claims
      → pos 0 ≤ℤ config.token_ttl_seconds
      → m.minted_at +ℤ config.token_ttl_seconds ≤ℤ i64_max
      → expiry_of X t.claims <ℤ m.minted_at
      → ((qlik_claims X config m t.claims result.outbound_sub t.groups).exp ≡ expiry_of X t.claims)
        × (result.expires_in <ℤ pos 0)
  unfolding qlik_claims expiry
  exchange_within_leeway config m key raw_token requested s s' result t h₁ h₂ h₃ h₄ h₅ =
      let (capped, negative) =
        past m.minted_at config.token_ttl_seconds (expiry_of X t.claims) h₁ h₂ h₃ h₄ h₅ in
      (
        capped,
        subst (λ e. e <ℤ pos 0) (sym (ap (λ (r : TokenExchangeResult). r.expires_in) t.reported))
            negative,
      )
