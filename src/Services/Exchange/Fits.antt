-- ===== src/Services/Exchange/Fits.antt =====
-- The failures that an exchange of src/services/token_service.rs can have, as a predicate on results.
use jwt_exchange.Prelude.{
  String, ◌≡◌, refl, Bool, true, false, Option, none, some, List, ℕ, arith, if◌then◌else◌, is_empty,
}
use jwt_exchange.Result.{Result, ok, err, map_err, ok_or, ◌>>=◌}
use jwt_exchange.Error.{
  ServiceError, missing_token, malformed_token, idp_unavailable, cert_not_loaded, internal_error,
  database,
}
use jwt_exchange.Crates.{ErrorKind}
use jwt_exchange.Services.Groups.{filter_groups}
use jwt_exchange.Services.Mint.{of_kind}

-- The failures that an exchange can have.
abbrev pub is_exchange_failure : ServiceError → Bool
is_exchange_failure missing_token = false
is_exchange_failure idp_unavailable = false
is_exchange_failure cert_not_loaded = false
is_exchange_failure internal_error = false
is_exchange_failure (database _) = false
is_exchange_failure _ = true

unfoldable pub Fits {ℓ} : {A : Type ℓ} → Result A ServiceError → Type 0
Fits (ok a) = Unit
Fits (err e) = is_exchange_failure e ≡ true

pub ok-Fits {ℓ} : {A : Type ℓ} (a : A) → Fits {A = A} (ok a)
unfolding Fits
ok-Fits a = tt

pub err-Fits {ℓ} :
    (A : Type ℓ) (e : ServiceError) → is_exchange_failure e ≡ true → Fits {A = A} (err e)
unfolding Fits
err-Fits A e h = h

-- A failure that is passed on fits too.
pub passed-Fits {ℓ κ} :
    {A : Type ℓ} (B : Type κ) (r : Result A ServiceError) (e : ServiceError)
    → r ≡ err e
    → Fits r
    → Fits {A = B} (err e)
unfolding Fits
passed-Fits B (ok a) e h k = absurd (ground arith)
passed-Fits B (err x) e h k = ground arith

pub map_err-Fits {ℓ κ} :
    {A : Type ℓ} {E : Type κ} (f : E → ServiceError) (r : Result A E)
    → ((e : E) → is_exchange_failure (f e) ≡ true)
    → Fits (map_err f r)
unfolding Fits
map_err-Fits f (ok a) h = tt
map_err-Fits f (err e) h = h e

pub ok_or-Fits {ℓ} :
    {A : Type ℓ} (o : Option A) (e : ServiceError) → is_exchange_failure e ≡ true → Fits (ok_or o e)
unfolding Fits
ok_or-Fits (some a) e h = tt
ok_or-Fits none e h = h

pub >>=-Fits {ℓ κ} :
    {A : Type ℓ} {B : Type κ} (r : Result A ServiceError) (f : A → Result B ServiceError)
    → Fits r
    → ((a : A) → Fits (f a))
    → Fits (r >>= f)
unfolding Fits
>>=-Fits (ok a) f h k = k a
>>=-Fits (err e) f h k = h

pub if-Fits {ℓ} :
    {A : Type ℓ} (c : Bool) (r r' : Result A ServiceError)
    → Fits r
    → Fits r'
    → Fits (if c then r else r')
unfolding Fits
if-Fits true r r' h k = h
if-Fits false r r' h k = k

pub of_kind-Fits : (k : ErrorKind) → is_exchange_failure (of_kind k) ≡ true
unfolding of_kind
of_kind-Fits ErrorKind.expired_signature = refl
of_kind-Fits ErrorKind.invalid_issuer = refl
of_kind-Fits ErrorKind.invalid_audience = refl
of_kind-Fits ErrorKind.invalid_signature = refl
of_kind-Fits ErrorKind.invalid_token = refl
of_kind-Fits ErrorKind.another = refl

pub filter_groups-Fits :
    (requested : Option (List String)) (whitelist : List String) (n k : ℕ)
    → Fits (filter_groups requested whitelist n k)
unfolding filter_groups
filter_groups-Fits none whitelist n k = ok-Fits none
filter_groups-Fits (some groups) whitelist n k = if-Fits (is_empty whitelist) _ _ (ok-Fits none) (
    if-Fits _ _ _ (err-Fits _ malformed_token refl)
      (if-Fits _ _ _ (err-Fits _ malformed_token refl) (ok-Fits _)))
