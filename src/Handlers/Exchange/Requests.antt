-- ===== src/Handlers/Exchange/Requests.antt =====
-- What the handler reads from a request, and the identifier that the response carries.
use Prim.Native.String.{◌++◌ as concat}
use mathlib.Core.Option.{bind}
use jwt_exchange.Prelude.{
  String, ◌≡◌, ◌≢◌, ◌↔◌, ◌⊎◌, inl, inr, refl, ap, ◌∙◌, false, Option, none, some, get_or, or_else,
  List, [], ◌∷◌, map, arith, Option-cases, Bool-cases,
}
use jwt_exchange.Result.{Result, ok, err}
use jwt_exchange.Str.{strip_prefix, is_empty_str, split, trim}
use jwt_exchange.Str.Prefix.{strip_prefix-eq-some_iff}
use jwt_exchange.Http.{header, header-set_header_self}
use jwt_exchange.Error.{ServiceError, missing_token, to_envelope}
use jwt_exchange.Error.Response.{to_error_response, error_response}
use jwt_exchange.Models.{ExchangeRequest, HttpResponse, Body, failure, exchanged}
use jwt_exchange.Middleware.{from_request, respond, call}
use jwt_exchange.Crates.{Crates}
use jwt_exchange.Config.{AppConfig}
use jwt_exchange.Auth.Jwks.{visible}
use jwt_exchange.Services.Mint.{Moment, TokenExchangeResult}
use jwt_exchange.Handlers.Exchange.{
  HttpRequest, RequestMoment, World, token_of, body_token, first_filled, filled, extract_source_ip,
  response_of, exchange,
}
use jwt_exchange.Handlers.Exchange.Audit.{exchange-eq-some, conclude-eq-some}

-- The header `Authorization` carries a token after `Bearer `.
abbrev pub Bearer : HttpRequest → String → Type 0
Bearer req t = req.header "authorization" ≡ some (some (concat "Bearer " t))

bearer : HttpRequest → Option String
bearer req = bind (visible (req.header "authorization")) (strip_prefix "Bearer ")

bearer-eq-some_iff : (req : HttpRequest) (t : String) → (bearer req ≡ some t) ↔ Bearer req t
unfolding bearer bind
bearer-eq-some_iff req t = go (req.header "authorization")
  where
    go :
        (o : Option (Option String))
        → (bind (visible o) (strip_prefix "Bearer ") ≡ some t)
          ↔ (o ≡ some (some (concat "Bearer " t)))
    go none = ground arith
    go (some none) = ground arith
    go (some (some v)) = (
      λ h. ap (λ z. some (some z)) ((strip_prefix-eq-some_iff "Bearer " v t).0 h),
      λ h. (strip_prefix-eq-some_iff "Bearer " v t).1 (cc),
    )

-- The token of a request is what follows `Bearer ` in its header, where the header begins so, and
-- else the token of its body; a header of another form is as good as none.
pub token_of-eq-some_iff :
    (req : HttpRequest) (body : Option ExchangeRequest) (t : String)
    → (token_of req body ≡ some t)
      ↔ (Bearer req t ⊎ (((u : String) → ¬ (Bearer req u)) × (body_token body ≡ some t)))
unfolding token_of bearer
token_of-eq-some_iff req body t = elim (Option-cases (bearer req)) [
  | inl n ↦ (
    λ h. inr ((λ u b. let g = (bearer-eq-some_iff req u).1 b in cc), rw (n, or_else) at h),
    λ h. elim h [
      | inl b ↦ absurd (let g = (bearer-eq-some_iff req t).1 b in cc)
      | inr (_, b) ↦ rw (n, or_else) b
    ],
  )
  | inr (u, e) ↦ (
    λ h. inl ((bearer-eq-some_iff req t).0 (e ∙ (rw (e, or_else) at h))),
    λ h. elim h [
      | inl b ↦ rw (e, or_else) (let g = (bearer-eq-some_iff req t).1 b in cc)
      | inr (other, _) ↦ absurd (other u ((bearer-eq-some_iff req u).0 e))
    ],
  )
]

filled-filled : (s t : String) → filled s ≡ some t → is_empty_str t ≡ false
filled-filled s t h = ground arith

first_filled-filled :
    (ss : List String) (t : String) → first_filled ss ≡ some t → is_empty_str t ≡ false
unfolding first_filled
first_filled-filled [] t h = absurd (ground arith)
first_filled-filled (s ∷ ss) t h = elim (Bool-cases (is_empty_str s)) [
  | inl e ↦ first_filled-filled ss t (rw e at h)
  | inr e ↦ ground arith
]

-- A choice keeps what both of its sides have.
get_or_or_else :
    (P : String → Type 0) (o o' : Option String) (d : String)
    → ((t : String) → o ≡ some t → P t)
    → P (get_or o' d)
    → P (get_or (or_else o o') d)
get_or_or_else P none o' d h k = k
get_or_or_else P (some t) o' d h k = h t refl

bind-filled :
    (o : Option String) (f : String → Option String) (t : String)
    → ((s : String) → f s ≡ some t → is_empty_str t ≡ false)
    → bind o f ≡ some t
    → is_empty_str t ≡ false
unfolding bind
bind-filled none f t h e = absurd (ground arith)
bind-filled (some s) f t h e = h s e

-- The source of a request is never an empty text, whatever its headers hold, if the address of the
-- peer is none.
pub extract_source_ip_filled :
    (req : HttpRequest)
    → ((ip : String) → req.peer_ip ≡ some ip → is_empty_str ip ≡ false)
    → is_empty_str (extract_source_ip req) ≡ false
unfolding extract_source_ip
extract_source_ip_filled req h =
    let P : String → Type 0 = λ t. is_empty_str t ≡ false in
    get_or_or_else P _ _ "unknown"
      (λ t.
        bind-filled (visible (req.header "x-forwarded-for")) _ t
          (λ s. first_filled-filled (map trim (split b',' s)) t))
      (get_or_or_else P _ _ "unknown"
        (λ t. bind-filled (visible (req.header "x-real-ip")) _ t (λ s. filled-filled (trim s) t))
        (peer req.peer_ip h))
  where
    peer :
        (o : Option String)
        → ((ip : String) → o ≡ some ip → is_empty_str ip ≡ false)
        → is_empty_str (get_or o "unknown") ≡ false
    peer none k = refl
    peer (some ip) k = k ip refl

-- A body that names no request, or this one.
abbrev pub Names : String → Body → Type 0
Names id (failure e) = e.request_id ≡ id
Names id (exchanged r) = Unit
Names id _ = ⊥

response_of-Names :
    (now id : String) (r : Result TokenExchangeResult ServiceError)
    → Names id (response_of now id r).body
unfolding response_of to_error_response to_envelope
response_of-Names now id (ok r) = tt
response_of-Names now id (err e) = refl

module _ (X : Crates) where
  open X use {Jwk, EncodingKey}

  -- Every answer to a request carries the identifier of the middleware as its header. In the body of
  -- a failure it stands too, except where the request has no token: then the body has a dash.
  pub exchange_request_id :
      (config : AppConfig) (m : Moment) (key : EncodingKey) (q : RequestMoment) (req : HttpRequest)
      (body : Option ExchangeRequest) (w w' : World Jwk) (r : Result HttpResponse ServiceError)
      (id now : String)
      → req.extension ≡ some id
      → exchange X config m key q req body w ≡ some (r, w')
      → (header (call now id (λ _. r)).headers "x-request-id" ≡ some id)
        × (((token_of req body ≡ none)
              × ((call now id (λ _. r)).body ≡ failure (to_envelope now missing_token "-")))
            ⊎ ((token_of req body ≢ none) × Names id (call now id (λ _. r)).body))
  unfolding call respond error_response from_request
  exchange_request_id config m key q req body w w' r id now x h = (
    header-set_header_self (respond now r).headers "x-request-id" id,
    elim (exchange-eq-some X config m key q req body w w' r h) [
      | inl (n, p, _) ↦ inl (n, rw p refl)
      | inr (raw, response, n, p, _, c) ↦
          let (_, answer) = conclude-eq-some X q req _ w.sinks w'.sinks response c in
          inr ((λ e. cc), rw (p, answer, x) (response_of-Names q.now id _))
    ],
  )
