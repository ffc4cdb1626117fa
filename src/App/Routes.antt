-- ===== src/App/Routes.antt =====
-- The routes of src/app.rs with the middleware of src/middleware.rs around them: what the running
-- service answers to a request.
use jwt_exchange.Prelude.{
  ℕ, String, ◌≡◌, ◌≢◌, refl, ap, ◌∙◌, Bool, true, false, ◌&&◌, Option, none, some, arith, str_eq,
  eq_iff, Bool-cases, if◌then◌else◌, ◌⊎◌, inl, inr,
}
use jwt_exchange.Result.{Result, ok, err}
use jwt_exchange.Http.{header, header-set_header_self}
use jwt_exchange.Error.{ServiceError}
use jwt_exchange.Models.{ExchangeRequest, HttpResponse}
use jwt_exchange.Middleware.{call, respond}
use jwt_exchange.Crates.{Crates}
use jwt_exchange.Db.Replay.{Fault}
use jwt_exchange.Db.Pool.{Storage, check_connection}
use jwt_exchange.Services.Mint.{Moment}
use jwt_exchange.Handlers.Probes.{cert, health}
use jwt_exchange.Handlers.Exchange.{HttpRequest, RequestMoment, World, exchange}
use jwt_exchange.App.{AppState}

pub data Route : Type 0 where
  to_exchange to_cert to_health unmatched : Route

-- The three routes, each of one path and one method.
unfoldable pub route_of : (method path : String) → Route
route_of method path =
    if str_eq path "/api/v1/exchange" && str_eq method "POST"
    then to_exchange
    else if str_eq path "/api/v1/cert" && str_eq method "GET"
    then to_cert
    else if str_eq path "/api/v1/health" && str_eq method "GET"
    then to_health
    else unmatched

route_cases :
    (method path : String)
    → ((path ≡ "/api/v1/exchange") × (method ≡ "POST")) ⊎ (route_of method path ≢ to_exchange)
unfolding route_of
route_cases method path =
    elim (Bool-cases (str_eq path "/api/v1/exchange" && str_eq method "POST")) [
      | inl h ↦
          inl (ground (arith, eq_iff path "/api/v1/exchange"), ground (arith, eq_iff method "POST"))
      | inr h ↦ inr (λ e. ground arith)
    ]

pub record Incoming : Type 0 where
  pub method : String
  pub path : String
  pub http : HttpRequest
  pub body : Option ExchangeRequest

-- What one request meets: the time for the answer of a failure, the identifier that the middleware
-- makes, what the exchange and its audit meet, and what the probe of the health meets.
pub record Visit : Type 0 where
  pub now : String
  pub request_id : String
  pub moment : Moment
  pub attempt : RequestMoment
  pub ping_fault : Fault
  pub uptime : ℕ

abbrev pub succeeded : Result (Unit {0}) String → Bool
succeeded (ok _) = true
succeeded (err e) = false

module _ (X : Crates) (fallback : Incoming → HttpResponse) where
  open X use {Jwk, EncodingKey}

  -- What a route's handler answers, and the state after it; `none` is a panic. `fallback` is what
  -- actix answers where no route matches.
  unfoldable pub handle :
      Route
      → AppState Jwk EncodingKey
      → Storage
      → Visit
      → Incoming
      → World Jwk
      → Option (Result HttpResponse ServiceError × World Jwk)
  handle to_exchange state pool v i w =
      exchange X state.config v.moment state.encoding_key v.attempt
        (record i.http { extension = some v.request_id }) i.body w
  handle to_cert state pool v i w = some (cert state.public_cert, w)
  handle to_health state pool v i w =
      some (ok (health w.shared.cache (succeeded (check_connection pool v.ping_fault)) v.uptime), w)
  handle unmatched state pool v i w = some (ok (fallback i), w)

  abbrev answered :
      Visit
      → Option (Result HttpResponse ServiceError × World Jwk)
      → Option (HttpResponse × World Jwk)
  answered v none = none
  answered v (some (r, w)) = some (call v.now v.request_id (λ _. r), w)

  -- The service that a server runs.
  unfoldable pub serve :
      AppState Jwk EncodingKey
      → Storage
      → Visit
      → Incoming
      → World Jwk
      → Option (HttpResponse × World Jwk)
  unfolding handle route_of
  serve state pool v i w = answered v (handle (route_of i.method i.path) state pool v i w)

  answered-header :
      (v : Visit) (o : Option (Result HttpResponse ServiceError × World Jwk)) (r : HttpResponse)
      (w : World Jwk)
      → answered v o ≡ some (r, w)
      → header r.headers "x-request-id" ≡ some v.request_id
  unfolding call
  answered-header v none r w h = absurd (ground arith)
  answered-header v (some (q, u)) r w h =
      ap (λ (x : HttpResponse). header x.headers "x-request-id") (first h)
      ∙ header-set_header_self (respond v.now q).headers "x-request-id" v.request_id
    where
      first :
          {a b : HttpResponse} {c d : World Jwk}
          → ◌≡◌ {A = Option (HttpResponse × World Jwk)} (some (a, c)) (some (b, d))
          → b ≡ a
      first e = cc

  -- A route other than the exchange answers, and changes nothing.
  answered-kept :
      (x : Route) (state : AppState Jwk EncodingKey) (pool : Storage) (v : Visit) (i : Incoming)
      (w : World Jwk)
      → x ≢ to_exchange
      → (r : HttpResponse) × (answered v (handle x state pool v i w) ≡ some (r, w))
  unfolding handle
  answered-kept to_exchange state pool v i w h = absurd (h refl)
  answered-kept to_cert state pool v i w h =
      (call v.now v.request_id (λ _. cert state.public_cert), refl)
  answered-kept to_health state pool v i w h = (_, refl)
  answered-kept unmatched state pool v i w h = (_, refl)

  -- Every answer of the service, on the three routes and beside them, carries the identifier that the
  -- middleware has made for the request, whatever header the handler set. A request that is no POST
  -- of the exchange is answered, and leaves the keys, the used identifiers, the audit and the channel
  -- as they are.
  pub serve_outcome :
      (state : AppState Jwk EncodingKey) (pool : Storage) (v : Visit) (i : Incoming) (w : World Jwk)
      → ((r : HttpResponse) (w' : World Jwk)
          → serve state pool v i w ≡ some (r, w')
          → header r.headers "x-request-id" ≡ some v.request_id)
        × (((i.path ≡ "/api/v1/exchange") × (i.method ≡ "POST"))
            ⊎ ((r : HttpResponse) × (serve state pool v i w ≡ some (r, w))))
  unfolding serve
  serve_outcome state pool v i w = (
    (λ r w' h. answered-header v (handle (route_of i.method i.path) state pool v i w) r w' h),
    elim (route_cases i.method i.path) [
      | inl posted ↦ inl posted
      | inr other ↦ inr (answered-kept (route_of i.method i.path) state pool v i w other)
    ],
  )
