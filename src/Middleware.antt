-- ===== src/Middleware.antt =====
-- src/middleware.rs: the identifier of each request. A handler's failure is turned into a response by
-- actix before the middleware sees it, by `error_response` of src/error.rs.
use jwt_exchange.Prelude.{String, Option, some, get_or, ◌≡◌, refl}
use jwt_exchange.Result.{Result, ok, err}
use jwt_exchange.Http.{set_header}
use jwt_exchange.Models.{HttpResponse}
use jwt_exchange.Error.{ServiceError}
use jwt_exchange.Error.Response.{error_response}

-- `RequestId::from_request`: the identifier of the request's extensions, or a fresh one.
unfoldable pub from_request : Option String → String → String
from_request extension fresh = get_or extension fresh

-- What actix makes of a handler's result; `now` is the text of the time.
unfoldable pub respond : String → Result HttpResponse ServiceError → HttpResponse
unfolding error_response
respond now (ok r) = r
respond now (err e) = error_response now e

abbrev pub injected : String → HttpResponse → HttpResponse
injected request_id r = record r { headers = set_header "x-request-id" request_id r.headers }

-- A service of actix: from the extension of a request to a response, or an error of its own.
abbrev pub Service : Type 0 → Type 0
Service E = Option String → Result HttpResponse E

module _ {E : Type 0} where
  -- What `RequestIdMiddlewareService::call` does with the answer of the service: an error passes.
  unfoldable pub inject : String → Result HttpResponse E → Result HttpResponse E
  unfolding set_header
  inject request_id (ok r) = ok (injected request_id r)
  inject request_id (err e) = err e

  -- `call`, around a service, with a fresh identifier in the place of any that the request has.
  unfoldable pub service_call : String → Service E → Result HttpResponse E
  unfolding inject
  service_call request_id service = inject request_id (service (some request_id))

-- `call`, around a handler, whose failures are responses by then.
unfoldable pub call :
    (now request_id : String) → (Option String → Result HttpResponse ServiceError) → HttpResponse
unfolding respond set_header
call now request_id handler = injected request_id (respond now (handler (some request_id)))

module _ {E : Type 0} where
  -- Around a handler the service always answers, and answers what `call` does.
  pub service_call-respond :
      (now request_id : String) (handler : Option String → Result HttpResponse ServiceError)
      → service_call {E = E} request_id (λ extension. ok (respond now (handler extension)))
        ≡ ok (call now request_id handler)
  unfolding service_call call
  service_call-respond now request_id handler = refl
