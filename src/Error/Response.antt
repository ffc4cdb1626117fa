-- ===== src/Error/Response.antt =====
-- The responses that src/error.rs builds from a failure: with the request's identifier, and with a
-- placeholder where a handler returns the failure itself.
use jwt_exchange.Prelude.{String}
use jwt_exchange.Http.{no_headers, set_header}
use jwt_exchange.Models.{HttpResponse, failure}
use jwt_exchange.Error.{ServiceError, to_envelope, status_code}

unfoldable pub to_error_response : String → ServiceError → String → HttpResponse
unfolding to_envelope status_code
to_error_response now e request_id = record {
  status = status_code e;
  headers = set_header "x-request-id" request_id no_headers;
  body = failure (to_envelope now e request_id);
}

unfoldable pub error_response : String → ServiceError → HttpResponse
unfolding to_envelope status_code
error_response now e = record {
  status = status_code e;
  headers = no_headers;
  body = failure (to_envelope now e "-");
}
