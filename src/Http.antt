-- ===== src/Http.antt =====
-- The HTTP types of actix-web and reqwest as far as the handlers and clients use them: a map of
-- headers keyed by lower-case names, a response, and what a sent request answers.
use jwt_exchange.Prelude.{
  ℕ, String, ◌≡◌, Bool, ◌&&◌, Option, none, some, List, [], ◌∷◌, leb, str_eq, eq_refl,
  if◌then◌else◌,
}

pub record Headers : Type 0 where
  pub entries : List (String × String)

lookup_entry : String → List (String × String) → Option String
lookup_entry name [] = none
lookup_entry name ((n, v) ∷ rest) =
    let found = lookup_entry name rest in if str_eq n name then some v else found

without_entry : String → List (String × String) → List (String × String)
without_entry name [] = []
without_entry name ((n, v) ∷ rest) =
    let others = without_entry name rest in if str_eq n name then others else (n, v) ∷ others

abbrev pub no_headers : Headers
no_headers = record { entries = [] }

-- `HeaderMap::get`
unfoldable pub header : Headers → String → Option String
unfolding lookup_entry
header h name = lookup_entry name h.entries

-- `HeaderMap::insert`: what stood under the name is replaced.
unfoldable pub set_header : String → String → Headers → Headers
unfolding without_entry
set_header name value h = record { entries = (name, value) ∷ without_entry name h.entries }

pub header-set_header_self :
    (h : Headers) (name value : String) → header (set_header name value h) name ≡ some value
unfolding header set_header
header-set_header_self h name value = rw eq_refl

-- `StatusCode::is_success`
abbrev pub is_success : ℕ → Bool
is_success status = leb 200 status && leb status 299
