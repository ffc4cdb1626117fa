-- ===== src/Services/Kid/Tests.antt =====
-- The key identifier of a token, at an input.
use jwt_exchange.Prelude.{String, ◌≡◌, ◌↔◌}
use jwt_exchange.Result.{ok}
use jwt_exchange.Crates.Sample.{sample}
use jwt_exchange.Services.Kid.{extract_kid}
use jwt_exchange.Services.Kid.Laws.{ThreeParts, HasKid, extract_kid-eq-ok_iff}

extract_kid-eq-ok_iff_example :
    (extract_kid sample "aGVsbG8.e30.c2ln" ≡ ok "k1")
    ↔ ((h p s : String) × ThreeParts "aGVsbG8.e30.c2ln" h p s × HasKid sample h "k1")
extract_kid-eq-ok_iff_example = extract_kid-eq-ok_iff sample "aGVsbG8.e30.c2ln" "k1"
