-- ===== src/Auth/Jwks/Index.antt =====
-- Which key the index holds for an identifier.
use jwt_exchange.Prelude.{
  String, ◌≡◌, refl, ◌∙◌, Option, none, some, List, [], ◌∷◌, arith, str_eq, if◌then◌else◌, or_else,
  Option-cases, inl, inr,
}
use jwt_exchange.Maps.{Map, lookup, insert, lookup-insert}
use jwt_exchange.Crates.{Crates}
use jwt_exchange.Auth.Jwks.{index_from, index_keys}

module _ {Jwk : Type 0} (key_id : Jwk → Option String) where
  abbrev named : String → Jwk → Option Jwk
  named kid key = elim (key_id key) [
    | none ↦ none
    | some k ↦ if str_eq k kid then some key else none
  ]

  -- The last key of a set that carries an identifier.
  unfoldable pub last_named : String → List Jwk → Option Jwk
  last_named kid [] = none
  last_named kid (key ∷ keys) = or_else (last_named kid keys) (named kid key)

  index_from-last :
      (kid : String) (keys : List Jwk) (m : Map Jwk)
      → lookup kid (index_from key_id keys m) ≡ or_else (last_named kid keys) (lookup kid m)
  unfolding index_from last_named
  index_from-last kid [] m = refl
  index_from-last kid (key ∷ keys) m = elim (Option-cases (key_id key)) [
    | inl e ↦ rw (e, index_from) (index_from-last kid keys m ∙ ground arith)
    | inr (k, e) ↦
        rw (e, index_from)
          (index_from-last kid keys (insert k key m) ∙ rw lookup-insert (ground arith))
  ]

-- The index answers a lookup with the last key of the set that carries the identifier, and with
-- nothing where no key does; keys without an identifier are never found.
pub lookup-index_keys :
    (X : Crates) (kid : String) (keys : List X.Jwk)
    → lookup kid (index_keys X keys) ≡ last_named X.key_id kid keys
unfolding index_keys
lookup-index_keys X kid keys =
    index_from-last X.key_id kid keys []
    ∙ unfold lookup in or_else-none (last_named X.key_id kid keys)
  where
    or_else-none : (o : Option X.Jwk) → or_else o none ≡ o
    or_else-none none = refl
    or_else-none (some k) = refl
