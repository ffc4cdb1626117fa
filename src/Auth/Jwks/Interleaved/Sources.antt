-- ===== src/Auth/Jwks/Interleaved/Sources.antt =====
-- Where the keys of the cache come from, when the refreshes of src/auth/jwks.rs interleave.
use jwt_exchange.Prelude.{
  ℕ, String, ◌≡◌, refl, sym, ap, ◌∙◌, Option, none, List, [], ◌∷◌, Bool-cases, inl, inr,
}
use jwt_exchange.Result.{Result, ok, err}
use jwt_exchange.Error.{ServiceError, jwks}
use jwt_exchange.Maps.{Map}
use jwt_exchange.Str.{contains_str}
use jwt_exchange.Crates.{Crates}
use jwt_exchange.Auth.Jwks.{CachedJwks, index_keys, fetch_jwks_with_etag, refreshed, stamp, settle}
use jwt_exchange.Auth.Jwks.Interleaved.{
  System, Answer, Step, check, attempt, result, read, update, Reach, here, next, settle_guards,
  refreshed-Guards,
}

module _ (X : Crates) where
  open X use {Jwk}

  abbrev pub pair_of : CachedJwks Jwk → Map Jwk × Option String
  pair_of c = (c.keys_by_kid, c.etag)

  abbrev pub loaded_or :
      Result (List Jwk × Option String) ServiceError
      → Map Jwk × Option String
      → Map Jwk × Option String
  loaded_or (ok (keys, etag)) before = (index_keys X keys, etag)
  loaded_or (err e) before = before

  -- The keys and the tag of the last answer that had keys, or else those of the first cache.
  abbrev pub loaded_by : CachedJwks Jwk → List (Answer Jwk) → Map Jwk × Option String
  loaded_by first [] = pair_of first
  loaded_by first (a ∷ answered) = loaded_or a.found (loaded_by first answered)

  -- What each kind of refresh does to the pair.
  pub settle-loaded_or :
      (r : Result (List Jwk × Option String) ServiceError) (c : CachedJwks Jwk)
      → pair_of (settle X r c).1 ≡ loaded_or r (pair_of c)
  unfolding settle
  settle-loaded_or (ok found) c = refl
  settle-loaded_or (err e) c = refl

  pub refreshed-loaded_or :
      (r : Result (List Jwk × Option String) ServiceError) (c : CachedJwks Jwk)
      → pair_of (refreshed X r c).1 ≡ loaded_or r (pair_of c)
  refreshed-loaded_or (ok found) c = refl
  refreshed-loaded_or (err (jwks msg)) c = elim (Bool-cases (contains_str msg "not modified")) [
    | inl said ↦ rw said refl
    | inr other ↦ rw other refl
  ]
  refreshed-loaded_or (err _) c = refl

  module _ (first : CachedJwks Jwk) where
    record Inv (s : System Jwk) : Type 0 where
      held : pair_of s.cache ≡ loaded_by first s.answered
      address : s.cache.jwks_uri ≡ first.jwks_uri

    module _ {from until : ℕ} where
      Step-Inv : {s t : System Jwk} → Step X from until s t → Inv s → Inv t
      unfolding stamp
      Step-Inv (check s now uri early g) v = record { held = v.held; address = v.address }
      Step-Inv (attempt s mark uri earlier later after queue) v = record {
        held = v.held;
        address = v.address;
      }
      Step-Inv (result s client uri earlier later queue) v =
          let found = fetch_jwks_with_etag X client uri none in
          record {
            held = settle-loaded_or found s.cache ∙ ap (loaded_or found) v.held;
            address = (settle_guards X found s.cache).1 ∙ v.address;
          }
      Step-Inv (read s) v = record { held = v.held; address = v.address }
      Step-Inv (update s client uri etag earlier later queue) v =
          let found = fetch_jwks_with_etag X client uri etag in
          let (_, _, same) = refreshed-Guards X found s.cache in
          record {
            held = refreshed-loaded_or found s.cache ∙ ap (loaded_or found) v.held;
            address = same ∙ v.address;
          }

      Reach-Inv : {s t : System Jwk} → Reach X from until s t → Inv s → Inv t
      Reach-Inv here v = v
      Reach-Inv (next r st) v = Step-Inv st (Reach-Inv r v)

  -- However forced refreshes and those in the background interleave, the keys and the tag of the cache
  -- are both those of the last answer with keys that one of them got since the beginning, or both
  -- those of the beginning where none had keys; and the address of the key set never changes.
  pub reached-loaded_by :
      {from until : ℕ} (s t : System Jwk)
      → s.answered ≡ []
      → Reach X from until s t
      → ((t.cache.keys_by_kid, t.cache.etag) ≡ loaded_by s.cache t.answered)
        × (t.cache.jwks_uri ≡ s.cache.jwks_uri)
  reached-loaded_by s t none_yet r =
      let v =
        Reach-Inv s.cache r
          (record { held = sym (ap (loaded_by s.cache) none_yet); address = refl }) in
      (v.held, v.address)
