-- ===== src/Services/Kid/Laws.antt =====
-- Which tokens carry a key identifier.
use Prim.Native.String.{◌++◌ as concat}
use mathlib.Core.Path.{subst}
use mathlib.Core.Option.{bind}
use jwt_exchange.Prelude.{
  ℕ, Char, String, ◌≡◌, ◌↔◌, inl, inr, refl, sym, ap, ◌∙◌, some, List, [], ◌∷◌, All, arith,
  Option-cases,
}
use jwt_exchange.Result.{ok, Result-cases}
use jwt_exchange.Str.{split}
use jwt_exchange.Str.Laws.{Lacks, join, split-Lacks, split-of_Lacks, split-append, join-split}
use jwt_exchange.Crates.{Crates}
use jwt_exchange.Services.Base64.{base64url_decode}
use jwt_exchange.Services.Kid.{kid_of_header, kid_of_parts, extract_kid}

abbrev dot : Char
dot = "."

-- A text in three parts, none of which holds a dot.
pub record ThreeParts (token header payload signature : String) : Type 0 where
  pub header_plain : Lacks b'.' header
  pub payload_plain : Lacks b'.' payload
  pub signature_plain : Lacks b'.' signature
  pub whole : token ≡ concat header (String.◌∷◌ dot (concat payload (String.◌∷◌ dot signature)))

split-ThreeParts :
    (token h p s : String) → ThreeParts token h p s → split b'.' token ≡ h ∷ p ∷ s ∷ []
split-ThreeParts token h p s t = rw t.whole (
    split-append b'.' dot h (concat p (String.◌∷◌ dot s)) refl t.header_plain
    ∙ ap (λ ws. h ∷ ws)
        (split-append b'.' dot p s refl t.payload_plain
          ∙ ap (λ ws. p ∷ ws) (split-of_Lacks b'.' s t.signature_plain)))

ThreeParts-split :
    (token h p s : String) → split b'.' token ≡ h ∷ p ∷ s ∷ [] → ThreeParts token h p s
ThreeParts-split token h p s e =
    let plain : All (Lacks b'.') (h ∷ p ∷ s ∷ []) =
      subst (All (Lacks b'.')) e (split-Lacks b'.' token) in
    record {
      header_plain = plain.0;
      payload_plain = plain.1.0;
      signature_plain = plain.1.1.0;
      whole = sym (join-split dot token) ∙ ap (join dot) e;
    }

module _ (X : Crates) where
  open X use {Value, from_slice, member, as_str}

  kid_of_parts-eq-ok :
      (parts : List String) (kid : String)
      → kid_of_parts X parts ≡ ok kid
      → (h p s : String) × (parts ≡ h ∷ p ∷ s ∷ []) × (kid_of_header X h ≡ ok kid)
  kid_of_parts-eq-ok [] kid e = cc
  kid_of_parts-eq-ok (h ∷ []) kid e = cc
  kid_of_parts-eq-ok (h ∷ p ∷ []) kid e = cc
  kid_of_parts-eq-ok (h ∷ p ∷ s ∷ []) kid e = (h, p, s, refl, e)
  kid_of_parts-eq-ok (h ∷ p ∷ s ∷ x ∷ xs) kid e = cc

  -- The bytes of a header are a JSON value with a text under `kid`.
  pub record HasKid (header kid : String) : Type 0 where
    pub bytes : List ℕ
    pub decoded : base64url_decode header ≡ some bytes
    pub value : Value
    pub parsed : from_slice bytes ≡ ok value
    pub field_value : Value
    pub found : member value "kid" ≡ some field_value
    pub text : as_str field_value ≡ some kid

  HasKid-of_header : (h kid : String) → kid_of_header X h ≡ ok kid → HasKid h kid
  unfolding kid_of_header bind
  HasKid-of_header h kid e = elim (Option-cases (base64url_decode h)) [
    | inl d ↦ cc
    | inr (bytes, d) ↦ elim (Result-cases (from_slice bytes)) [
      | inl (v, p) ↦ elim (Option-cases (member v "kid")) [
        | inl f ↦ absurd (ground arith)
        | inr (w, f) ↦ elim (Option-cases (as_str w)) [
          | inl t ↦ absurd (ground arith)
          | inr (k, t) ↦ record {
            bytes = bytes;
            decoded = d;
            value = v;
            parsed = p;
            field_value = w;
            found = f;
            text = ground arith;
          }
        ]
      ]
      | inr (x, p) ↦ absurd (ground arith)
    ]
  ]

  of_HasKid : (h kid : String) → HasKid h kid → kid_of_header X h ≡ ok kid
  unfolding kid_of_header bind
  of_HasKid h kid k = rw (k.decoded, k.parsed, k.found, k.text)

  -- A key identifier is found exactly in a token of three parts between two dots, whose first part
  -- decodes to a JSON value with a text under `kid`; it is that text.
  pub extract_kid-eq-ok_iff :
      (token kid : String)
      → (extract_kid X token ≡ ok kid) ↔ ((h p s : String) × ThreeParts token h p s × HasKid h kid)
  unfolding extract_kid
  extract_kid-eq-ok_iff token kid = (
    λ e.
        let (h, p, s, f, g) = kid_of_parts-eq-ok (split b'.' token) kid e in
        (h, p, s, ThreeParts-split token h p s f, HasKid-of_header h kid g),
    λ t. rw (split-ThreeParts token t.0 t.1 t.2 t.3) (of_HasKid t.0 kid t.4),
  )
