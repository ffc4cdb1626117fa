-- ===== src/Str/Prefix.antt =====
-- What `strip_prefix` leaves.
use Prim.Native.String.{◌++◌ as concat}
use text.Mathlib.TextEquality.{Char-path}
use text.Mathlib.TextLemmas.{nil-append, cons-append}
use mathlib.Core.Path.{ap₂}
use jwt_exchange.Prelude.{
  Char, code, String, ◌≡◌, ◌↔◌, refl, sym, true, some, arith, inl, inr, Bool-cases, ◌==◌,
}
use jwt_exchange.Str.{strip_prefix}

same_code : (c d : Char) → (code c == code d) ≡ true → code c ≡ code d
same_code c d h = ground arith

strip_prefix-eq-some : (p s t : String) → strip_prefix p s ≡ some t → s ≡ concat p t
unfolding strip_prefix
strip_prefix-eq-some String.[] s t h = rw nil-append (cc)
strip_prefix-eq-some (String.◌∷◌ c p) String.[] t h = cc
strip_prefix-eq-some (String.◌∷◌ c p) (String.◌∷◌ d s) t h = elim (Bool-cases (code c == code d)) [
  | inl same ↦ rw cons-append (
      ap₂ String.◌∷◌ (sym (Char-path c d (same_code c d same)))
        (strip_prefix-eq-some p s t (rw same at h)))
  | inr other ↦ absurd (let g = rw other at h in ground arith)
]

strip_prefix-append : (p t : String) → strip_prefix p (concat p t) ≡ some t
unfolding strip_prefix
strip_prefix-append String.[] t = rw nil-append refl
strip_prefix-append (String.◌∷◌ c p) t = rw cons-append (ground (arith, strip_prefix-append p t))

pub strip_prefix-eq-some_iff : (p s t : String) → (strip_prefix p s ≡ some t) ↔ (s ≡ concat p t)
strip_prefix-eq-some_iff p s t = (strip_prefix-eq-some p s t, λ e. rw e (strip_prefix-append p t))
