-- ===== src/Str/Laws.antt =====
-- The parts of a text that `split` gives, and how they are joined.
use Prim.Native.String.{◌++◌ as concat}
use text.Mathlib.TextEquality.{Char-path}
use text.Mathlib.TextLemmas.{nil-append, cons-append}
use mathlib.Core.Path.{ap₂}
use jwt_exchange.Prelude.{
  ℕ, Char, code, String, ◌≡◌, ◌≢◌, refl, sym, ap, ◌∙◌, List, [], ◌∷◌, arith, All, inl, inr,
  Bool-cases, ◌==◌,
}
use jwt_exchange.Str.{prepend, split}

-- A text with no character of a given code point.
abbrev pub Lacks : ℕ → String → Type 0
Lacks sep String.[] = Unit
Lacks sep (String.◌∷◌ c s) = (code c ≢ sep) × Lacks sep s

All-prepend :
    (sep : ℕ) (c : Char) (words : List String)
    → code c ≢ sep
    → All (Lacks sep) words
    → All (Lacks sep) (prepend c words)
unfolding prepend
All-prepend sep c [] h k = ((h, tt), tt)
All-prepend sep c (w ∷ ws) h (k, ks) = ((h, k), ks)

-- No part of a split text holds the separator.
pub split-Lacks : (sep : ℕ) (s : String) → All (Lacks sep) (split sep s)
unfolding split
split-Lacks sep String.[] = (tt, tt)
split-Lacks sep (String.◌∷◌ c s) = elim (Bool-cases (code c == sep)) [
  | inl same ↦ rw same (tt, split-Lacks sep s)
  | inr other ↦ rw other (All-prepend sep c (split sep s) (ground arith) (split-Lacks sep s))
]

-- A text that lacks the separator is its own only part.
pub split-of_Lacks : (sep : ℕ) (s : String) → Lacks sep s → split sep s ≡ s ∷ []
unfolding split prepend
split-of_Lacks sep String.[] h = refl
split-of_Lacks sep (String.◌∷◌ c s) (h, k) = elim (Bool-cases (code c == sep)) [
  | inl same ↦ absurd (h (ground arith))
  | inr other ↦ rw (other, split-of_Lacks sep s k)
]

-- A first part that lacks the separator is split off.
pub split-append :
    (sep : ℕ) (c : Char) (a s : String)
    → code c ≡ sep
    → Lacks sep a
    → split sep (concat a (String.◌∷◌ c s)) ≡ a ∷ split sep s
unfolding split prepend
split-append sep c String.[] s e h = rw nil-append (ground arith)
split-append sep c (String.◌∷◌ d a) s e (h, k) = rw cons-append (elim (Bool-cases (code d == sep)) [
  | inl same ↦ absurd (h (ground arith))
  | inr other ↦ rw (other, split-append sep c a s e k)
])

-- The texts of a list with a character between each two.
abbrev pub join : Char → List String → String
join c [] = ""
join c (w ∷ []) = w
join c (w ∷ v ∷ ws) = concat w (String.◌∷◌ c (join c (v ∷ ws)))

split-cons : (sep : ℕ) (s : String) → (w : String) × (ws : List String) × (split sep s ≡ w ∷ ws)
unfolding split prepend
split-cons sep String.[] = ("", [], refl)
split-cons sep (String.◌∷◌ c s) = elim (Bool-cases (code c == sep)) [
  | inl same ↦ ("", split sep s, rw same)
  | inr other ↦ let (w, ws, e) = split-cons sep s in (String.◌∷◌ c w, ws, rw (other, e))
]

join-prepend :
    (d c : Char) (w : String) (ws : List String)
    → join d (prepend c (w ∷ ws)) ≡ String.◌∷◌ c (join d (w ∷ ws))
unfolding prepend
join-prepend d c w [] = refl
join-prepend d c w (v ∷ ws) = cons-append c w (String.◌∷◌ d (join d (v ∷ ws)))

-- The parts of a text, joined by the separator, are the text.
pub join-split : (d : Char) (s : String) → join d (split (code d) s) ≡ s
unfolding split
join-split d String.[] = refl
join-split d (String.◌∷◌ c s) = elim (Bool-cases (code c == code d)) [
  | inl same ↦
      rw same (joined (split-cons (code d) s) (Char-path c d (ground arith)) (join-split d s))
  | inr other ↦ rw other (pushed (split-cons (code d) s) (join-split d s))
]
  where
    joined :
        (w : String) × (ws : List String) × (split (code d) s ≡ w ∷ ws)
        → c ≡ d
        → join d (split (code d) s) ≡ s
        → join d ("" ∷ split (code d) s) ≡ String.◌∷◌ c s
    joined (w, ws, e) same ih =
        rw (e, nil-append) (ap₂ (λ x y. String.◌∷◌ x y) (sym same) (rw e at ih))

    pushed :
        (w : String) × (ws : List String) × (split (code d) s ≡ w ∷ ws)
        → join d (split (code d) s) ≡ s
        → join d (prepend c (split (code d) s)) ≡ String.◌∷◌ c s
    pushed (w, ws, e) ih = rw e (join-prepend d c w ws ∙ ap (λ y. String.◌∷◌ c y) (rw e at ih))
