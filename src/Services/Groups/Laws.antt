-- ===== src/Services/Groups/Laws.antt =====
-- Which groups a minted token carries, and when the request is refused for its groups.
use mathlib.Core.Path.{subst, fun_ext}
use mathlib.Core.List.{Sublistᴰ}
use jwt_exchange.Prelude.{
  ℕ, ◌+◌, ◌≤◌, ◌<◌, String, len, ◌≡◌, ◌≢◌, ◌↔◌, refl, Bool, true, false, Option, none, some, List,
  [], ◌∷◌, length, is_empty, any, keep, All, All-keep, All-keep_test, length-keep-le, arith, str_eq,
  eq_iff, eq_refl, ltb, if◌then◌else◌, Bool-cases, ◌⊎◌, inl, inr,
}
use jwt_exchange.Result.{ok, err}
use jwt_exchange.Error.{malformed_token}
use jwt_exchange.Services.Groups.{contains, filled, filter_groups}

-- How often a group stands in a list.
unfoldable pub count : String → List String → ℕ
count g [] = 0
count g (x ∷ xs) = (if str_eq x g then 1 else 0) + count g xs

-- What the groups of a token owe to the request and to the limits.
pub record IsGranted (groups whitelist : List String) (max_count max_length : ℕ)
    (granted : List String) : Type 0 where
  pub some_group : granted ≢ []
  -- They stand in the order of the request.
  pub in_order : Sublistᴰ granted groups
  pub listed : All (λ g. contains whitelist g ≡ true) granted
  -- No group of the whitelist is dropped, and none is doubled.
  pub complete : (g : String) → contains whitelist g ≡ true → count g granted ≡ count g groups
  pub few : length granted ≤ max_count
  pub short : All (λ g. len g ≤ max_length) granted

keep-Sublistᴰ : (p : String → Bool) (xs : List String) → Sublistᴰ (keep p xs) xs
keep-Sublistᴰ p [] = Sublistᴰ.slnil
keep-Sublistᴰ p (x ∷ xs) = elim (Bool-cases (p x)) [
  | inl e ↦ rw e (Sublistᴰ.cons-cons refl (keep-Sublistᴰ p xs))
  | inr e ↦ rw e (Sublistᴰ.cons (keep-Sublistᴰ p xs))
]

count-keep :
    (p : String → Bool) (g : String) (xs : List String)
    → p g ≡ true
    → count g (keep p xs) ≡ count g xs
unfolding count
count-keep p g [] h = refl
count-keep p g (x ∷ xs) h = elim (Bool-cases (str_eq x g)) [
  | inl same ↦
      let e : p x ≡ true = rw ((eq_iff x g).0 same) h in rw e (ground (arith, count-keep p g xs h))
  | inr other ↦ ground (arith, count-keep p g xs h)
]

short_of_any :
    (most : ℕ) (xs : List String)
    → any (λ g. ltb most (len g)) xs ≡ false
    → All (λ g. len g ≤ most) xs
short_of_any most [] h = tt
short_of_any most (x ∷ xs) h = ground (arith, short_of_any most xs)

filled-some : (xs gs : List String) → filled xs ≡ some gs → (xs ≡ gs) × (gs ≢ [])
filled-some [] gs h = cc
filled-some (x ∷ xs) gs h = ground arith

-- Where groups are granted, there is at least one; they are the groups of the request that the
-- whitelist holds, in the order of the request and each as often, and within both limits.
pub filter_groups-IsGranted :
    (groups whitelist granted : List String) (max_count max_length : ℕ)
    → filter_groups (some groups) whitelist max_count max_length ≡ ok (some granted)
    → IsGranted groups whitelist max_count max_length granted
unfolding filter_groups
filter_groups-IsGranted groups whitelist granted max_count max_length h =
    let kept = keep (contains whitelist) groups in
    let few : ltb max_count (length groups) ≡ false = ground arith in
    let short : any (λ g. ltb max_length (len g)) groups ≡ false = ground arith in
    let given : filled kept ≡ some granted = ground arith in
    let (e, some_group) = filled-some kept granted given in
    record {
      some_group = some_group;
      in_order = subst (λ gs. Sublistᴰ gs groups) e (keep-Sublistᴰ (contains whitelist) groups);
      listed =
          subst (All (λ g. contains whitelist g ≡ true)) e
            (All-keep_test (contains whitelist) groups);
      complete = λ g m.
          subst (λ gs. count g gs ≡ count g groups) e (count-keep (contains whitelist) g groups m);
      few =
          subst (λ gs. length gs ≤ max_count) e
            (ground (arith, length-keep-le (contains whitelist) groups));
      short = subst (All (λ g. len g ≤ max_length)) e (
          All-keep (λ g. len g ≤ max_length) (contains whitelist) groups
            (short_of_any max_length groups short));
    }

-- A request is refused for its groups exactly where it names groups, the whitelist is not empty, and
-- there are more than the limit or one has too long a name; groups outside the whitelist count too.
pub filter_groups-eq-err_iff :
    (groups whitelist : List String) (max_count max_length : ℕ)
    → (filter_groups (some groups) whitelist max_count max_length ≡ err malformed_token) ↔ (
        (whitelist ≢ [])
        × ((max_count < length groups) ⊎ (any (λ g. ltb max_length (len g)) groups ≡ true)))
unfolding filter_groups
filter_groups-eq-err_iff groups [] max_count max_length = ground arith
filter_groups-eq-err_iff groups (w ∷ ws) max_count max_length = ground arith

is_empty_congr :
    (ws ws' : List String)
    → ((g : String) → contains ws g ≡ contains ws' g)
    → is_empty ws ≡ is_empty ws'
is_empty_congr [] [] h = refl
is_empty_congr [] (w ∷ ws) h = ground (arith, h w, eq_refl w)
is_empty_congr (w ∷ ws) [] h = ground (arith, h w, eq_refl w)
is_empty_congr (w ∷ ws) (v ∷ vs) h = refl

contains_congr :
    (ws ws' : List String)
    → ((g : String) → contains ws g ≡ contains ws' g)
    → ◌≡◌ {A = String → Bool} (contains ws) (contains ws')
contains_congr ws ws' h = fun_ext h

-- The whitelist counts only as a set: two lists with the same members give the same answer.
pub filter_groups_congr :
    (requested : Option (List String)) (whitelist whitelist' : List String)
    (max_count max_length : ℕ)
    → ((g : String) → contains whitelist g ≡ contains whitelist' g)
    → filter_groups requested whitelist max_count max_length
      ≡ filter_groups requested whitelist' max_count max_length
unfolding filter_groups
filter_groups_congr none whitelist whitelist' max_count max_length h = refl
filter_groups_congr (some groups) whitelist whitelist' max_count max_length h =
    rw (is_empty_congr whitelist whitelist' h, contains_congr whitelist whitelist' h)
