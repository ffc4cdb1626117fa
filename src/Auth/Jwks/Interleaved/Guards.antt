-- ===== src/Auth/Jwks/Interleaved/Guards.antt =====
-- What still holds of the cooldown and of the circuit-breaker of src/auth/jwks.rs when refreshes
-- interleave at their locks, and what does not.
use mathlib.Core.Path.{subst}
use jwt_exchange.Prelude.{
  ℕ, zero, suc, ◌+◌, ◌≤◌, ◌<◌, String, ◌≡◌, ◌≢◌, refl, sym, ap, ◌∙◌, true, none, some, List, [],
  ◌∷◌, ◌++◌, length, arith,
}
use jwt_exchange.Result.{ok}
use jwt_exchange.Crates.{Crates}
use jwt_exchange.Auth.Jwks.{CachedJwks, fetch_jwks_with_etag, cooling, gate, stamp}
use jwt_exchange.Auth.Jwks.Interleaved.{
  System, Step, check, attempt, result, read, update, Reach, here, next, settle_guards,
  refreshed-Guards, gate-ok_inv,
}

cooling-lt : (now last : ℕ) → now < last + 60000000000 → cooling now (some last) ≡ true
unfolding cooling
cooling-lt now last h = ground arith

-- A queue with a task in it is not empty, and shrinks by one when that task leaves it.
length-without :
    {A : Type 0} (earlier later : List A) (x : A)
    → length (earlier ++ x ∷ later) ≡ length (earlier ++ later) + 1
length-without [] later x = omega arith
length-without (y ∷ earlier) later x = omega (arith, length-without earlier later x)

not_empty :
    {A : Type 0} (earlier later : List A) (x : A) (q : List A) → q ≡ [] → q ≢ earlier ++ x ∷ later
not_empty earlier later x q e h =
    let n = ap length (sym h ∙ e) in absurd (omega (arith, n, length-without earlier later x))

module _ (X : Crates) where
  open X use {Jwk}

  -- The cache is stamped so late that no check of the window passes the cooldown.
  record Stamped (until : ℕ) (s : System Jwk) : Type 0 where
    last : ℕ
    is_last : s.cache.last_force_refresh ≡ some last
    late : until ≤ last + 60000000000

  module _ {from until : ℕ} (short : until ≤ from + 60000000000) where
    Step-Stamped :
        {s t : System Jwk}
        → Step X from until s t
        → Stamped until s
        → Stamped until t × (t.begun + length t.passed ≡ s.begun + length s.passed)
    unfolding stamp
    Step-Stamped (check s now uri early g) v =
        let (warm, _) = gate-ok_inv X now s.cache g in
        let cool = cooling-lt now v.last (let h = v.late in omega arith) in
        absurd (let h = ap (cooling now) v.is_last in cc)
    Step-Stamped (attempt s mark uri earlier later after queue) v = (
      record { last = mark; is_last = refl; late = omega arith },
      omega (arith, ap length queue, length-without earlier later uri),
    )
    Step-Stamped (result s client uri earlier later queue) v =
        let (same, _) = settle_guards X (fetch_jwks_with_etag X client uri none) s.cache in
        (record { last = v.last; is_last = same ∙ v.is_last; late = v.late }, refl)
    Step-Stamped (read s) v = (record { last = v.last; is_last = v.is_last; late = v.late }, refl)
    Step-Stamped (update s client uri etag earlier later queue) v =
        let (same, _, _) = refreshed-Guards X (fetch_jwks_with_etag X client uri etag) s.cache in
        (record { last = v.last; is_last = same ∙ v.is_last; late = v.late }, refl)

    Reach-Stamped :
        {s t : System Jwk}
        → Reach X from until s t
        → Stamped until s
        → Stamped until t × (t.begun + length t.passed ≡ s.begun + length s.passed)
    Reach-Stamped here v = (v, refl)
    Reach-Stamped (next r st) v =
        let (u, e) = Reach-Stamped r v in let (w, f) = Step-Stamped st u in (w, f ∙ e)

  -- Within sixty seconds of the last stamp and however the refreshes interleave, the forced refreshes
  -- begin no more requests than had passed their checks at its beginning: none, where none had.
  pub window_begun :
      (last until : ℕ) (s t : System Jwk)
      → s.cache.last_force_refresh ≡ some last
      → until ≤ last + 60000000000
      → Reach X last until s t
      → t.begun ≤ s.begun + length s.passed
  window_begun last until s t e short r =
      let (_, sum) = Reach-Stamped short r (record { last = last; is_last = e; late = short }) in
      omega (arith, sum)

  record Tripped (s : System Jwk) : Type 0 where
    many : 5 ≤ s.cache.consecutive_force_refresh_failures
    none_passed : s.passed ≡ []
    none_waits : s.waiting ≡ []

  Step-Tripped :
      {from until : ℕ} {s t : System Jwk}
      → Step X from until s t
      → Tripped s
      → Tripped t × (t.begun ≡ s.begun)
  Step-Tripped (check s now uri early g) v =
      let (_, few) = gate-ok_inv X now s.cache g in absurd (let h = v.many in omega arith)
  Step-Tripped (attempt s mark uri earlier later after queue) v =
      absurd (not_empty earlier later uri s.passed v.none_passed queue)
  Step-Tripped (result s client uri earlier later queue) v =
      absurd (not_empty earlier later uri s.waiting v.none_waits queue)
  Step-Tripped (read s) v =
      (record { many = v.many; none_passed = v.none_passed; none_waits = v.none_waits }, refl)
  Step-Tripped (update s client uri etag earlier later queue) v =
      let (_, same, _) = refreshed-Guards X (fetch_jwks_with_etag X client uri etag) s.cache in
      (
        record {
          many = subst (λ n. 5 ≤ n) (sym same) v.many;
          none_passed = v.none_passed;
          none_waits = v.none_waits;
        },
        refl,
      )

  Reach-Tripped :
      {from until : ℕ} {s t : System Jwk}
      → Reach X from until s t
      → Tripped s
      → Tripped t × (t.begun ≡ s.begun)
  Reach-Tripped here v = (v, refl)
  Reach-Tripped (next r st) v =
      let (u, e) = Reach-Tripped r v in let (w, f) = Step-Tripped st u in (w, f ∙ e)

  -- Once five forced refreshes in a row have failed and no other is on its way, no forced refresh ever
  -- passes its checks or begins a request again, however long it waits and whatever the background
  -- refreshes do in between.
  pub breaker_stays_open :
      (from until : ℕ) (s t : System Jwk)
      → 5 ≤ s.cache.consecutive_force_refresh_failures
      → s.passed ≡ []
      → s.waiting ≡ []
      → Reach X from until s t
      → (t.begun ≡ s.begun) × ((now : ℕ) → gate now t.cache ≢ ok tt)
  breaker_stays_open from until s t many p w r =
      let (v, same) = Reach-Tripped r (record { many = many; none_passed = p; none_waits = w }) in
      (
        same,
        λ now g.
            let (_, few) = gate-ok_inv X now t.cache g in let h = v.many in absurd (omega arith),
      )

  abbrev pub idle : CachedJwks Jwk → System Jwk
  idle c = record {
    cache = c;
    passed = [];
    waiting = [];
    background = [];
    begun = 0;
    answered = [];
  }

  abbrev copies : ℕ → String → List String
  copies zero uri = []
  copies (suc n) uri = uri ∷ copies n uri

  checked_by :
      (from until now : ℕ) (uri : String) (c : CachedJwks Jwk)
      → now < until
      → gate now c ≡ ok tt
      → (n : ℕ) → Reach X from until (idle c) (record (idle c) { passed = copies n uri })
  checked_by from until now uri c early g zero = here
  checked_by from until now uri c early g (suc n) =
      next (checked_by from until now uri c early g n)
        (check (record (idle c) { passed = copies n uri }) now uri early g)

  attempted_by :
      (from until mark : ℕ) (uri : String) (s₀ : System Jwk)
      → from ≤ mark
      → (n : ℕ) (s : System Jwk) → s.passed ≡ copies n uri
      → Reach X from until s₀ s
      → (t : System Jwk) × Reach X from until s₀ t × (t.begun ≡ s.begun + n)
  attempted_by from until mark uri s₀ le zero s e r = (s, r, omega arith)
  attempted_by from until mark uri s₀ le (suc n) s e r =
      let (t, reached, sum) =
        attempted_by from until mark uri s₀ le n _ refl
          (next r (attempt s mark uri [] (copies n uri) le e)) in
      (t, reached, omega (arith, sum))

  -- The cooldown does not bound the exchanges that meet an unknown key at the same time: if its checks
  -- let one forced refresh pass, any number of them that check before the first one stamps begin a
  -- request each.
  pub cooldown_raced :
      (from until now mark : ℕ) (uri : String) (c : CachedJwks Jwk) (n : ℕ)
      → now < until
      → from ≤ mark
      → gate now c ≡ ok tt
      → (t : System Jwk) × Reach X from until (idle c) t × (t.begun ≡ n)
  cooldown_raced from until now mark uri c n early le g =
      let (t, reached, sum) =
        attempted_by from until mark uri (idle c) le n (record (idle c) { passed = copies n uri })
          refl (checked_by from until now uri c early g n) in
      (t, reached, omega (arith, sum))
