-- ===== src/Logging/Splunk/Attempts.antt =====
-- How often a batch is sent, and when it is lost.
use jwt_exchange.Prelude.{ℕ, String, ◌≡◌, ◌⊎◌, inl, inr, refl, true, false, [], ◌∷◌, Bool-cases}
use jwt_exchange.Result.{Result}
use jwt_exchange.Logging.Splunk.{accepted, attempts, flush_batch}

-- What becomes of a batch, with the answers of the collector.
abbrev pub SendOutcome : (ℕ → Result ℕ String) → Type 0
SendOutcome post =
    ((accepted (post 0) ≡ true)
      × (flush_batch post ≡ record { sent = true; requests = 1; slept = [] }))
    ⊎ ((accepted (post 0) ≡ false)
        × (accepted (post 1) ≡ true)
        × (flush_batch post ≡ record { sent = true; requests = 2; slept = 2 ∷ [] }))
    ⊎ ((accepted (post 0) ≡ false)
        × (accepted (post 1) ≡ false)
        × (accepted (post 2) ≡ true)
        × (flush_batch post ≡ record { sent = true; requests = 3; slept = 4 ∷ 2 ∷ [] }))
    ⊎ ((accepted (post 0) ≡ false)
        × (accepted (post 1) ≡ false)
        × (accepted (post 2) ≡ false)
        × (flush_batch post
            ≡ record { sent = accepted (post 3); requests = 4; slept = 6 ∷ 4 ∷ 2 ∷ [] }))

-- A batch is sent at the first request that the collector accepts, and no request follows that one;
-- it is lost exactly where the collector accepts none of four requests. Between the requests the
-- exporter sleeps for two, four and six seconds.
pub flush_batch_cases : (post : ℕ → Result ℕ String) → SendOutcome post
unfolding flush_batch attempts
flush_batch_cases post = elim (Bool-cases (accepted (post 0))) [
  | inl a ↦ inl (a, rw (a, attempts) refl)
  | inr a ↦ elim (Bool-cases (accepted (post 1))) [
    | inl b ↦ inr (inl (a, b, rw (a, b, attempts) refl))
    | inr b ↦ elim (Bool-cases (accepted (post 2))) [
      | inl c ↦ inr (inr (inl (a, b, c, rw (a, b, c, attempts) refl)))
      | inr c ↦ inr (inr (inr (a, b, c, rw (a, b, c, attempts) refl)))
    ]
  ]
]
