-- ===== src/Logging/Splunk/Hint.antt =====
-- What an event says of the token's identifier.
use jwt_exchange.Prelude.{
  ◌≤◌, ◌<◌, String, len, ◌≡◌, ◌↔◌, ◌⊎◌, inl, inr, refl, false, Option, none, some, ltb, ltb→lt,
  ltb→ge, arith, get?, is_char_boundary, Bool-cases, Option-cases,
}
use text.Mathlib.TextPositions.{boundary-zero}
use jwt_exchange.Db.AuditLog.{AuditRecord}
use jwt_exchange.Logging.Splunk.{SplunkEvent, hint_of, hints, event_with, from_record}

get?-len : (s t : String) → get? s 0 8 ≡ some t → len t ≡ 8
get?-len s t h = ground arith

hint_of-eq-some :
    (jti hint : String)
    → hint_of jti ≡ some hint
    → ((len jti ≤ 8) × (hint ≡ jti)) ⊎ ((8 < len jti) × (len hint ≡ 8))
unfolding hint_of
hint_of-eq-some jti hint h = elim (Bool-cases (ltb 8 (len jti))) [
  | inl long ↦ inr (ltb→lt 8 (len jti) long, get?-len jti hint (rw long at h))
  | inr short ↦ inl (ltb→ge 8 (len jti) short, some_inj (rw short at h))
]
  where
    some_inj : {a b : String} → some a ≡ some b → b ≡ a
    some_inj q = cc

hint_of-eq-none_iff :
    (jti : String) → (hint_of jti ≡ none) ↔ ((8 < len jti) × (is_char_boundary jti 8 ≡ false))
unfolding hint_of
hint_of-eq-none_iff jti = ground (arith, boundary-zero jti)

hints-eq-some :
    (o : Option String) (h : Option String)
    → hints o ≡ some h
    → ((o ≡ none) × (h ≡ none))
      ⊎ ((jti : String) × (hint : String) × (o ≡ some jti)
          × (h ≡ some hint)
          × (hint_of jti ≡ some hint))
unfolding hints
hints-eq-some none h e = inl (refl, ground arith)
hints-eq-some (some jti) h e = elim (Option-cases (hint_of jti)) [
  | inl g ↦ absurd (ground arith)
  | inr (hint, g) ↦ inr (jti, hint, refl, ground arith, g)
]

hints-eq-none_iff :
    (o : Option String)
    → (hints o ≡ none) ↔ ((jti : String) × (o ≡ some jti) × (hint_of jti ≡ none))
unfolding hints
hints-eq-none_iff none = ground arith
hints-eq-none_iff (some jti) = elim (Option-cases (hint_of jti)) [
  | inl g ↦ (λ _. (jti, refl, g), λ _. rw (g, hints) refl)
  | inr (hint, g) ↦ ground arith
]

from_record-eq-some :
    (now : String) (r : AuditRecord) (e : SplunkEvent)
    → from_record now r ≡ some e
    → (h : Option String) × (hints r.token_jti ≡ some h) × (e ≡ event_with now r h)
unfolding from_record
from_record-eq-some now r e h = after (hints r.token_jti) refl h
  where
    after :
        (o : Option (Option String))
        → hints r.token_jti ≡ o
        → ◌≡◌ {A = Option SplunkEvent}
            (elim o [ none ↦ none | some hint ↦ some (event_with now r hint) ])
            (some e)
        → (h : Option String) × (hints r.token_jti ≡ some h) × (e ≡ event_with now r h)
    after none g k = absurd (ground arith)
    after (some x) g k = (x, g, cc)

-- What an event says of a record.
abbrev pub HintOwed : String → AuditRecord → SplunkEvent → Type 0
HintOwed now r e =
    (e.time ≡ now)
    × (e.response_code ≡ r.response_code)
    × (((r.token_jti ≡ none) × (e.token_jti_hint ≡ none))
        ⊎ ((jti hint : String) × (r.token_jti ≡ some jti)
            × (e.token_jti_hint ≡ some hint)
            × (((len jti ≤ 8) × (hint ≡ jti)) ⊎ ((8 < len jti) × (len hint ≡ 8)))))

-- The hint of an event is the identifier itself where that has at most eight bytes, and otherwise
-- exactly eight bytes, never more of a longer identifier; the other fields are those of the record.
pub from_record-hint :
    (now : String) (r : AuditRecord) (e : SplunkEvent)
    → from_record now r ≡ some e
    → HintOwed now r e
from_record-hint now r e h =
    let (hint, g, same) = from_record-eq-some now r e h in
    rw same (
      refl,
      refl,
      elim (hints-eq-some r.token_jti hint g) [
        | inl (n, m) ↦ inl (n, m)
        | inr (jti, t, j, m, k) ↦ inr (jti, t, j, m, hint_of-eq-some jti t k)
      ],
    )

-- The event of a record panics exactly where the token has an identifier of more than eight bytes
-- whose ninth byte does not begin a character.
pub from_record_panics_iff :
    (now : String) (r : AuditRecord)
    → (from_record now r ≡ none) ↔ (
        (jti : String) × (r.token_jti ≡ some jti)
        × (8 < len jti)
        × (is_char_boundary jti 8 ≡ false))
unfolding from_record
from_record_panics_iff now r = elim (Option-cases (hints r.token_jti)) [
  | inl n ↦
      let (jti, j, k) = (hints-eq-none_iff r.token_jti).0 n in
      (
        λ _. let (long, cut) = (hint_of-eq-none_iff jti).0 k in (jti, j, long, cut),
        λ _. rw (n, from_record) refl,
      )
  | inr (h, g) ↦ (
    λ e. absurd (let q = rw (g, from_record) at e in ground arith),
    λ p. absurd (
        let n =
          (hints-eq-none_iff r.token_jti).1 (p.0, p.1, (hint_of-eq-none_iff p.0).1 (p.2, p.3)) in
        ground arith),
  )
]
