-- ===== src/Audit/Redacted.antt =====
-- What audit/redactionEngine.ts leaves of a value.
use quipay_backend.Prelude.{
  ℕ, ◌≡◌, refl, ◌⊎◌, inl, inr, Bool, true, false, List, if-split, nat_eq, string_eq, any,
}
use quipay_backend.Audit.KeyFree.{IsCleaned, redact_string-IsCleaned}
use quipay_backend.Audit.Redaction.{
  Value, null, boolean, number, string, array, object, Items, end, item, Fields, no_field, field,
  RedactionEngine, same_text, redact, redact_items, redact_object, hidden,
}

-- A value and what is left of it: of the same shape, with the same keys in the same order; every text,
-- however deep, is cleaned, and every field of a sensitive name has the placeholder.
module _ (e : RedactionEngine) where
  -- The name in lower case is one of the list.
  abbrev is_listed : List ℕ → Bool
  is_listed key = any (same_text (e.lower_case key)) e.sensitive_fields

  mutual
    pub IsRedacted : Value → Value → Type 0
    IsRedacted null null = Unit
    IsRedacted (boolean b) (boolean c) = b ≡ c
    IsRedacted (number m) (number n) = m ≡ n
    IsRedacted (string s) (string t) = IsCleaned s t
    IsRedacted (array vs) (array ws) = AreRedacted vs ws
    IsRedacted (object fs) (object gs) = HasRedacted fs gs
    IsRedacted _ _ = ⊥

    AreRedacted : Items → Items → Type 0
    AreRedacted end end = Unit
    AreRedacted (item v vs) (item w ws) = IsRedacted v w × AreRedacted vs ws
    AreRedacted _ _ = ⊥

    HasRedacted : Fields → Fields → Type 0
    HasRedacted no_field no_field = Unit
    HasRedacted (field k v fs) (field l w gs) =
        (k ≡ l)
        × (((is_listed k ≡ true) × (w ≡ string hidden)) ⊎ ((is_listed k ≡ false) × IsRedacted v w))
        × HasRedacted fs gs
    HasRedacted _ _ = ⊥

  mutual
    unfolding redact IsRedacted

    value-IsRedacted : (v : Value) → IsRedacted v (redact e v)
    value-IsRedacted null = tt
    value-IsRedacted (boolean b) = refl
    value-IsRedacted (number n) = refl
    value-IsRedacted (string s) = redact_string-IsCleaned s
    value-IsRedacted (array vs) = items-AreRedacted vs
    value-IsRedacted (object fs) = fields-HasRedacted fs

    items-AreRedacted : (vs : Items) → AreRedacted vs (redact_items e vs)
    items-AreRedacted end = tt
    items-AreRedacted (item v vs) = (value-IsRedacted v, items-AreRedacted vs)

    fields-HasRedacted : (fs : Fields) → HasRedacted fs (redact_object e fs)
    fields-HasRedacted no_field = tt
    fields-HasRedacted (field k v fs) =
        let below = value-IsRedacted v in
        let rest = fields-HasRedacted fs in
        (
          refl,
          if-split
              (λ (w : Value).
                ((is_listed k ≡ true) × (w ≡ string hidden))
                ⊎ ((is_listed k ≡ false) × IsRedacted v w))
              (is_listed k) (λ t. inl (t, refl)) (λ f. inr (f, below)),
          rest,
        )
