-- ===== src/Cctp/Messages.antt =====
-- What the parser of services/cctpIndexer.ts takes for the amount of a message.
use quipay_backend.Prelude.{
  ℕ, zero, suc, ◌+◌, ◌-◌, ◌≤◌, ◌<◌, ◌≡◌, refl, ap, ◌∙◌, false, not, ◌||◌, none, some, List, [], ◌∷◌,
  ◌++◌, arith, eqb, if-false, nat_eq, string_eq, length, take, drop, length-drop,
}
use quipay_backend.Cctp.{is_empty, value, amount_hex, parse_cctp_message}

-- A message in the documented format: four bytes of version and of each domain, eight of nonce, and 32 of
-- sender, recipient, caller at the destination and amount; two digits are a byte.
pub record Message : Type 0 where
  pub version : List ℕ
  pub source_domain : List ℕ
  pub destination_domain : List ℕ
  pub nonce : List ℕ
  pub sender : List ℕ
  pub recipient : List ℕ
  pub destination_caller : List ℕ
  pub amount : List ℕ
  pub body : List ℕ

abbrev pub encode : Message → List ℕ
encode m =
    m.version
    ++ (m.source_domain
        ++ (m.destination_domain
            ++ (m.nonce
                ++ (m.sender ++ (m.recipient ++ (m.destination_caller ++ (m.amount ++ m.body)))))))

abbrev pub IsWellFormed : Message → Type 0
IsWellFormed m =
    (m.version ≡ 0 ∷ 0 ∷ 0 ∷ 0 ∷ 0 ∷ 0 ∷ 0 ∷ 0 ∷ [])
    × (length m.source_domain ≡ 8)
    × (length m.destination_domain ≡ 8)
    × (length m.nonce ≡ 16)
    × (length m.sender ≡ 64)
    × (length m.recipient ≡ 64)
    × (length m.destination_caller ≡ 64)
    × (length m.amount ≡ 64)

drop-past : (n : ℕ) (xs ys : List ℕ) → length xs ≤ n → drop n (xs ++ ys) ≡ drop (n - length xs) ys
drop-past n [] ys h = ap (λ k. drop k ys) (omega arith)
drop-past zero (x ∷ xs) ys h = absurd (omega (arith, h))
drop-past (suc n) (x ∷ xs) ys h =
    drop-past n xs ys (omega (arith, h)) ∙ ap (λ k. drop k ys) (omega arith)

drop-within : (n : ℕ) (xs ys : List ℕ) → n ≤ length xs → drop n (xs ++ ys) ≡ drop n xs ++ ys
drop-within zero xs ys h = refl
drop-within (suc n) [] ys h = absurd (omega (arith, h))
drop-within (suc n) (x ∷ xs) ys h = drop-within n xs ys (omega (arith, h))

take-past :
    (n : ℕ) (xs ys : List ℕ) → length xs ≤ n → take n (xs ++ ys) ≡ xs ++ take (n - length xs) ys
take-past n [] ys h = ap (λ k. take k ys) (omega arith)
take-past zero (x ∷ xs) ys h = absurd (omega (arith, h))
take-past (suc n) (x ∷ xs) ys h =
    ap (λ rest. x ∷ rest)
      (take-past n xs ys (omega (arith, h)) ∙ ap (λ k. xs ++ take k ys) (omega arith))

take-within : (n : ℕ) (xs ys : List ℕ) → n ≤ length xs → take n (xs ++ ys) ≡ take n xs
take-within zero xs ys h = refl
take-within (suc n) [] ys h = absurd (omega (arith, h))
take-within (suc n) (x ∷ xs) ys h = ap (λ rest. x ∷ rest) (take-within n xs ys (omega (arith, h)))

-- A field of known length in front.
drop-field : (k n : ℕ) (xs ys : List ℕ) → length xs ≡ k → drop (k + n) (xs ++ ys) ≡ drop n ys
drop-field k n xs ys h =
    drop-past (k + n) xs ys (omega (arith, h)) ∙ ap (λ i. drop i ys) (omega (arith, h))

-- The digits from 156 on for 64 of a message.
amount_hex-encode :
    (m : Message)
    → IsWellFormed m
    → amount_hex (encode m) ≡ drop 52 m.recipient ++ take 52 m.destination_caller
amount_hex-encode m h =
    let rest = m.amount ++ m.body in
    let tail = m.destination_caller ++ rest in
    let recipient = drop 52 m.recipient in
    let dropped : drop 156 (encode m) ≡ recipient ++ tail =
      drop-field 8 148 m.version _ (ap length h.0)
      ∙ drop-field 8 140 m.source_domain _ h.1
      ∙ drop-field 8 132 m.destination_domain _ h.2
      ∙ drop-field 16 116 m.nonce _ h.3
      ∙ drop-field 64 52 m.sender _ h.4
      ∙ drop-within 52 m.recipient tail (omega (arith, h.5)) in
    let twelve : length recipient ≡ 12 = omega (arith, length-drop 52 m.recipient, h.5) in
    let left : 64 - length recipient ≡ 52 = omega (arith, twelve) in
    rw dropped (
      take-past 64 recipient tail (omega (arith, twelve))
      ∙ ap (λ k. recipient ++ take k tail) left
      ∙ ap (λ l. recipient ++ l) (take-within 52 m.destination_caller rest (omega (arith, h.6))))

is_version_0 :
    (v rest : List ℕ)
    → v ≡ 0 ∷ 0 ∷ 0 ∷ 0 ∷ 0 ∷ 0 ∷ 0 ∷ 0 ∷ []
    → (is_empty (v ++ rest) || not (eqb (value (take 8 (v ++ rest))) 0)) ≡ false
is_version_0 v rest h = rw h refl

some_digit : (xs ys : List ℕ) → 0 < length xs → is_empty (xs ++ ys) ≡ false
some_digit [] ys h = absurd (omega (arith, h))
some_digit (x ∷ xs) ys h = refl

not_empty : (xs ys : List ℕ) → length xs ≡ 64 → is_empty (drop 52 xs ++ ys) ≡ false
not_empty xs ys h = some_digit (drop 52 xs) ys (omega (arith, length-drop 52 xs, h))

-- The amount that is parsed of a well-formed message of version 0 is made of the last six bytes of the
-- recipient and the first 26 of the caller at the destination: it does not depend on the amount of the
-- message.
pub parse_cctp_message-encode :
    (m : Message)
    → IsWellFormed m
    → parse_cctp_message (encode m)
      ≡ some (record {
        message_hash = encode m;
        amount = value (drop 52 m.recipient ++ take 52 m.destination_caller);
      })
unfolding parse_cctp_message
parse_cctp_message-encode m h =
    let digits = amount_hex-encode m h in
    if-false _ none (is_version_0 m.version _ h.0)
    ∙ if-false (is_empty (amount_hex (encode m))) none
        (rw digits (not_empty m.recipient (take 52 m.destination_caller) h.5))
    ∙ ap (λ ds. some (record { message_hash = encode m; amount = value ds })) digits
