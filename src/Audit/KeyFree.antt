-- ===== src/Audit/KeyFree.antt =====
-- What audit/redactionEngine.ts leaves of a text: no Stellar secret key, behind the replacement of keys
-- and JSON web tokens and in front of that of bearer tokens.
use mathlib.Core.Path.{subst}
use quipay_backend.Prelude.{
  ℕ, zero, suc, ◌-◌, ◌≤◌, ◌≡◌, refl, sym, ◌≢◌, ◌⊎◌, inl, inr, true, false, ◌&&◌, none, some, List,
  [], ◌∷◌, ◌++◌, arith, leb, eqb, if◌then◌else◌, le→leb, Bool-cases, Option-cases, if-split,
  if-false, nat_eq, string_eq, length, All,
}
use quipay_backend.Audit.Redaction.{
  Match, match_key, match_jwt, replace_all, run_length, is_key_char, hidden, hide_keys, hide_jwts,
  redact_string, is_seed_phrase, match_bearer, hidden_bearer,
}

-- At no place does a text match the pattern of a secret key.
abbrev IsKeyFree : List ℕ → Type 0
IsKeyFree [] = Unit
IsKeyFree (c ∷ cs) = (match_key (c ∷ cs) ≡ none) × IsKeyFree cs

module _ (m : Match) (c : ℕ) (cs : List ℕ) where
  replace_all-none :
      m (c ∷ cs) ≡ none → replace_all m hidden 0 (c ∷ cs) ≡ c ∷ replace_all m hidden 0 cs
  unfolding replace_all
  replace_all-none h = rw (h, replace_all) refl

  replace_all-some :
      (n : ℕ)
      → m (c ∷ cs) ≡ some n
      → replace_all m hidden 0 (c ∷ cs) ≡ hidden ++ replace_all m hidden (n - 1) cs
  unfolding replace_all
  replace_all-some n h = rw (h, replace_all) refl

module _ (m : Match) where
  -- What replaces a match starts with a bracket, so no run of key characters grows.
  run_length-replace_all :
      (cs : List ℕ) → run_length is_key_char (replace_all m hidden 0 cs) ≤ run_length is_key_char cs
  unfolding run_length replace_all
  run_length-replace_all [] = omega arith
  run_length-replace_all (c ∷ cs) = elim (Option-cases (m (c ∷ cs))) [
    | inl here ↦
        subst (λ l. run_length is_key_char l ≤ run_length is_key_char (c ∷ cs))
          (sym (replace_all-none m c cs here)) (longer (run_length-replace_all cs))
    | inr (n, found) ↦
        subst (λ l. run_length is_key_char l ≤ run_length is_key_char (c ∷ cs))
          (sym (replace_all-some m c cs n found)) (omega arith)
  ]
    where
      longer :
          {a b : ℕ}
          → a ≤ b
          → (if is_key_char c then suc a else 0) ≤ (if is_key_char c then suc b else 0)
      longer h = ground (arith, h)

  still_no_key :
      (c : ℕ) (cs : List ℕ)
      → match_key (c ∷ cs) ≡ none
      → match_key (c ∷ replace_all m hidden 0 cs) ≡ none
  still_no_key c cs h =
      let shorter = run_length-replace_all cs in
      elim (Bool-cases (eqb c b'S' && leb 55 (run_length is_key_char cs))) [
        | inl t ↦ absurd (cc (rw t at h))
        | inr f ↦ if-false _ _ (fewer _ _ shorter f)
      ]
    where
      fewer :
          (a b : ℕ) → a ≤ b → (eqb c b'S' && leb 55 b) ≡ false → (eqb c b'S' && leb 55 a) ≡ false
      fewer a b le h = ground (arith, le, h)

  hidden-IsKeyFree : (cs : List ℕ) → IsKeyFree cs → IsKeyFree (hidden ++ cs)
  hidden-IsKeyFree cs h =
      (refl, (refl, (refl, (refl, (refl, (refl, (refl, (refl, (refl, (refl, h))))))))))

  -- A replacement brings no key into a text that has none.
  IsKeyFree-replace_all :
      (skip : ℕ) (cs : List ℕ) → IsKeyFree cs → IsKeyFree (replace_all m hidden skip cs)
  unfolding replace_all
  IsKeyFree-replace_all skip [] h = tt
  IsKeyFree-replace_all (suc skip) (c ∷ cs) h = IsKeyFree-replace_all skip cs h.1
  IsKeyFree-replace_all zero (c ∷ cs) h = elim (Option-cases (m (c ∷ cs))) [
    | inl here ↦
        subst IsKeyFree (sym (replace_all-none m c cs here))
          (still_no_key c cs h.0, IsKeyFree-replace_all zero cs h.1)
    | inr (n, found) ↦
        subst IsKeyFree (sym (replace_all-some m c cs n found))
          (hidden-IsKeyFree _ (IsKeyFree-replace_all (n - 1) cs h.1))
  ]

keys-IsKeyFree : (skip : ℕ) (cs : List ℕ) → IsKeyFree (replace_all match_key hidden skip cs)
unfolding replace_all
keys-IsKeyFree skip [] = tt
keys-IsKeyFree (suc skip) (c ∷ cs) = keys-IsKeyFree skip cs
keys-IsKeyFree zero (c ∷ cs) = elim (Option-cases (match_key (c ∷ cs))) [
  | inl here ↦
      subst IsKeyFree (sym (replace_all-none match_key c cs here))
        (still_no_key match_key c cs here, keys-IsKeyFree zero cs)
  | inr (n, found) ↦
      subst IsKeyFree (sym (replace_all-some match_key c cs n found))
        (hidden-IsKeyFree match_key _ (keys-IsKeyFree (n - 1) cs))
]

-- The characters A to Z and 0 to 9.
abbrev pub IsKeyChar : ℕ → Type 0
IsKeyChar c = ((b'A' ≤ c) × (c ≤ b'Z')) ⊎ ((b'0' ≤ c) × (c ≤ b'9'))

-- There is no secret key in a text: no S with 55 such characters behind it.
abbrev pub HasNoKey : List ℕ → Type 0
HasNoKey text =
    (front key behind : List ℕ)
    → length key ≡ 55
    → All IsKeyChar key
    → text ≢ front ++ b'S' ∷ (key ++ behind)

IsKeyChar-test : (c : ℕ) → IsKeyChar c → is_key_char c ≡ true
IsKeyChar-test c (inl h) = ground (arith, h)
IsKeyChar-test c (inr h) = ground (arith, h)

run_length-key :
    (key behind : List ℕ) → All IsKeyChar key → length key ≤ run_length is_key_char (key ++ behind)
unfolding run_length
run_length-key [] behind h = omega arith
run_length-key (c ∷ key) behind h =
    rw (IsKeyChar-test c h.0) (let rest = run_length-key key behind h.1 in omega (arith, rest))

IsKeyFree-behind : (front behind : List ℕ) → IsKeyFree (front ++ behind) → IsKeyFree behind
IsKeyFree-behind [] behind h = h
IsKeyFree-behind (c ∷ front) behind h = IsKeyFree-behind front behind h.1

IsKeyFree-HasNoKey : (text : List ℕ) → IsKeyFree text → HasNoKey text
IsKeyFree-HasNoKey text free front key behind long chars same =
    let here = IsKeyFree-behind front (b'S' ∷ (key ++ behind)) (subst IsKeyFree same free) in
    let run = run_length-key key behind chars in
    let enough : leb 55 (run_length is_key_char (key ++ behind)) ≡ true =
      le→leb 55 _ (omega (arith, long, run)) in
    absurd (cc (rw enough at here.0))

-- What stands for a text in the log: the placeholder for a seed phrase; else a text without a secret key,
-- where bearer tokens have been replaced after that.
abbrev pub IsCleaned : List ℕ → List ℕ → Type 0
IsCleaned value text =
    ((is_seed_phrase value ≡ true) × (text ≡ hidden))
    ⊎ ((keyless : List ℕ) × HasNoKey keyless
        × (text ≡ replace_all match_bearer hidden_bearer 0 keyless))

pub redact_string-IsCleaned : (value : List ℕ) → IsCleaned value (redact_string value)
unfolding redact_string
redact_string-IsCleaned value =
    let keyless = hide_jwts (hide_keys value) in
    let free = IsKeyFree-replace_all match_jwt 0 (hide_keys value) (keys-IsKeyFree 0 value) in
    if-split (IsCleaned value) (is_seed_phrase value) (λ t. inl (t, refl))
      (λ f. inr (keyless, IsKeyFree-HasNoKey keyless free, refl))
