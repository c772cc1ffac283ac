-- ===== src/Archive/Anonymizer.antt =====
-- `ArchivePiiAnonymizer` of services/archiveService.ts. A text is the list of its code units; the
-- HMAC (in hexadecimal) and `toLowerCase` are parameters.
use quipay_backend.Prelude.{
  ℕ, zero, suc, ◌+◌, ◌-◌, Bool, true, false, not, ◌&&◌, ◌||◌, Option, none, some, List, [], ◌∷◌,
  ◌++◌, leb, eqb, if◌then◌else◌, nat_eq, string_eq, take, drop, any,
}
use quipay_backend.Audit.Redaction.{
  Value, null, boolean, number, string, array, object, Items, end, item, Fields, no_field, field,
  same_text,
}

pub record Anonymizer : Type 0 where
  pub hmac : List ℕ → List ℕ → List ℕ
  pub salt : List ℕ
  pub lower_case : List ℕ → List ℕ

abbrev between : ℕ → ℕ → ℕ → Bool
between low high c = leb low c && leb c high

-- `\w`
abbrev is_word_char : ℕ → Bool
is_word_char c = between b'a' b'z' c || (between b'A' b'Z' c || (between b'0' b'9' c || eqb c b'_'))

abbrev is_letter : ℕ → Bool
is_letter c = between b'a' b'z' c || between b'A' b'Z' c

-- `[A-Z0-9.-]` and `[A-Z0-9._%+-]`, in any case.
abbrev is_domain_char : ℕ → Bool
is_domain_char c = is_letter c || (between b'0' b'9' c || (eqb c b'.' || eqb c b'-'))

abbrev is_local_char : ℕ → Bool
is_local_char c = is_domain_char c || (eqb c b'_' || (eqb c b'%' || eqb c b'+'))

-- How many characters in front pass a test.
abbrev run_length : (ℕ → Bool) → List ℕ → ℕ
run_length p [] = 0
run_length p (c ∷ cs) = let more = run_length p cs in if p c then suc more else 0

abbrev starts_with_word : List ℕ → Bool
starts_with_word [] = false
starts_with_word (c ∷ cs) = is_word_char c

-- `\.[A-Z]{2,}\b` in front: how many characters it has.
abbrev match_ending : List ℕ → Option ℕ
match_ending [] = none
match_ending (c ∷ cs) =
    let n = run_length is_letter cs in
    if eqb c b'.' && (leb 2 n && not (starts_with_word (drop n cs))) then some (suc n) else none

abbrev longer_or : Option ℕ → Option ℕ → Option ℕ
longer_or (some n) other = some (suc n)
longer_or none other = other

-- Behind one character of a domain: as many more as can be, and the ending.
abbrev match_domain : List ℕ → Option ℕ
match_domain [] = none
match_domain (c ∷ cs) =
    let later = match_domain cs in
    let here = match_ending (c ∷ cs) in if is_domain_char c then longer_or later here else here

abbrev add_to : ℕ → Option ℕ → Option ℕ
add_to n none = none
add_to n (some m) = some (n + m)

abbrev match_host : List ℕ → Option ℕ
match_host [] = none
match_host (c ∷ cs) = if is_domain_char c then add_to 1 (match_domain cs) else none

abbrev match_at_sign : List ℕ → Option ℕ
match_at_sign [] = none
match_at_sign (c ∷ cs) = if eqb c b'@' then add_to 1 (match_host cs) else none

abbrev differ : Bool → Bool → Bool
differ true b = not b
differ false b = b

-- `/\b[A-Z0-9._%+-]+@[A-Z0-9.-]+\.[A-Z]{2,}\b/i` behind a character that is one of a word or not.
abbrev match_email : Bool → List ℕ → Option ℕ
match_email after_word cs =
    let n = run_length is_local_char cs in
    if not (eqb n 0) && differ after_word (starts_with_word cs)
    then add_to n (match_at_sign (drop n cs))
    else none

abbrev is_base_32 : ℕ → Bool
is_base_32 c = between b'A' b'Z' c || between b'2' b'7' c

-- `/\bG[A-Z2-7]{55}\b/`
abbrev match_address : Bool → List ℕ → Option ℕ
match_address after_word [] = none
match_address after_word (c ∷ cs) =
    if not after_word
      && (eqb c b'G' && (leb 55 (run_length is_base_32 cs) && not (starts_with_word (drop 55 cs))))
    then some 56
    else none

-- `text.replace(/…/g, by)`, with whether the character before is one of a word and how many characters
-- of a match are left.
unfoldable pub replace_matches :
    (Bool → List ℕ → Option ℕ) → (List ℕ → List ℕ) → Bool → ℕ → List ℕ → List ℕ
replace_matches m by after_word skip [] = []
replace_matches m by after_word (suc skip) (c ∷ cs) = replace_matches m by (is_word_char c) skip cs
replace_matches m by after_word zero (c ∷ cs) = elim (m after_word (c ∷ cs)) [
  | none ↦ c ∷ replace_matches m by (is_word_char c) zero cs
  | some n ↦ by (take n (c ∷ cs)) ++ replace_matches m by (is_word_char c) (n - 1) cs
]

abbrev pub pii_field_names : List (List ℕ)
pii_field_names =
    (b'a' ∷ b'd' ∷ b'd' ∷ b'r' ∷ b'e' ∷ b's' ∷ b's' ∷ [])
    ∷ (b'e' ∷ b'm' ∷ b'a' ∷ b'i' ∷ b'l' ∷ [])
    ∷ (b'e' ∷ b'm' ∷ b'p' ∷ b'l' ∷ b'o' ∷ b'y' ∷ b'e' ∷ b'r' ∷ [])
    ∷ (b'o' ∷ b'w' ∷ b'n' ∷ b'e' ∷ b'r' ∷ b'_' ∷ b'i' ∷ b'd' ∷ [])
    ∷ (b'o' ∷ b'w' ∷ b'n' ∷ b'e' ∷ b'r' ∷ b'i' ∷ b'd' ∷ [])
    ∷ (b'p' ∷ b'r' ∷ b'o' ∷ b'p' ∷ b'o' ∷ b's' ∷ b'e' ∷ b'r' ∷ [])
    ∷ (b's' ∷ b'u' ∷ b'b' ∷ b's' ∷ b'c' ∷ b'r' ∷ b'i' ∷ b'p' ∷ b't' ∷ b'i' ∷ b'o' ∷ b'n' ∷ b'_'
        ∷ b'i' ∷ b'd' ∷ [])
    ∷ (b's' ∷ b'u' ∷ b'b' ∷ b's' ∷ b'c' ∷ b'r' ∷ b'i' ∷ b'p' ∷ b't' ∷ b'i' ∷ b'o' ∷ b'n' ∷ b'i'
        ∷ b'd' ∷ [])
    ∷ (b'u' ∷ b'r' ∷ b'l' ∷ [])
    ∷ (b'u' ∷ b's' ∷ b'e' ∷ b'r' ∷ b'_' ∷ b'i' ∷ b'd' ∷ [])
    ∷ (b'u' ∷ b's' ∷ b'e' ∷ b'r' ∷ b'i' ∷ b'd' ∷ [])
    ∷ (b'w' ∷ b'a' ∷ b'l' ∷ b'l' ∷ b'e' ∷ b't' ∷ [])
    ∷ (b'w' ∷ b'a' ∷ b'l' ∷ b'l' ∷ b'e' ∷ b't' ∷ b'a' ∷ b'd' ∷ b'd' ∷ b'r' ∷ b'e' ∷ b's' ∷ b's'
        ∷ [])
    ∷ (b'w' ∷ b'o' ∷ b'r' ∷ b'k' ∷ b'e' ∷ b'r' ∷ [])
    ∷ []

module _ (a : Anonymizer) where
  unfoldable pub fingerprint : (kind value : List ℕ) → List ℕ
  fingerprint kind value = take 24 (a.hmac a.salt (kind ++ b':' ∷ value))

  unfoldable pub pseudonymize : (kind value : List ℕ) → List ℕ
  unfolding fingerprint
  pseudonymize kind value = kind ++ b'_' ∷ fingerprint kind value

  abbrev email_kind : List ℕ
  email_kind = b'e' ∷ b'm' ∷ b'a' ∷ b'i' ∷ b'l' ∷ []

  abbrev stellar_kind : List ℕ
  stellar_kind = b's' ∷ b't' ∷ b'e' ∷ b'l' ∷ b'l' ∷ b'a' ∷ b'r' ∷ []

  unfoldable pub mask_text : List ℕ → List ℕ
  unfolding replace_matches pseudonymize
  mask_text value =
      replace_matches match_address (pseudonymize stellar_kind) false 0
        (replace_matches match_email (pseudonymize email_kind) false 0 value)

  -- `key && PII_FIELD_NAMES.has(key.toLowerCase())`; an empty key is none.
  abbrev pub is_pii : List ℕ → Bool
  is_pii [] = false
  is_pii (c ∷ cs) = any (same_text (a.lower_case (c ∷ cs))) pii_field_names

  abbrev pub anonymize_text : (key value : List ℕ) → List ℕ
  anonymize_text key value =
      if is_pii key then pseudonymize (a.lower_case key) value else mask_text value

  -- The key is the one of the field that the value stands in, also through arrays.
  unfoldable mutual
    unfolding mask_text pseudonymize

    pub anonymize_value : List ℕ → Value → Value
    anonymize_value key null = null
    anonymize_value key (boolean b) = boolean b
    anonymize_value key (number n) = number n
    anonymize_value key (string s) = string (anonymize_text key s)
    anonymize_value key (array vs) = array (anonymize_items key vs)
    anonymize_value key (object fs) = object (anonymize_fields fs)

    pub anonymize_items : List ℕ → Items → Items
    anonymize_items key end = end
    anonymize_items key (item v vs) = item (anonymize_value key v) (anonymize_items key vs)

    pub anonymize_fields : Fields → Fields
    anonymize_fields no_field = no_field
    anonymize_fields (field k v fs) = field k (anonymize_value k v) (anonymize_fields fs)
