-- ===== src/Audit/Redaction.antt =====
-- audit/redactionEngine.ts. A text is the list of its code units, a JSON value has the fields of an
-- object in their order; a number is not looked into, and ℕ stands for it.
use quipay_backend.Prelude.{
  ℕ, zero, suc, ◌+◌, ◌-◌, Bool, true, false, ◌&&◌, ◌||◌, Option, none, some, List, [], ◌∷◌, ◌++◌,
  map, leb, eqb, if◌then◌else◌, nat_eq, string_eq, length, drop, any,
}

mutual
  pub data Value : Type 0 where
    null : Value
    boolean : Bool → Value
    number : ℕ → Value
    string : List ℕ → Value
    array : Items → Value
    object : Fields → Value

  pub data Items : Type 0 where
    end : Items
    item : Value → Items → Items

  pub data Fields : Type 0 where
    no_field : Fields
    field : List ℕ → Value → Fields → Fields

abbrev between : ℕ → ℕ → ℕ → Bool
between low high c = leb low c && leb c high

-- `[A-Z0-9]`
abbrev pub is_key_char : ℕ → Bool
is_key_char c = between b'A' b'Z' c || between b'0' b'9' c

-- `[A-Za-z0-9-_]`
abbrev is_token_char : ℕ → Bool
is_token_char c = is_key_char c || (between b'a' b'z' c || (eqb c b'-' || eqb c b'_'))

-- `\s`
abbrev pub is_space : ℕ → Bool
is_space c =
    between 9 13 c
    || (eqb c 32
        || (eqb c 160
            || (eqb c 5760
                || (between 8192 8202 c
                    || (between 8232 8233 c
                        || (eqb c 8239 || (eqb c 8287 || (eqb c 12288 || eqb c 65279))))))))

-- How many characters in front pass a test.
unfoldable pub run_length : (ℕ → Bool) → List ℕ → ℕ
run_length p [] = 0
run_length p (c ∷ cs) = let more = run_length p cs in if p c then suc more else 0

-- A match at the front: how many characters it has.
abbrev pub Match : Type 0
Match = List ℕ → Option ℕ

-- `/S[A-Z0-9]{55}/`
abbrev pub match_key : Match
match_key [] = none
match_key (c ∷ cs) = if eqb c b'S' && leb 55 (run_length is_key_char cs) then some 56 else none

-- A text in front of another, without regard to the case of the letters a to z.
abbrev lower_ascii : ℕ → ℕ
lower_ascii c = if between b'A' b'Z' c then c + 32 else c

abbrev starts_with : (ℕ → ℕ) → List ℕ → List ℕ → Option (List ℕ)
starts_with f [] cs = some cs
starts_with f (p ∷ ps) [] = none
starts_with f (p ∷ ps) (c ∷ cs) = if eqb (f c) p then starts_with f ps cs else none

-- One character or more that pass a test: what is behind them.
abbrev some_chars : (ℕ → Bool) → List ℕ → Option (List ℕ)
some_chars p cs = let n = run_length p cs in if eqb n 0 then none else some (drop n cs)

abbrev and_then : Option (List ℕ) → (List ℕ → Option (List ℕ)) → Option (List ℕ)
and_then none f = none
and_then (some cs) f = f cs

abbrev dot : List ℕ
dot = b'.' ∷ []

-- How long a match is, by what is behind it.
abbrev consumed : List ℕ → Option (List ℕ) → Option ℕ
consumed cs none = none
consumed cs (some rest) = some (length cs - length rest)

-- `/eyJ[A-Za-z0-9-_]+\.[A-Za-z0-9-_]+\.[A-Za-z0-9-_]+/`
unfoldable pub match_jwt : Match
unfolding run_length
match_jwt cs = consumed cs (
    and_then (starts_with (λ c. c) (b'e' ∷ b'y' ∷ b'J' ∷ []) cs) (λ a.
      and_then (some_chars is_token_char a) (λ b. and_then (starts_with (λ c. c) dot b) (λ d.
        and_then (some_chars is_token_char d)
          (λ e. and_then (starts_with (λ c. c) dot e) (some_chars is_token_char))))))

-- `/Bearer\s+[A-Za-z0-9-_]+/i`
unfoldable pub match_bearer : Match
unfolding run_length
match_bearer cs = consumed cs (
    and_then (starts_with lower_ascii (b'b' ∷ b'e' ∷ b'a' ∷ b'r' ∷ b'e' ∷ b'r' ∷ []) cs)
      (λ a. and_then (some_chars is_space a) (some_chars is_token_char)))

-- `value.replace(/…/g, by)`; `skip` is how many characters of a match are left.
unfoldable pub replace_all : Match → List ℕ → ℕ → List ℕ → List ℕ
replace_all m by skip [] = []
replace_all m by (suc skip) (c ∷ cs) = replace_all m by skip cs
replace_all m by zero (c ∷ cs) = elim (m (c ∷ cs)) [
  | none ↦ c ∷ replace_all m by zero cs
  | some n ↦ by ++ replace_all m by (n - 1) cs
]

-- "[REDACTED]"
abbrev pub hidden : List ℕ
hidden = b'[' ∷ b'R' ∷ b'E' ∷ b'D' ∷ b'A' ∷ b'C' ∷ b'T' ∷ b'E' ∷ b'D' ∷ b']' ∷ []

-- "Bearer [REDACTED]"
abbrev pub hidden_bearer : List ℕ
hidden_bearer = b'B' ∷ b'e' ∷ b'a' ∷ b'r' ∷ b'e' ∷ b'r' ∷ b' ' ∷ hidden

-- The words of `value.trim().split(/\s+/)`: how many, and whether each is of the letters a to z. (An
-- empty text has one word for JavaScript and none here; neither is 12 or 24.)
abbrev pub count_words : Bool → List ℕ → ℕ × Bool
count_words inside [] = (0, true)
count_words inside (c ∷ cs) =
    let out = count_words false cs in
    let into = count_words true cs in
    if is_space c
    then out
    else (if inside then into.0 else suc into.0, between b'a' b'z' c && into.1)

unfoldable pub is_seed_phrase : List ℕ → Bool
is_seed_phrase value =
    let words = count_words false value in (eqb words.0 12 || eqb words.0 24) && words.1

abbrev pub hide_keys : List ℕ → List ℕ
hide_keys value = replace_all match_key hidden 0 value

abbrev pub hide_jwts : List ℕ → List ℕ
hide_jwts value = replace_all match_jwt hidden 0 value

unfoldable pub redact_string : List ℕ → List ℕ
unfolding is_seed_phrase replace_all match_jwt match_bearer run_length
redact_string value =
    if is_seed_phrase value
    then hidden
    else replace_all match_bearer hidden_bearer 0 (hide_jwts (hide_keys value))

abbrev pub same_text : List ℕ → List ℕ → Bool
same_text [] [] = true
same_text (a ∷ as') (b ∷ bs) = eqb a b && same_text as' bs
same_text _ _ = false

-- `toLowerCase` is a parameter; `sensitive_fields` are lower-cased when they are added.
pub record RedactionEngine : Type 0 where
  pub lower_case : List ℕ → List ℕ
  pub sensitive_fields : List (List ℕ)

unfoldable pub add_sensitive_field : List ℕ → RedactionEngine → RedactionEngine
add_sensitive_field name e = record e { sensitive_fields = e.lower_case name ∷ e.sensitive_fields }

unfoldable pub new_engine : (List ℕ → List ℕ) → List (List ℕ) → RedactionEngine
new_engine lower_case custom_fields = record {
  lower_case = lower_case;
  sensitive_fields = map lower_case custom_fields;
}

abbrev pub is_sensitive : RedactionEngine → List ℕ → Bool
is_sensitive e key = any (same_text (e.lower_case key)) e.sensitive_fields

unfoldable mutual
  unfolding redact_string

  pub redact : RedactionEngine → Value → Value
  redact e null = null
  redact e (boolean b) = boolean b
  redact e (number n) = number n
  redact e (string s) = string (redact_string s)
  redact e (array vs) = array (redact_items e vs)
  redact e (object fs) = object (redact_object e fs)

  pub redact_items : RedactionEngine → Items → Items
  redact_items e end = end
  redact_items e (item v vs) = item (redact e v) (redact_items e vs)

  pub redact_object : RedactionEngine → Fields → Fields
  redact_object e no_field = no_field
  redact_object e (field key v fs) =
      field key (if is_sensitive e key then string hidden else redact e v) (redact_object e fs)
