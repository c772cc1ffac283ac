-- ===== src/Idempotency/Keys.antt =====
-- The keys under which services/idempotencyService.ts keeps answers.
use quipay_backend.Prelude.{
  ℕ, ◌≡◌, refl, sym, ap, ◌∙◌, true, false, ◌&&◌, List, [], ◌∷◌, ◌++◌, arith, nat_eq, string_eq,
  drop,
}
use quipay_backend.Idempotency.{
  cache_key, prefix, all_key_chars, is_key_char, is_valid_idempotency_key,
}

abbrev tail_of : List ℕ → List ℕ
tail_of [] = []
tail_of (c ∷ cs) = cs

abbrev head_or : ℕ → List ℕ → ℕ
head_or d [] = d
head_or d (c ∷ cs) = c

-- A key has no colon.
no_colon : (e k : List ℕ) → all_key_chars (e ++ b':' ∷ k) ≡ false
no_colon [] k = refl
no_colon (c ∷ e) k = ap (λ b. is_key_char c && b) (no_colon e k) ∙ ground arith

split_at_colon :
    (e e' k k' : List ℕ)
    → all_key_chars k ≡ true
    → all_key_chars k' ≡ true
    → e ++ b':' ∷ k ≡ e' ++ b':' ∷ k'
    → (e ≡ e') × (k ≡ k')
split_at_colon [] [] k k' h h' eq = (refl, ap tail_of eq)
split_at_colon [] (c ∷ e') k k' h h' eq =
    absurd (cc (sym h ∙ ap (λ l. all_key_chars (tail_of l)) eq ∙ no_colon e' k'))
split_at_colon (c ∷ e) [] k k' h h' eq =
    absurd (cc (sym h' ∙ ap (λ l. all_key_chars (tail_of l)) (sym eq) ∙ no_colon e k))
split_at_colon (c ∷ e) (d ∷ e') k k' h h' eq =
    let rest = split_at_colon e e' k k' h h' (ap tail_of eq) in
    let first : c ≡ d = ap (head_or 0) eq in (cc (first, rest.0), rest.1)

valid_chars : (key : List ℕ) → is_valid_idempotency_key key ≡ true → all_key_chars key ≡ true
unfolding is_valid_idempotency_key
valid_chars key h = ground (arith, h)

behind_prefix : (a b : List ℕ) → prefix ++ a ≡ prefix ++ b → a ≡ b
behind_prefix a b h = ap (drop 12) h

-- Two pairs of an endpoint and a valid key share a place in Redis only if they are the same, also where
-- the names of the endpoints have colons.
pub cache_key_injective :
    (endpoint endpoint' key key' : List ℕ)
    → is_valid_idempotency_key key ≡ true
    → is_valid_idempotency_key key' ≡ true
    → cache_key endpoint key ≡ cache_key endpoint' key'
    → (endpoint ≡ endpoint') × (key ≡ key')
unfolding cache_key
cache_key_injective endpoint endpoint' key key' v v' h =
    split_at_colon endpoint endpoint' key key' (valid_chars key v) (valid_chars key' v')
      (behind_prefix _ _ h)
