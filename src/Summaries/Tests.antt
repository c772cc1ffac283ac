-- ===== src/Summaries/Tests.antt =====
-- Runs of services/payrollSummaryCache.ts, and its theorem at an input.
use text.Mathlib.Text.{starts_with}
use mathlib.Core.Path.{subst}
use quipay_backend.Prelude.{
  ℕ, String, ◌≡◌, refl, sym, inl, inr, Bool, true, false, not, ◌&&◌, none, some, List, [], ◌∷◌,
  eq_iff, if◌then◌else◌, Bool-cases, ◌==◌, nat_eq, string_eq, any,
}
use quipay_backend.Map
use quipay_backend.Cache
use quipay_backend.Cache.Laws.{view-set}
use quipay_backend.Summaries.{
  Redis, Process, get_cached_payroll_summary, invalidate_payroll_summary_cache,
}
use quipay_backend.Summaries.Invalidation.{
  ListsKeys, Deletes, get_cached_payroll_summary-invalidate_payroll_summary_cache,
}

abbrev key : String
key = "payroll-summary:G:1"

-- A server with one key at most.
abbrev one_key : Redis Bool ℕ
one_key = record {
  get = λ r k t. some (if r && k == key then some 5 else none);
  set = λ r k v ttl_ms now. some true;
  keys = λ r prefix. some (if r && starts_with key prefix then key ∷ [] else []);
  del = λ r ks. some (r && not (any (λ (j : String). j == key) ks));
}

one_key-ListsKeys : (prefix : String) → ListsKeys one_key prefix
one_key-ListsKeys prefix true k ks t v listed under there = elim (Bool-cases (k == key)) [
  | inl same ↦
      let e : k ≡ key = (eq_iff k key).0 same in
      let at_key : starts_with key prefix ≡ true =
        subst (λ (j : String). starts_with j prefix ≡ true) e under in
      let all = rw at_key at listed in
      let keys : (key ∷ []) ≡ ks = cc in
      subst (λ (js : List String). any (λ (j : String). j == k) js ≡ true) keys
        (rw ((eq_iff key k).1 (sym e)) refl)
  | inr other ↦ absurd (cc (rw other at there))
]
one_key-ListsKeys prefix false k ks t v listed under there = absurd (cc there)

one_key-Deletes : Deletes one_key
one_key-Deletes true true ks k t v deleted there = elim (Bool-cases (k == key)) [
  | inl same ↦ elim (Bool-cases (any (λ (j : String). j == key) ks)) [
    | inl given ↦ absurd (cc (rw given at deleted))
    | inr missing ↦ (
      subst (λ (i : String). any (λ (j : String). j == i) ks ≡ false) (sym ((eq_iff k key).0 same))
          missing,
      there,
    )
  ]
  | inr other ↦ absurd (cc (rw other at there))
]
one_key-Deletes true false ks k t v deleted there = absurd (cc there)
one_key-Deletes false true ks k t v deleted there = absurd (cc deleted)
one_key-Deletes false false ks k t v deleted there = absurd (cc there)

abbrev process : Process ℕ
process = record { connected = true; cache = Cache.set [] key 5 100 0 }

abbrev after : Bool × Process ℕ
after = invalidate_payroll_summary_cache one_key "payroll-summary:G:" true process

get_cached_payroll_summary-invalidate_payroll_summary_cache_example :
    (get_cached_payroll_summary one_key after.0 after.1 key 50).0 ≡ none
get_cached_payroll_summary-invalidate_payroll_summary_cache_example =
    get_cached_payroll_summary-invalidate_payroll_summary_cache one_key "payroll-summary:G:"
      (one_key-ListsKeys "payroll-summary:G:") one_key-Deletes true process key 50 refl

-- Another process has the summary still, in its own cache.
stale_elsewhere : (get_cached_payroll_summary one_key after.0 process key 50).0 ≡ some 5
unfolding get_cached_payroll_summary invalidate_payroll_summary_cache Map.lookup
stale_elsewhere = view-set [] key key 5 100 0 50
