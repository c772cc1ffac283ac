-- ===== src/Summaries/Invalidation.antt =====
-- What the invalidation of services/payrollSummaryCache.ts leaves to read.
use text.Mathlib.Text.{starts_with}
use quipay_backend.Prelude.{
  ℕ, String, ◌≡◌, refl, ap, ◌∙◌, ◌≢◌, inl, inr, true, false, Option, none, some, List, [], ◌∷◌,
  Option-cases, if-split, if-true, ◌==◌, nat_eq, string_eq, any,
}
use quipay_backend.Cache.Laws.{view, view-invalidate_by_prefix}
use quipay_backend.Summaries.{
  Redis, Process, get_cached_payroll_summary, delete_keys, invalidate_payroll_summary_cache,
}

module _ {R A : Type 0} (redis : Redis R A) where
  -- KEYS, asked for this prefix and `*`, lists every key with the prefix in front under which there is
  -- a value, as it does for a prefix that has none of the characters of a glob pattern.
  abbrev pub ListsKeys : String → Type 0
  ListsKeys prefix =
      (r : R) (k : String) (ks : List String) (t : ℕ) (v : A)
      → redis.keys r prefix ≡ some ks
      → starts_with k prefix ≡ true
      → redis.get r k t ≡ some (some v)
      → any (λ (j : String). j == k) ks ≡ true

  -- DEL leaves no value under the keys that it is given, and makes none.
  abbrev pub Deletes : Type 0
  Deletes =
      (r after : R) (ks : List String) (k : String) (t : ℕ) (v : A)
      → redis.del r ks ≡ some after
      → redis.get after k t ≡ some (some v)
      → (any (λ (j : String). j == k) ks ≡ false) × (redis.get r k t ≡ some (some v))

  -- Neither Redis, if the process still asks it, nor the cache of the process has a value.
  abbrev HasNo : String → ℕ → R × Process A → Type 0
  HasNo key t s =
      (s.1.connected ≡ true → (v : A) → redis.get s.0 key t ≢ some (some v))
      × (view s.1.cache key t ≡ none)

  get_cached-HasNo :
      (key : String) (t : ℕ) (s : R × Process A)
      → HasNo key t s
      → (get_cached_payroll_summary redis s.0 s.1 key t).0 ≡ none
  unfolding get_cached_payroll_summary
  get_cached-HasNo key t s h =
      if-split (λ (o : Option A × Process A). o.0 ≡ none) s.1.connected
        (λ asks. elim (Option-cases (redis.get s.0 key t)) [
          | inl failed ↦ rw failed h.1
          | inr (o, answer) ↦ elim (Option-cases o) [
            | inl missing ↦ rw (answer, missing) h.1
            | inr (v, there) ↦ absurd (h.0 asks v (answer ∙ ap some there))
          ]
        ])
        (λ _. h.1)

  delete_keys-gone :
      (prefix : String)
      → ListsKeys prefix
      → Deletes
      → (r : R) (p : Process A) (key : String) (t : ℕ) → starts_with key prefix ≡ true
      → (listed : Option (List String)) → redis.keys r prefix ≡ listed
      → (delete_keys redis r listed p).1.connected ≡ true
      → (v : A) → redis.get (delete_keys redis r listed p).0 key t ≢ some (some v)
  delete_keys-gone prefix lists deletes r p key t under none answer asks v there = absurd (cc asks)
  delete_keys-gone prefix lists deletes r p key t under (some []) answer asks v there =
      absurd (let found = lists r key [] t v answer under there in cc)
  delete_keys-gone prefix lists deletes r p key t under (some (k ∷ ks)) answer asks v there =
      elim (Option-cases (redis.del r (k ∷ ks))) [
        | inl failed ↦ absurd (cc (rw failed at asks))
        | inr (after, deleted) ↦
            let gone = deletes r after (k ∷ ks) key t v deleted (rw deleted at there) in
            let found = lists r key (k ∷ ks) t v answer under gone.1 in
            absurd (let missing = gone.0 in cc)
      ]

  -- Where KEYS lists the keys of the prefix and DEL deletes, the process that has invalidated a prefix
  -- reads no summary under it right after that, whichever commands of Redis fail: once Redis has failed
  -- it, it does not ask Redis again. This says nothing of another process.
  pub get_cached_payroll_summary-invalidate_payroll_summary_cache :
      (prefix : String)
      → ListsKeys prefix
      → Deletes
      → (r : R) (p : Process A) (key : String) (t : ℕ) → starts_with key prefix ≡ true
      → (get_cached_payroll_summary redis
          (invalidate_payroll_summary_cache redis prefix r p).0
          (invalidate_payroll_summary_cache redis prefix r p).1
          key
          t).0
        ≡ none
  unfolding invalidate_payroll_summary_cache
  get_cached_payroll_summary-invalidate_payroll_summary_cache prefix lists deletes r p key t under =
      get_cached-HasNo key t (invalidate_payroll_summary_cache redis prefix r p) (
        if-split
            (λ (s : R × Process A).
              s.1.connected ≡ true → (v : A) → redis.get s.0 key t ≢ some (some v))
            p.connected
            (λ _ asks v.
              delete_keys-gone prefix lists deletes r p key t under (redis.keys r prefix) refl asks
                v)
            (λ silent asks v there. absurd (cc asks)),
        view-invalidate_by_prefix _ prefix key t ∙ if-true (starts_with key prefix) _ under,
      )
