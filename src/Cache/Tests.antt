-- ===== src/Cache/Tests.antt =====
-- Runs of the cache of utils/cache.ts, and its refinement at an input.
use quipay_backend.Prelude.{ℕ, ◌≡◌, none, some, [], ◌∷◌, arith, nat_eq, string_eq}
use quipay_backend.Map
use quipay_backend.Cache.{SimpleCache}
use quipay_backend.Cache
use quipay_backend.Cache.Histories.{History, set, get, results, results-refine}

abbrev two_items : SimpleCache ℕ
two_items =
    ("analytics:trends:30", record { value = 1; expiry = 50 })
    ∷ ("analytics:summary", record { value = 2; expiry = 90 })
    ∷ []

abbrev history : History ℕ
history =
    (50, get "analytics:trends:30")
    ∷ (51, get "analytics:trends:30")
    ∷ (60, set "analytics:summary" 7 10)
    ∷ (70, get "analytics:summary")
    ∷ (71, get "analytics:summary")
    ∷ []

results-refine_example : results history two_items ≡ some 1 ∷ none ∷ some 7 ∷ none ∷ []
unfolding Cache.get Map.lookup
results-refine_example =
    results-refine history two_items
      (omega arith, (omega arith, (omega arith, (omega arith, (omega arith, tt)))))
