-- ===== src/Cache.antt =====
-- utils/cache.ts: the in-memory cache with a time to live for each key. The clock, `Date.now()`,
-- is an argument of each call, in milliseconds.
pub mod Laws
pub mod Histories
mod Tests
use text.Mathlib.Text.{starts_with}
use quipay_backend.Prelude.{
  ℕ, ◌+◌, String, Option, none, some, List, [], ◌∷◌, ltb, if◌then◌else◌, string_eq,
}
use quipay_backend.Map

pub record CacheItem (A : Type 0) : Type 0 where
  pub value : A
  pub expiry : ℕ

-- `private cache: Map<string, CacheItem<any>>`
abbrev pub SimpleCache : Type 0 → Type 0
SimpleCache A = List (String × CacheItem A)

module _ {A : Type 0} where
  pub set : SimpleCache A → String → A → ℕ → ℕ → SimpleCache A
  set cache key value ttl_ms now =
      Map.insert key (record { value = value; expiry = now + ttl_ms }) cache

  -- An expired item is removed when it is read.
  pub get : SimpleCache A → String → ℕ → Option A × SimpleCache A
  get cache key now = elim (Map.lookup key cache) [
    | none ↦ (none, cache)
    | some item ↦
        if ltb item.expiry now then (none, Map.delete key cache) else (some item.value, cache)
  ]

  pub del : SimpleCache A → String → SimpleCache A
  del cache key = Map.delete key cache

  pub clear : SimpleCache A → SimpleCache A
  clear cache = []

  -- The loop over `cache.keys()`; a `Map` may be reduced while it is walked.
  pub invalidate_by_prefix : SimpleCache A → String → SimpleCache A
  invalidate_by_prefix [] prefix = []
  invalidate_by_prefix ((key, item) ∷ cache) prefix =
      let rest = invalidate_by_prefix cache prefix in
      if starts_with key prefix then rest else (key, item) ∷ rest
