-- ===== src/Summaries.antt =====
-- services/payrollSummaryCache.ts: the payroll summaries, in Redis and in the cache of the process. Redis
-- is a parameter; `Date.now()` is an argument, and JSON text stands for its value.
pub mod Invalidation
mod Tests
use quipay_backend.Prelude.{
  ℕ, String, Bool, false, Option, none, some, List, [], ◌∷◌, if◌then◌else◌, nat_eq, string_eq,
}
use quipay_backend.Cache.{SimpleCache}
use quipay_backend.Cache

-- The commands that the code sends, over the states of a server; `none` where one throws. `keys` is given
-- the text in front of the star.
pub record Redis (R A : Type 0) : Type 0 where
  pub get : R → String → ℕ → Option (Option A)
  pub set : R → String → A → ℕ → ℕ → Option R
  pub keys : R → String → Option (List String)
  pub del : R → List String → Option R

-- One process: whether its `redisClient` is not `null`, and its `globalCache`.
pub record Process (A : Type 0) : Type 0 where
  pub connected : Bool
  pub cache : SimpleCache A

module _ {R A : Type 0} (redis : Redis R A) where
  -- `globalCache.get`
  abbrev pub get_local : Process A → String → ℕ → Option A × Process A
  get_local p key now =
      ((Cache.get p.cache key now).0, record p { cache = (Cache.get p.cache key now).1 })

  abbrev pub use_answer : Option (Option A) → Process A → String → ℕ → Option A × Process A
  use_answer none p key now = get_local (record p { connected = false }) key now
  use_answer (some none) p key now = get_local p key now
  use_answer (some (some value)) p key now = (some value, p)

  unfoldable pub get_cached_payroll_summary : R → Process A → String → ℕ → Option A × Process A
  get_cached_payroll_summary r p key now =
      if p.connected then use_answer (redis.get r key now) p key now else get_local p key now

  abbrev pub set_answer : R → Option R → Process A → R × Process A
  set_answer r none p = (r, record p { connected = false })
  set_answer r (some stored) p = (stored, p)

  abbrev pub in_cache : (SimpleCache A → SimpleCache A) → R × Process A → R × Process A
  in_cache f s = (s.0, record s.1 { cache = f s.1.cache })

  unfoldable pub set_cached_payroll_summary :
      String → A → (ttl_ms now : ℕ) → R → Process A → R × Process A
  set_cached_payroll_summary key value ttl_ms now r p =
      in_cache (λ c. Cache.set c key value ttl_ms now)
        (if p.connected then set_answer r (redis.set r key value ttl_ms now) p else (r, p))

  abbrev pub delete_keys : R → Option (List String) → Process A → R × Process A
  delete_keys r none p = (r, record p { connected = false })
  delete_keys r (some []) p = (r, p)
  delete_keys r (some (k ∷ ks)) p = set_answer r (redis.del r (k ∷ ks)) p

  -- The prefix is `payroll-summary:${orgId}:`.
  unfoldable pub invalidate_payroll_summary_cache :
      (prefix : String) → R → Process A → R × Process A
  invalidate_payroll_summary_cache prefix r p =
      in_cache (λ c. Cache.invalidate_by_prefix c prefix)
        (if p.connected then delete_keys r (redis.keys r prefix) p else (r, p))
