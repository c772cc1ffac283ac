-- ===== src/Cache/Laws.antt =====
-- What a reader of the cache of utils/cache.ts can observe.
use text.Mathlib.Text.{starts_with}
use quipay_backend.Prelude.{
  refl, ℕ, ◌+◌, ◌≤◌, ◌≡◌, String, Option, none, some, [], ◌∷◌, leb, if◌then◌else◌, arith, ◌==◌,
  eq_iff, string_eq,
}
use quipay_backend.Map
use quipay_backend.Cache.{SimpleCache, set, get, del, clear, invalidate_by_prefix}

module _ {A : Type 0} where
  -- The abstract cache: the value that each key has at each time.
  abbrev pub view : SimpleCache A → String → ℕ → Option A
  view cache key now = (get cache key now).0

  -- After `set`, the key reads as the value up to and including `now + ttl_ms`, and as absent from
  -- then on; every other key reads as before.
  pub view-set :
      (cache : SimpleCache A) (key j : String) (value : A) (ttl_ms now t : ℕ)
      → view (set cache key value ttl_ms now) j t
        ≡ (if key == j then (if leb t (now + ttl_ms) then some value else none) else view cache j t)
  unfolding get set
  view-set cache key j value ttl_ms now t =
      ground
        (arith, Map.lookup-insert key j (record { value = value; expiry = now + ttl_ms }) cache)

  -- The removal of an expired item by `get` is never observed: with a clock that does not go back,
  -- every later read of every key gives what it would have given.
  pub view-get :
      (cache : SimpleCache A) (key j : String) (now t : ℕ)
      → now ≤ t
      → view (get cache key now).1 j t ≡ view cache j t
  unfolding get
  view-get cache key j now t h = ground (arith, Map.lookup-delete key j cache, eq_iff key j)

  lookup-invalidate_by_prefix :
      (cache : SimpleCache A) (prefix j : String)
      → Map.lookup j (invalidate_by_prefix cache prefix)
        ≡ (if starts_with j prefix then none else Map.lookup j cache)
  unfolding invalidate_by_prefix Map.lookup
  lookup-invalidate_by_prefix [] prefix j = ground arith
  lookup-invalidate_by_prefix ((i, item) ∷ cache) prefix j =
      ground (arith, eq_iff i j, lookup-invalidate_by_prefix cache prefix j)

  -- Invalidation by a prefix makes exactly the keys that start with it read as absent, at all times.
  pub view-invalidate_by_prefix :
      (cache : SimpleCache A) (prefix j : String) (t : ℕ)
      → view (invalidate_by_prefix cache prefix) j t
        ≡ (if starts_with j prefix then none else view cache j t)
  unfolding get
  view-invalidate_by_prefix cache prefix j t =
      ground (arith, lookup-invalidate_by_prefix cache prefix j)

  pub view-del :
      (cache : SimpleCache A) (key j : String) (t : ℕ)
      → view (del cache key) j t ≡ (if key == j then none else view cache j t)
  unfolding get del
  view-del cache key j t = ground (arith, Map.lookup-delete key j cache)

  pub view-clear : (cache : SimpleCache A) (key : String) (t : ℕ) → view (clear cache) key t ≡ none
  unfolding get clear Map.lookup
  view-clear cache key t = refl
