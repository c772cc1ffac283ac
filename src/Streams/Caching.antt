-- ===== src/Streams/Caching.antt =====
-- Which cached answers `upsertStream` of db/queries.ts takes away.
use text.Mathlib.Text.{starts_with}
use quipay_backend.Prelude.{
  ℕ, String, ◌≡◌, ap, ◌∙◌, Bool, true, ◌||◌, none, arith, if◌then◌else◌, if-true, ◌==◌, nat_eq,
  string_eq,
}
use quipay_backend.Cache.{SimpleCache}
use quipay_backend.Cache.Laws.{view, view-invalidate_by_prefix, view-del}
use quipay_backend.Streams.{
  Store, UpsertParams, address_key, payroll_prefix, summary_prefix, upsert_rows, upsert_cache,
  upsert_stream,
}

-- The keys whose answers depend on the stream's employer, its worker or on all streams.
abbrev pub is_stale : UpsertParams → String → Bool
is_stale p key =
    "analytics:summary" == key
    || starts_with key "analytics:trends:"
    || address_key p.employer == key
    || address_key p.worker == key
    || starts_with key (payroll_prefix p.employer)
    || starts_with key (summary_prefix p.employer)

module _ {A : Type 0} where
  view-upsert_cache :
      (p : UpsertParams) (c : SimpleCache A) (key : String) (t : ℕ)
      → view (upsert_cache p c) key t ≡ (if is_stale p key then none else view c key t)
  unfolding upsert_cache
  view-upsert_cache p c key t = simp (view-invalidate_by_prefix, view-del) (ground arith)

  cache-upsert_rows : (p : UpsertParams) (s : Store A) → (upsert_rows p s).cache ≡ s.cache
  unfolding upsert_rows
  cache-upsert_rows p s = ground arith

  -- While the pool is there: after `upsertStream` the answers under the keys of its employer, its
  -- worker and all streams are gone at all times, and every other answer is as before.
  pub view-upsert_stream :
      (p : UpsertParams) (s : Store A) (key : String) (t : ℕ)
      → s.connected ≡ true
      → view (upsert_stream p s).cache key t ≡ (if is_stale p key then none else view s.cache key t)
  unfolding upsert_stream
  view-upsert_stream p s key t up =
      ap (λ (u : Store A). view u.cache key t) (if-true s.connected s up)
      ∙ view-upsert_cache p (upsert_rows p s).cache key t
      ∙ rw (cache-upsert_rows p s)
