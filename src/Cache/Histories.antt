-- ===== src/Cache/Histories.antt =====
-- The cache of utils/cache.ts over any history of calls.
use text.Mathlib.Text.{starts_with}
use quipay_backend.Prelude.{
  ℕ, ◌+◌, ◌≤◌, String, ◌≡◌, refl, ap, ◌∙◌, Option, none, some, List, [], ◌∷◌, arith, leb,
  if◌then◌else◌, ◌==◌, nat_eq, string_eq,
}
use quipay_backend.Cache.{SimpleCache}
use quipay_backend.Cache
use quipay_backend.Cache.Laws.{
  view, view-set, view-get, view-del, view-clear, view-invalidate_by_prefix,
}

pub data Operation (A : Type 0) : Type 0 where
  set : (key : String) (value : A) (ttl_ms : ℕ) → Operation A
  get : (key : String) → Operation A
  del : (key : String) → Operation A
  clear : Operation A
  invalidate_by_prefix : (prefix : String) → Operation A

-- Calls with the times at which they are made.
abbrev pub History : Type 0 → Type 0
History A = List (ℕ × Operation A)

-- The clock does not go back.
abbrev pub IsOrdered : {A : Type 0} → ℕ → History A → Type 0
IsOrdered now [] = Unit
IsOrdered now (call ∷ calls) = (now ≤ call.0) × IsOrdered call.0 calls

-- The abstract cache: the value that each key has at each time from now on. A read changes nothing.
abbrev pub Contents : Type 0 → Type 0
Contents A = String → ℕ → Option A

module _ {A : Type 0} where
  -- What the calls of `get` return, one after another.
  abbrev pub results : History A → SimpleCache A → List (Option A)
  results [] c = []
  results ((now, set k v ttl_ms) ∷ calls) c = results calls (Cache.set c k v ttl_ms now)
  results ((now, get k) ∷ calls) c = (Cache.get c k now).0 ∷ results calls (Cache.get c k now).1
  results ((now, del k) ∷ calls) c = results calls (Cache.del c k)
  results ((now, clear) ∷ calls) c = results calls (Cache.clear c)
  results ((now, invalidate_by_prefix p) ∷ calls) c = results calls (Cache.invalidate_by_prefix c p)

  abbrev pub expected : History A → Contents A → List (Option A)
  expected [] f = []
  expected ((now, set k v ttl_ms) ∷ calls) f =
      expected calls
        (λ j t. if k == j then (if leb t (now + ttl_ms) then some v else none) else f j t)
  expected ((now, get k) ∷ calls) f = f k now ∷ expected calls f
  expected ((now, del k) ∷ calls) f = expected calls (λ j t. if k == j then none else f j t)
  expected ((now, clear) ∷ calls) f = expected calls (λ j t. none)
  expected ((now, invalidate_by_prefix p) ∷ calls) f =
      expected calls (λ j t. if starts_with j p then none else f j t)

  -- From a time on, the cache reads as the abstract one.
  abbrev Agrees : ℕ → SimpleCache A → Contents A → Type 0
  Agrees now c f = (j : String) (t : ℕ) → now ≤ t → view c j t ≡ f j t

  results-expected :
      (now : ℕ) (calls : History A) (c : SimpleCache A) (f : Contents A)
      → IsOrdered now calls
      → Agrees now c f
      → results calls c ≡ expected calls f
  results-expected start [] c f h same = refl
  results-expected start ((now, set k v ttl_ms) ∷ calls) c f h same =
      results-expected now calls (Cache.set c k v ttl_ms now)
        (λ j t. if k == j then (if leb t (now + ttl_ms) then some v else none) else f j t) h.1
        (λ j t later.
          view-set c k j v ttl_ms now t
          ∙ ap (λ o. if k == j then (if leb t (now + ttl_ms) then some v else none) else o)
              (same j t (omega (arith, h.0, later))))
  results-expected start ((now, get k) ∷ calls) c f h same =
      let first = same k now h.0 in
      let rest =
        results-expected now calls (Cache.get c k now).1 f h.1
          (λ j t later. view-get c k j now t later ∙ same j t (omega (arith, h.0, later))) in
      cc
  results-expected start ((now, del k) ∷ calls) c f h same =
      results-expected now calls (Cache.del c k) (λ j t. if k == j then none else f j t) h.1
        (λ j t later.
          view-del c k j t
          ∙ ap (λ o. if k == j then none else o) (same j t (omega (arith, h.0, later))))
  results-expected start ((now, clear) ∷ calls) c f h same =
      results-expected now calls (Cache.clear c) (λ j t. none) h.1 (λ j t later. view-clear c j t)
  results-expected start ((now, invalidate_by_prefix p) ∷ calls) c f h same =
      results-expected now calls (Cache.invalidate_by_prefix c p)
        (λ j t. if starts_with j p then none else f j t) h.1
        (λ j t later.
          view-invalidate_by_prefix c p j t
          ∙ ap (λ o. if starts_with j p then none else o) (same j t (omega (arith, h.0, later))))

  -- Over any history of calls with a clock that does not go back, the reads of the cache return what the
  -- abstract one says, from what the cache has at first: a value is there up to the end of its time to
  -- live, unless a later call replaces or takes it away, and a read changes nothing.
  pub results-refine :
      (calls : History A) (c : SimpleCache A)
      → IsOrdered 0 calls
      → results calls c ≡ expected calls (λ j t. view c j t)
  results-refine calls c h = results-expected 0 calls c (λ j t. view c j t) h (λ j t later. refl)
