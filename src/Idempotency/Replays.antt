-- ===== src/Idempotency/Replays.antt =====
-- Requests that come again under the same key: middleware/idempotency.ts.
use quipay_backend.Prelude.{
  ℕ, ◌+◌, ◌<◌, ◌≡◌, refl, sym, ap, ◌∙◌, true, Option, none, some, List, [], ◌∷◌, arith, ltb,
  eqb_iff, if-true, nat_eq, string_eq,
}
use quipay_backend.Idempotency.{
  Response, Cached, World, Answers, same_text, cache_key, get, set, Decision, decide_cached,
  is_valid_idempotency_key, decide, continue, handle, ttl_seconds,
}

same_text_refl : (t : List ℕ) → same_text t t ≡ true
same_text_refl [] = refl
same_text_refl (c ∷ cs) = let rest = same_text_refl cs in ground (arith, eqb_iff c c, rest)

module _ (S R : Type 0) (handler : R → S → Response × S) (endpoint : List ℕ) where
  -- An answer that was kept is found until its time to live is over.
  get-set :
      (answers answers' : Answers) (now later : ℕ) (key : List ℕ) (r : Response) (w : World S)
      (store : List (List ℕ × Cached))
      → w.redis ≡ some store
      → answers.write ≡ true
      → answers'.read ≡ true
      → later < now + ttl_seconds
      → get answers' later endpoint key (set answers now endpoint key r w) ≡ some r
  unfolding get set
  get-set answers answers' now later key r w store there writes reads soon =
      rw (there, writes, reads, same_text_refl (cache_key endpoint key))
        (if-true (ltb later (now + ttl_seconds)) none (ground (arith, soon)))

  decide-valid :
      (answers : Answers) (now : ℕ) (key : List ℕ) (w : World S)
      → is_valid_idempotency_key key ≡ true
      → decide handler endpoint answers now key w
        ≡ decide_cached key (get answers now endpoint key w)
  unfolding decide is_valid_idempotency_key
  decide-valid answers now [] w valid = absurd (cc valid)
  decide-valid answers now (c ∷ cs) w valid = if-true _ _ valid

  handle-decided :
      (answers : Answers) (now : ℕ) (key : List ℕ) (request : R) (w : World S)
      (found : Option Response)
      → is_valid_idempotency_key key ≡ true
      → get answers now endpoint key w ≡ found
      → handle handler endpoint answers now key request w
        ≡ continue handler endpoint answers now request (decide_cached key found) w
  unfolding handle
  handle-decided answers now key request w found valid h =
      ap (λ (d : Decision). continue handler endpoint answers now request d w)
        (decide-valid answers now key w valid ∙ ap (decide_cached key) h)

  -- What a first request leaves that finds nothing under its key.
  captured :
      (answers : Answers) (now : ℕ) (key : List ℕ) (request : R) (w : World S)
      → is_valid_idempotency_key key ≡ true
      → get answers now endpoint key w ≡ none
      → handle handler endpoint answers now key request w ≡ (
        (handler request w.app).0,
        set answers now endpoint key
            (handler request w.app).0
            (record w { app = (handler request w.app).1 }),
      )
  unfolding continue
  captured answers now key request w valid fresh =
      handle-decided answers now key request w none valid fresh

  -- Where Redis takes the answer to a request with a valid key under which it has nothing, and is read
  -- before 24 hours are over, a second request with that key, whatever it asks for, gets the answer of
  -- the first, whatever its status, and changes nothing: the handler has run once.
  pub handle-replays :
      (answers answers' : Answers) (now later : ℕ) (key : List ℕ) (request request' : R)
      (w : World S) (store : List (List ℕ × Cached))
      → is_valid_idempotency_key key ≡ true
      → w.redis ≡ some store
      → get answers now endpoint key w ≡ none
      → answers.write ≡ true
      → answers'.read ≡ true
      → later < now + ttl_seconds
      → let first = handle handler endpoint answers now key request w in
        (handle handler endpoint answers' later key request' first.1 ≡ first)
        × (first.0 ≡ (handler request w.app).0)
        × (first.1.app ≡ (handler request w.app).1)
  unfolding continue set
  handle-replays answers answers' now later key request request' w store valid there fresh writes
        reads soon =
      let made = handler request w.app in
      let after = set answers now endpoint key made.0 (record w { app = made.1 }) in
      let first = captured answers now key request w valid fresh in
      let found =
        get-set answers answers' now later key made.0 (record w { app = made.1 }) store there writes
          reads soon in
      (
        ap (λ (r : Response × World S). handle handler endpoint answers' later key request' r.1)
              first
            ∙ handle-decided answers' later key request' after (some made.0) valid found
            ∙ sym first,
        ap (λ (r : Response × World S). r.0) first,
        ap (λ (r : Response × World S). r.1.app) first,
      )
