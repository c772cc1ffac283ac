-- ===== src/Idempotency.antt =====
-- services/idempotencyService.ts and middleware/idempotency.ts: replaying the answer to a request with a
-- key. Texts are lists of code points, bodies JSON texts, times seconds. Redis keeps a value for its time
-- to live; the handler behind the middleware, which answers by one `res.json`, is a parameter.
pub mod Replays
pub mod Keys
mod Tests
use mathlib.Core.Option
use quipay_backend.Prelude.{
  ℕ, ◌+◌, ◌-◌, String, Bool, true, false, ◌&&◌, ◌||◌, Option, none, some, List, [], ◌∷◌, ◌++◌, ltb,
  leb, eqb, if◌then◌else◌, nat_eq, string_eq, length, any, find,
}

pub record Response : Type 0 where
  pub status_code : ℕ
  pub body : String

pub record Cached : Type 0 where
  pub response : Response
  pub expires_at : ℕ

-- A row of `idempotency_keys`.
pub record AuditRow : Type 0 where
  pub idempotency_key : List ℕ
  pub endpoint : List ℕ
  pub response : Response

-- `app` is the state behind the handler; there may be no Redis and no pool.
pub record World (S : Type 0) : Type 0 where
  pub app : S
  pub redis : Option (List (List ℕ × Cached))
  pub pool : Bool
  pub rows : List AuditRow

-- Whether the read and the write of Redis and the insertion of the row succeed.
pub record Answers : Type 0 where
  pub read : Bool
  pub write : Bool
  pub insert_row : Bool

abbrev pub ttl_seconds : ℕ
ttl_seconds = 86400

abbrev pub same_text : List ℕ → List ℕ → Bool
same_text [] [] = true
same_text (a ∷ as') (b ∷ bs) = eqb a b && same_text as' bs
same_text _ _ = false

abbrev pub prefix : List ℕ
prefix = b'i' ∷ b'd' ∷ b'e' ∷ b'm' ∷ b'p' ∷ b'o' ∷ b't' ∷ b'e' ∷ b'n' ∷ b'c' ∷ b'y' ∷ b':' ∷ []

unfoldable pub cache_key : List ℕ → List ℕ → List ℕ
cache_key endpoint idempotency_key = prefix ++ (endpoint ++ b':' ∷ idempotency_key)

-- The newest value of a key, where it has not expired.
abbrev pub live : ℕ → Option Cached → Option Response
live now none = none
live now (some c) = if ltb now c.expires_at then some c.response else none

abbrev pub value_of : Option (List ℕ × Cached) → Option Cached
value_of none = none
value_of (some entry) = some entry.1

abbrev pub redis_get : ℕ → List ℕ → List (List ℕ × Cached) → Option Response
redis_get now key store =
    live now (value_of (find (λ (entry : List ℕ × Cached). same_text key entry.0) store))

abbrev pub get_from : Answers → ℕ → List ℕ → Option (List (List ℕ × Cached)) → Option Response
get_from answers now key none = none
get_from answers now key (some store) = if answers.read then redis_get now key store else none

abbrev pub set_in :
    Answers
    → ℕ
    → List ℕ
    → Response
    → Option (List (List ℕ × Cached))
    → Option (List (List ℕ × Cached))
set_in answers now key r none = none
set_in answers now key r (some store) =
    if answers.write
    then some ((key, record { response = r; expires_at = now + ttl_seconds }) ∷ store)
    else some store

abbrev has_row : List ℕ → List ℕ → List AuditRow → Bool
has_row endpoint key rows =
    any (λ (row : AuditRow). same_text row.idempotency_key key && same_text row.endpoint endpoint)
      rows

-- `ON CONFLICT DO NOTHING`
abbrev insert_row : List ℕ → List ℕ → Response → List AuditRow → List AuditRow
insert_row endpoint key r rows =
    if has_row endpoint key rows
    then rows
    else rows ++ record { idempotency_key = key; endpoint = endpoint; response = r } ∷ []

module _ {S : Type 0} where
  unfoldable pub get : Answers → ℕ → (endpoint idempotency_key : List ℕ) → World S → Option Response
  unfolding cache_key
  get answers now endpoint idempotency_key w =
      get_from answers now (cache_key endpoint idempotency_key) w.redis

  unfoldable pub set :
      Answers → ℕ → (endpoint idempotency_key : List ℕ) → Response → World S → World S
  unfolding cache_key
  set answers now endpoint idempotency_key r w = record w {
    redis = set_in answers now (cache_key endpoint idempotency_key) r w.redis;
    rows =
        if w.pool && answers.insert_row
        then insert_row endpoint idempotency_key r w.rows
        else w.rows;
  }

-- `/^[0-9a-f-]{8,64}$/i`
abbrev pub is_key_char : ℕ → Bool
is_key_char c =
    (leb b'0' c && leb c b'9')
    || ((leb b'a' c && leb c b'f') || ((leb b'A' c && leb c b'F') || eqb c b'-'))

abbrev pub all_key_chars : List ℕ → Bool
all_key_chars [] = true
all_key_chars (c ∷ cs) = is_key_char c && all_key_chars cs

unfoldable pub is_valid_idempotency_key : List ℕ → Bool
is_valid_idempotency_key key = leb 8 (length key) && (leb (length key) 64 && all_key_chars key)

-- What the middleware does with a request before the handler: hand it on as it is, answer it, or hand
-- it on with the answer to be kept under a key.
pub data Decision : Type 0 where
  pass : Decision
  answer : Response → Decision
  capture : List ℕ → Decision

abbrev invalid_key : Response
invalid_key = record {
  status_code = 400;
  body = "{\"error\":\"Invalid Idempotency-Key format. Expected a UUID.\"}";
}

abbrev pub decide_cached : List ℕ → Option Response → Decision
decide_cached key none = capture key
decide_cached key (some r) = answer r

module _ {S R : Type 0} (handler : R → S → Response × S) (endpoint : List ℕ) where
  -- `rawKey` is the header; an empty one is none.
  unfoldable pub decide : Answers → ℕ → List ℕ → World S → Decision
  unfolding get is_valid_idempotency_key
  decide answers now [] w = pass
  decide answers now (c ∷ cs) w =
      if is_valid_idempotency_key (c ∷ cs)
      then decide_cached (c ∷ cs) (get answers now endpoint (c ∷ cs) w)
      else answer invalid_key

  abbrev pub run_handler : R → World S → Response × World S
  run_handler request w = let r = handler request w.app in (r.0, record w { app = r.1 })

  -- The rest of the request after the decision.
  unfoldable pub continue : Answers → ℕ → R → Decision → World S → Response × World S
  unfolding set
  continue answers now request pass w = run_handler request w
  continue answers now request (answer r) w = (r, w)
  continue answers now request (capture key) w =
      let r = run_handler request w in (r.0, set answers now endpoint key r.0 r.1)

  -- One request with nothing in between.
  unfoldable pub handle : Answers → ℕ → List ℕ → R → World S → Response × World S
  unfolding decide continue
  handle answers now raw_key request w =
      continue answers now request (decide answers now raw_key w) w
