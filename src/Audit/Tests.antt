-- ===== src/Audit/Tests.antt =====
-- Texts, values and queues of the audit log.
use quipay_backend.Prelude.{
  ℕ, zero, suc, ◌+◌, ◌≤◌, ◌≡◌, refl, true, ◌&&◌, none, some, List, [], ◌∷◌, ◌++◌, map, leb,
  if◌then◌else◌, nat_eq, string_eq, length,
}
use quipay_backend.Audit.Redaction.{
  Value, string, object, number, no_field, field, RedactionEngine, new_engine, redact,
  redact_string, hidden,
}
use quipay_backend.Audit.Logger.{
  commits, fails, info, scheduling, LogEntry, Error, log_error, flush_queue,
}
use quipay_backend.Audit.Queue.{
  Action, enqueue, start, finish, perform, step, empty_queue, places, queued, perform-bounded,
}
use quipay_backend.Audit.Leaks.{idle, async_config, log_error-unredacted}

abbrev as_many : ℕ → ℕ → List ℕ → List ℕ
as_many zero c cs = cs
as_many (suc n) c cs = c ∷ as_many n c cs

-- A secret key between two words.
abbrev with_key : List ℕ
with_key = b'a' ∷ b' ' ∷ b'S' ∷ as_many 55 b'A' (b' ' ∷ b'b' ∷ [])

key_hidden : redact_string with_key ≡ b'a' ∷ b' ' ∷ (hidden ++ b' ' ∷ b'b' ∷ [])
unfolding redact_string
key_hidden = refl

-- A token and a bearer, in any case.
token_hidden :
    redact_string (b'e' ∷ b'y' ∷ b'J' ∷ b'a' ∷ b'.' ∷ b'b' ∷ b'.' ∷ b'c' ∷ b'!' ∷ [])
    ≡ hidden ++ b'!' ∷ []
unfolding redact_string
token_hidden = refl

bearer_hidden :
    redact_string (b'b' ∷ b'E' ∷ b'a' ∷ b'r' ∷ b'e' ∷ b'r' ∷ b' ' ∷ b' ' ∷ b'x' ∷ b'.' ∷ [])
    ≡ b'B' ∷ b'e' ∷ b'a' ∷ b'r' ∷ b'e' ∷ b'r' ∷ b' ' ∷ (hidden ++ b'.' ∷ [])
unfolding redact_string
bearer_hidden = refl

-- Twelve words are taken for a seed phrase, eleven are not.
phrase_hidden :
    redact_string (
      b'a' ∷ b' ' ∷ b'a' ∷ b' ' ∷ b'a' ∷ b' ' ∷ b'a' ∷ b' ' ∷ b'a' ∷ b' ' ∷ b'a' ∷ b' ' ∷ b'a'
      ∷ b' ' ∷ b'a' ∷ b' ' ∷ b'a' ∷ b' ' ∷ b'a' ∷ b' ' ∷ b'a' ∷ b' ' ∷ b'a' ∷ [])
    ≡ hidden
unfolding redact_string
phrase_hidden = refl

abbrev lower_case : List ℕ → List ℕ
lower_case cs = map (λ (c : ℕ). if leb b'A' c && leb c b'Z' then c + 32 else c) cs

abbrev engine : RedactionEngine
engine = new_engine lower_case ((b'P' ∷ b'i' ∷ b'n' ∷ []) ∷ [])

abbrev secret : Value
secret = object (
    field (b'p' ∷ b'I' ∷ b'n' ∷ []) (number 1234) (
      field (b'k' ∷ []) (object (field (b'p' ∷ b'i' ∷ b'n' ∷ []) (string with_key) no_field))
        no_field))

pin_hidden :
    redact engine secret
    ≡ object (
        field (b'p' ∷ b'I' ∷ b'n' ∷ []) (string hidden) (
          field
            (b'k' ∷ [])
            (object (field (b'p' ∷ b'i' ∷ b'n' ∷ []) (string hidden) no_field))
            no_field))
unfolding redact new_engine
pin_hidden = refl

-- A flush fails while another entry comes, and the queue has two places; the row of the first entry stays.
abbrev actions : List Action
actions =
    enqueue 1
    ∷ enqueue 2
    ∷ enqueue 3
    ∷ start true
    ∷ enqueue 4
    ∷ finish (fails 1 true) 0
    ∷ start true
    ∷ finish commits 0
    ∷ []

perform-bounded_example :
    (length (perform 2 actions empty_queue).write_queue ≤ 2)
    × ((r : ℕ) → queued r actions ≤ places r (perform 2 actions empty_queue))
perform-bounded_example = perform-bounded 2 actions

oldest_dropped : perform 2 actions empty_queue ≡ record {
  write_queue = [];
  in_flight = [];
  written = 1 ∷ 2 ∷ 4 ∷ [];
  dropped = 3 ∷ 1 ∷ [];
  lost = [];
}
unfolding perform step
oldest_dropped = refl

abbrev failure : Error
failure = record { message = with_key; code = none; stack = some with_key }

log_error-unredacted_example :
    let logged =
      log_error
        (async_config true engine 9)
        (b'x' ∷ [])
        scheduling
        failure
        no_field
        (idle info [] 0 [] [] [] []) in
    (row : LogEntry) × ((flush_queue (async_config true engine 9) true commits logged.1).audit_logs
      ≡ row ∷ [])
    × (row.error_message ≡ some with_key)
    × (row.error_stack ≡ some with_key)
log_error-unredacted_example =
    log_error-unredacted true engine 9 info [] 0 [] [] [] [] (b'x' ∷ []) scheduling failure no_field
      _ _ _ _ refl refl
