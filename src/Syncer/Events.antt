-- ===== src/Syncer/Events.antt =====
-- syncer.ts: Soroban contract events and their decoding. `xdr` and `scValToNative` are of the
-- Stellar SDK: an event stands here with what they give. The conversions of the JavaScript runtime
-- between texts and numbers are a parameter. Numbers are whole (a ledger's are), and ids and
-- timestamps lie below 2^53, where `Number` is exact.
use quipay_backend.Prelude.{
  ℕ, String, Bool, true, false, not, Option, none, some, List, leb, eqb, if◌then◌else◌, ◌==◌,
  nat_eq, string_eq, length, get_elem?,
}
use mathlib.Core.Option
use quipay_backend.Int.{ℤ, pos, negsuc, ◌-ℤ◌, ◌*ℤ◌, at_least_zero}

-- What `scValToNative` gives for a value that is no array.
pub data Native : Type 0 where
  bigint number : ℤ → Native
  text : String → Native
  other : Native

-- A topic: not decodable, a symbol, a `u64`, or another value.
pub data Topic : Type 0 where
  undecodable : Topic
  symbol : String → Topic
  u64 : ℕ → Topic
  value : Native → Topic

-- `rpc.Api.EventResponse`; `value` is the array that the event's value decodes to, if it is one.
pub record Event : Type 0 where
  pub id : String
  pub ledger : ℕ
  pub topics : List Topic
  pub value : Option (List Native)

-- `Number(text)`, `BigInt(text)` (`none` for a result that is not finite, or an exception) and
-- `String(value)`.
pub record Runtime : Type 0 where
  pub to_number : String → Option ℤ
  pub to_bigint : String → Option ℤ
  pub to_text : Native → String

pub data Kind : Type 0 where
  stream_created funds_withdrawn stream_cancelled : Kind

pub record SyncedStreamEvent : Type 0 where
  pub kind : Kind
  pub stream_id : ℕ
  pub employer_address : String
  pub worker_address : String
  pub token_address : Option String
  pub total_amount : Option ℤ
  pub start_ts : Option ℤ
  pub end_ts : Option ℤ
  pub withdrawn_amount : Option ℤ

infixl 5 ◌>>=◌ ◌>>◌
abbrev ◌>>=◌ : {A B : Type 0} → Option A → (A → Option B) → Option B
none >>= f = none
some a >>= f = f a

abbrev ◌>>◌ : {B : Type 0} → Option (Unit {0}) → Option B → Option B
m >> k = m >>= λ _. k

abbrev guard : Bool → Option (Unit {0})
guard true = some tt
guard false = none

abbrev is_zero : ℤ → Bool
is_zero (pos n) = eqb n 0
is_zero (negsuc n) = false

-- What `if (v)` takes for true.
truthy : Native → Bool
truthy (bigint n) = not (is_zero n)
truthy (number n) = not (is_zero n)
truthy (text s) = not (s == "")
truthy other = true

symbol_from_topic : Topic → Option String
symbol_from_topic (symbol s) = some s
symbol_from_topic _ = none

u64_from_topic : Topic → Option ℕ
u64_from_topic (u64 n) = some n
u64_from_topic _ = none

-- Ids are `u64` in the contract: a negative one is none.
id_of : ℤ → Option ℕ
id_of (pos n) = some n
id_of (negsuc n) = none

nonempty : String → Option String
nonempty s = if s == "" then none else some s

nonzero : ℤ → Option ℤ
nonzero n = if is_zero n then none else some n

module _ (js : Runtime) where
  native_text : Native → Option String
  native_text (text s) = some s
  native_text v = if truthy v then some (js.to_text v) else none

  string_from_topic : Topic → Option String
  unfolding native_text truthy
  string_from_topic undecodable = none
  string_from_topic (symbol s) = some s
  string_from_topic (u64 n) = native_text (bigint (pos n))
  string_from_topic (value v) = native_text v

  as_bigint : Native → Option ℤ
  as_bigint (bigint n) = some n
  as_bigint (number n) = some n
  as_bigint (text s) = if s == "" then none else js.to_bigint s
  as_bigint other = none

  as_number : Native → Option ℤ
  as_number (number n) = some n
  as_number (bigint n) = some n
  as_number (text s) = if s == "" then none else js.to_number s
  as_number other = none

  -- `v ? String(v) : undefined`
  token_of : Option Native → Option String
  token_of none = none
  token_of (some v) = if truthy v then some (js.to_text v) else none

  decode_created : List Topic → Option (List Native) → Option SyncedStreamEvent
  decode_created topics value_array = do
    guard (leb 4 (length topics))
    values ← value_array
    guard (leb 5 (length values))
    worker ← (get_elem? topics 2 >>= string_from_topic) >>= nonempty
    employer ← (get_elem? topics 3 >>= string_from_topic) >>= nonempty
    stream_id ← (get_elem? values 0 >>= as_number) >>= id_of
    start_ts ← get_elem? values 3 >>= as_number
    end_ts ← get_elem? values 4 >>= as_number
    rate ← (get_elem? values 2 >>= as_bigint) >>= nonzero
    some (record {
      kind = stream_created;
      stream_id = stream_id;
      employer_address = employer;
      worker_address = worker;
      token_address = token_of (get_elem? values 1);
      total_amount = some (rate *ℤ at_least_zero (end_ts -ℤ start_ts));
      start_ts = some start_ts;
      end_ts = some end_ts;
      withdrawn_amount = none;
    })

  decode_withdrawn : List Topic → Option (List Native) → Option SyncedStreamEvent
  decode_withdrawn topics value_array = do
    guard (leb 4 (length topics))
    values ← value_array
    guard (leb 1 (length values))
    stream_id ← get_elem? topics 2 >>= u64_from_topic
    worker ← (get_elem? topics 3 >>= string_from_topic) >>= nonempty
    amount ← (get_elem? values 0 >>= as_bigint) >>= nonzero
    some (record {
      kind = funds_withdrawn;
      stream_id = stream_id;
      employer_address = "";
      worker_address = worker;
      token_address = token_of (get_elem? values 1);
      total_amount = none;
      start_ts = none;
      end_ts = none;
      withdrawn_amount = some amount;
    })

  decode_canceled : List Topic → Option (List Native) → Option SyncedStreamEvent
  decode_canceled topics value_array = do
    guard (leb 4 (length topics))
    stream_id ← get_elem? topics 2 >>= u64_from_topic
    employer ← (get_elem? topics 3 >>= string_from_topic) >>= nonempty
    values ← value_array
    first ← get_elem? values 0
    worker ← nonempty (js.to_text first)
    some (record {
      kind = stream_cancelled;
      stream_id = stream_id;
      employer_address = employer;
      worker_address = worker;
      token_address =
          if leb 2 (length values) then Option.map js.to_text (get_elem? values 1) else none;
      total_amount = none;
      start_ts = none;
      end_ts = none;
      withdrawn_amount = none;
    })

  -- `decodeStreamEvent`, and `parseEvent`, which turns its exceptions into `null`.
  unfoldable pub parse_event : Event → Option SyncedStreamEvent
  unfolding decode_created decode_withdrawn decode_canceled symbol_from_topic u64_from_topic id_of
      nonempty nonzero string_from_topic as_bigint as_number token_of truthy native_text
  parse_event event = do
    guard (leb 2 (length event.topics))
    root ← get_elem? event.topics 0 >>= symbol_from_topic
    guard (root == "stream")
    action ← (get_elem? event.topics 1 >>= symbol_from_topic) >>= nonempty
    if action == "created"
        then decode_created event.topics event.value
        else if action == "withdrawn"
        then decode_withdrawn event.topics event.value
        else if action == "canceled"
        then decode_canceled event.topics event.value
        else none
