-- ===== src/Dlq.antt =====
-- db/dlq.ts: the dead letter queue, a table by its id, where the pool is initialised and the
-- statements succeed. `payload` and `context` are JSON objects; their numbers are whole and not
-- negative, as those that the callers write.
pub mod Listing
use Prim.Native.Char.{code}
use quipay_backend.Prelude.{
  ℕ, zero, suc, ◌+◌, ◌-◌, ◌*◌, ◌/◌, ◌%◌, ◌^◌, ◌≤◌, ◌<◌, max, min, String, ◌≡◌, refl, sym, ap, ◌∙◌,
  ◌≢◌, ◌↔◌, ◌⊎◌, inl, inr, Bool, true, false, not, ◌&&◌, ◌||◌, Option, none, some, List, [], ◌∷◌,
  ◌++◌, map, arith, eq_iff, ltb, leb, eqb, if◌then◌else◌, lt→ltb, le→leb, eqb_iff, Bool-cases,
  Option-cases, or_else, if-both, if-true, if-false, Key, ◌==◌, nat_eq, string_eq, ==_refl, length,
  get_elem?, take, drop, keep, any, find, length-append, length-drop, length-take, take-append-drop,
  All, All-append, All-drop,
}
use quipay_backend.Map

mutual
  pub data Json : Type 0 where
    null : Json
    bool : Bool → Json
    num : ℕ → Json
    text : String → Json
    array : Elements → Json
    object : Members → Json

  pub data Elements : Type 0 where
    end : Elements
    element : Json → Elements → Elements

  pub data Members : Type 0 where
    close : Members
    member : String → Json → Members → Members

abbrev pub Fields : Type 0
Fields = List (String × Json)

pub data ItemStatus : Type 0 where
  pending replayed discarded : ItemStatus

-- The error texts that the delivery code writes: an error's message, `HTTP ${code}`, a response's
-- body, or a fixed sentence.
pub data Reason : Type 0 where
  error_message : String → Reason
  http_status : ℕ → Reason
  response_body : String → Reason
  sentence : String → Reason

pub record DlqItem : Type 0 where
  pub job_type : String
  pub payload : Fields
  pub error_stack : Option Reason
  pub context : Fields
  pub status : ItemStatus
  pub created_at : ℕ

abbrev pub DlqTable : Type 0
DlqTable = List (ℕ × DlqItem)

-- The code points of a text.
abbrev pub codes : String → List ℕ
codes String.[] = []
codes (String.◌∷◌ c s) = code c ∷ codes s

pub is_digit : ℕ → Bool
is_digit c = leb b'0' c && leb c b'9'

-- The value of the digits in front; `none` if there are none.
unfoldable pub digits_value : Option ℕ → List ℕ → Option ℕ
digits_value acc [] = acc
digits_value acc (c ∷ cs) =
    let more = digits_value (some (or_else acc 0 * 10 + (c - b'0'))) cs in
    if is_digit c then more else acc

abbrev pub all_digits : List ℕ → Bool
all_digits [] = true
all_digits (c ∷ cs) = is_digit c && all_digits cs

-- `(text ~ '^[0-9]+$')`, and its value as a `BIGINT`; ELSE 0.
abbrev digits_or_zero : List ℕ → ℕ
digits_or_zero cs = if all_digits cs then or_else (digits_value none cs) 0 else 0

unfoldable pub due_value : Option Json → ℕ
unfolding is_digit digits_value
due_value none = 0
due_value (some null) = 0
due_value (some (bool b)) = 0
due_value (some (num n)) = n
due_value (some (text s)) = digits_or_zero (codes s)
due_value (some (array _)) = 0
due_value (some (object _)) = 0

-- The CASE expression of `listDueWebhookDLQItems`.
unfoldable pub due_at : DlqItem → ℕ
unfolding due_value
due_at item = due_value (Map.lookup "nextRetryAtMs" item.context)

abbrev pub is_pending : ItemStatus → Bool
is_pending pending = true
is_pending _ = false

abbrev pub webhook_job_type : String
webhook_job_type = "webhook_delivery"

-- The WHERE clause.
unfoldable pub is_due : ℕ → DlqItem → Bool
is_due now item =
    is_pending item.status && item.job_type == webhook_job_type && leb (due_at item) now

-- The ORDER BY clause.
pub comes_first : ℕ × DlqItem → ℕ × DlqItem → Bool
comes_first (i, a) (j, b) =
    if eqb (due_at a) (due_at b) then leb a.created_at b.created_at else ltb (due_at a) (due_at b)

insert_ordered : ℕ × DlqItem → DlqTable → DlqTable
insert_ordered x [] = x ∷ []
insert_ordered x (y ∷ ys) = if comes_first x y then x ∷ y ∷ ys else y ∷ insert_ordered x ys

order_by : DlqTable → DlqTable
order_by [] = []
order_by (x ∷ xs) = insert_ordered x (order_by xs)

unfoldable pub list_due_webhook_dlq_items : ℕ → ℕ → DlqTable → DlqTable
unfolding is_due comes_first insert_ordered order_by due_at
list_due_webhook_dlq_items limit now table =
    take limit (order_by (keep (λ (x : ℕ × DlqItem). is_due now x.1) table))

-- `context || patch`
unfoldable pub merge : Fields → Fields → Fields
merge context [] = context
merge context ((k, v) ∷ patch) = merge (Map.insert k v context) patch

-- `errorStack` is written only where it is given.
abbrev patch_with : Fields → Option Reason → DlqItem → DlqItem
patch_with patch none item = record item { context = merge item.context patch }
patch_with patch (some reason) item = record item {
  context = merge item.context patch;
  error_stack = some reason;
}

unfoldable pub patch_dlq_item_context : ℕ → Fields → Option Reason → DlqTable → DlqTable
unfolding merge
patch_dlq_item_context id patch reason table = Map.adjust id (patch_with patch reason) table

unfoldable pub update_dlq_item_status : ℕ → ItemStatus → DlqTable → DlqTable
update_dlq_item_status id status table =
    Map.adjust id (λ item. record item { status = status }) table

-- `errorStack || null`: an empty text is no text.
abbrev filled : Option Reason → Option Reason
filled none = none
filled (some (error_message s)) = if "" == s then none else some (error_message s)
filled (some (response_body s)) = if "" == s then none else some (response_body s)
filled (some reason) = some reason

-- `pushToDLQ` with the id and the time that the database gives.
unfoldable pub push_to_dlq : ℕ → ℕ → String → Fields → Option Reason → Fields → DlqTable → DlqTable
push_to_dlq id now job_type payload reason context table =
    Map.insert id
      (record {
        job_type = job_type;
        payload = payload;
        error_stack = filled reason;
        context = context;
        status = pending;
        created_at = now;
      })
      table

pub delete_dlq_item : ℕ → DlqTable → DlqTable
delete_dlq_item id table = Map.delete id table
