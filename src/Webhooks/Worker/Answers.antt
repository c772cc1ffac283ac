-- ===== src/Webhooks/Worker/Answers.antt =====
-- What the request of a turn of webhookDlqWorker.ts is answered, and which answers delivery.ts accepts.
use quipay_backend.Prelude.{
  ℕ, ◌≤◌, ◌<◌, String, ◌≡◌, true, false, Option, none, some, arith, nat_eq, string_eq, length,
}
use quipay_backend.Dlq.{Json, DlqItem}
use quipay_backend.Webhooks.Model.{Answer, answered, thrown, Env, World}
use quipay_backend.Webhooks.Payload.{outgoing_request}
use quipay_backend.Webhooks.Delivery.{read_answer, succeeds}
use quipay_backend.Webhooks.Worker.{resolve_target_url, resolve_request_payload}

-- The HTTP status that a request is answered with, if any, and those of a success.
abbrev pub status_of : Answer → Option ℕ
status_of (answered code body) = some code
status_of (thrown code body message) = code

abbrev pub IsAccepted : Option ℕ → Type 0
IsAccepted none = ⊥
IsAccepted (some code) = (200 ≤ code) × (code < 300)

abbrev pub IsRefused : Option ℕ → Type 0
IsRefused status = ¬ IsAccepted status

-- The item's URL and body are there, and its next request is answered as said.
abbrev pub IsAnswered : (Option ℕ → Type 0) → Env → DlqItem → World → Type 0
IsAnswered P env item w =
    (url : String) × (body : Json) × (resolve_target_url item.payload item.context ≡ some url)
    × (resolve_request_payload item.payload ≡ some body)
    × P (status_of (env.answer (length w.sent) (outgoing_request env url body)))

succeeds-IsAccepted : (status : Option ℕ) → succeeds status ≡ true → IsAccepted status
succeeds-IsAccepted none h = absurd (cc h)
succeeds-IsAccepted (some code) h = ground (arith, h)

succeeds-IsRefused : (status : Option ℕ) → succeeds status ≡ false → IsRefused status
succeeds-IsRefused none h = λ a. a
succeeds-IsRefused (some code) h = λ a. absurd (ground (arith, h, a.0, a.1))

-- What the result of a delivery says of its answer.
pub read_answer-IsAccepted :
    (ms : ℕ) (a : Answer) → (read_answer ms a).succeeded ≡ true → IsAccepted (status_of a)
read_answer-IsAccepted ms (answered code body) h = succeeds-IsAccepted (some code) h
read_answer-IsAccepted ms (thrown code body message) h = succeeds-IsAccepted code h

pub read_answer-IsRefused :
    (ms : ℕ) (a : Answer) → (read_answer ms a).succeeded ≡ false → IsRefused (status_of a)
read_answer-IsRefused ms (answered code body) h = succeeds-IsRefused (some code) h
read_answer-IsRefused ms (thrown code body message) h = succeeds-IsRefused code h
