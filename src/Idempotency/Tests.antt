-- ===== src/Idempotency/Tests.antt =====
-- Requests to an endpoint that counts its calls.
use quipay_backend.Prelude.{
  ℕ, suc, ◌≡◌, refl, true, none, some, List, [], ◌∷◌, arith, nat_eq, string_eq,
}
use quipay_backend.Idempotency.{
  Response, World, Answers, get, is_valid_idempotency_key, decide, continue, handle,
}
use quipay_backend.Idempotency.Replays.{handle-replays}

abbrev handler : ℕ → ℕ → Response × ℕ
handler request calls = (record { status_code = 500; body = "{}" }, suc calls)

-- `POST:a`
abbrev endpoint : List ℕ
endpoint = b'P' ∷ b'O' ∷ b'S' ∷ b'T' ∷ b':' ∷ b'a' ∷ []

abbrev key : List ℕ
key = b'0' ∷ b'1' ∷ b'2' ∷ b'3' ∷ b'-' ∷ b'a' ∷ b'b' ∷ b'F' ∷ []

abbrev fine : Answers
fine = record { read = true; write = true; insert_row = true }

abbrev world : World ℕ
world = record { app = 0; redis = some []; pool = true; rows = [] }

key-valid : is_valid_idempotency_key key ≡ true
unfolding is_valid_idempotency_key
key-valid = refl

nothing_kept : get fine 100 endpoint key world ≡ none
unfolding get
nothing_kept = refl

handle-replays_example :
    let first = handle handler endpoint fine 100 key 7 world in
    (handle handler endpoint fine 200 key 8 first.1 ≡ first)
    × (first.0 ≡ record { status_code = 500; body = "{}" })
    × (first.1.app ≡ 1)
handle-replays_example =
    handle-replays ℕ ℕ handler endpoint fine fine 100 200 key 7 8 world [] key-valid refl
      nothing_kept refl refl (omega arith)

-- Two requests with one key that are both decided before either is answered both run the handler.
both_run :
    let decision = decide handler endpoint fine 100 key world in
    let first = continue handler endpoint fine 100 7 decision world in
    let second = continue handler endpoint fine 100 7 decision first.1 in second.1.app ≡ 2
unfolding decide continue
both_run = refl

refused : (handle handler endpoint fine 100 (b'x' ∷ []) 7 world).0.status_code ≡ 400
unfolding handle
refused = refl
