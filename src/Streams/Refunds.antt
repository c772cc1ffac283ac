-- ===== src/Streams/Refunds.antt =====
-- The refund of `softDeleteStream` in db/queries.ts, for a stream whose worker has withdrawn.
use quipay_backend.Prelude.{
  ℕ, String, ◌≡◌, refl, ap, ◌∙◌, Bool, true, false, none, some, List, [], ◌∷◌, arith, if◌then◌else◌,
  eqb_iff, if-true, ◌==◌, nat_eq, string_eq,
}
use quipay_backend.Int.{ℤ, pos, ◌+ℤ◌, ◌-ℤ◌, at_least_zero, int_laws, -ℤ-zero}
use quipay_backend.Map
use quipay_backend.Streams.{
  StreamRow, Store, UpsertParams, Withdrawal, Deletion, new_row, upsert_rows, upsert_stream,
  record_withdrawal, get_stream_by_id, delete_rows, soft_delete_stream, adjust_treasury,
}
use quipay_backend.Streams.Balances.{balance_of, balance_of-adjust_treasury}
use quipay_backend.Streams.Effects.{lookup-upsert_stream}

refund_cancels :
    (b : Bool) (x : ℤ) (n : ℕ)
    → (if b
        then (if b then x +ℤ (pos 0 -ℤ pos n) else x) +ℤ at_least_zero (pos n -ℤ pos 0)
        else (if b then x +ℤ (pos 0 -ℤ pos n) else x))
      ≡ x
refund_cancels true x n = rw -ℤ-zero (omega int_laws)
refund_cancels false x n = refl

module _ {A : Type 0} where
  pub record_withdrawals : Store A → List Withdrawal → Store A
  record_withdrawals s [] = s
  record_withdrawals s (w ∷ ws) = record_withdrawals (record_withdrawal w s) ws

  -- Withdrawals touch neither the streams nor the treasury.
  record_withdrawals-keeps :
      (s : Store A) (ws : List Withdrawal)
      → let t = record_withdrawals s ws in
        (t.streams ≡ s.streams) × (t.treasury ≡ s.treasury) × (t.connected ≡ s.connected)
  unfolding record_withdrawals record_withdrawal
  record_withdrawals-keeps s [] = (refl, refl, refl)
  record_withdrawals-keeps s (w ∷ ws) =
      let ih = record_withdrawals-keeps (record_withdrawal w s) ws in ground (arith, ih)

  -- Soft deletion of a stream that is there adds the refund to its employer's balance.
  soft_delete_stream-treasury :
      (s : Store A) (id : ℕ) (d : Deletion) (row : StreamRow)
      → s.connected ≡ true
      → Map.lookup id s.streams ≡ some row
      → row.deletion ≡ none
      → (t : Store A) × (soft_delete_stream id d s ≡ some (true, t))
        × ((e : String)
            → balance_of e t.treasury ≡ (
                if row.employer_address == e
                then balance_of e s.treasury
                  +ℤ at_least_zero (row.total_amount -ℤ row.withdrawn_amount)
                else balance_of e s.treasury))
  unfolding soft_delete_stream get_stream_by_id
  soft_delete_stream-treasury s id d row up found live = (
    delete_rows id d row s,
    if-true s.connected none up ∙ ground (arith, found, live),
    λ e. unfold delete_rows in balance_of-adjust_treasury e row.employer_address _ s.treasury,
  )

  treasury-upsert_rows_new :
      (p : UpsertParams) (s : Store A)
      → Map.lookup p.stream_id s.streams ≡ none
      → (upsert_rows p s).treasury ≡ adjust_treasury p.employer (pos 0 -ℤ p.total_amount) s.treasury
  unfolding upsert_rows
  treasury-upsert_rows_new p s missing = ground (arith, missing)

  -- A first `upsertStream` takes the stream's total from its employer's balance.
  balance_of-upsert_stream_new :
      (p : UpsertParams) (s : Store A) (e : String)
      → s.connected ≡ true
      → Map.lookup p.stream_id s.streams ≡ none
      → balance_of e (upsert_stream p s).treasury ≡ (
          if p.employer == e
          then balance_of e s.treasury +ℤ (pos 0 -ℤ p.total_amount)
          else balance_of e s.treasury)
  unfolding upsert_stream
  balance_of-upsert_stream_new p s e up missing =
      ap (λ (t : Store A). balance_of e t.treasury) (if-true s.connected s up)
      ∙ ap (balance_of e) (treasury-upsert_rows_new p s missing)
      ∙ balance_of-adjust_treasury e p.employer _ s.treasury

  connected-upsert_stream :
      (p : UpsertParams) (s : Store A) → s.connected ≡ true → (upsert_stream p s).connected ≡ true
  unfolding upsert_stream upsert_rows
  connected-upsert_stream p s up =
      ap (λ (t : Store A). t.connected) (if-true s.connected s up) ∙ ground arith

  -- While the pool is there: a stream that is new, is created with nothing withdrawn, as the
  -- indexers do, and then soft-deleted gives its employer the whole total back, whatever
  -- withdrawals were recorded in between: every employer's balance is again what it was before the
  -- stream.
  pub soft_delete_stream-after-withdrawals :
      (p : UpsertParams) (s : Store A) (ws : List Withdrawal) (d : Deletion) (n : ℕ)
      → s.connected ≡ true
      → Map.lookup p.stream_id s.streams ≡ none
      → p.withdrawn_amount ≡ pos 0
      → p.total_amount ≡ pos n
      → (t : Store A) × (soft_delete_stream p.stream_id d
            (record_withdrawals (upsert_stream p s) ws)
          ≡ some (true, t))
        × ((e : String) → balance_of e t.treasury ≡ balance_of e s.treasury)
  unfolding new_row
  soft_delete_stream-after-withdrawals p s ws d n up missing w0 total =
      let u = record_withdrawals (upsert_stream p s) ws in
      let kept = record_withdrawals-keeps (upsert_stream p s) ws in
      let found : Map.lookup p.stream_id u.streams ≡ some (new_row p) =
        ap (Map.lookup p.stream_id) kept.0
        ∙ ground
            (arith, lookup-upsert_stream p s p.stream_id up, eqb_iff p.stream_id p.stream_id) in
      let (t, done, balances) =
        soft_delete_stream-treasury u p.stream_id d (new_row p)
          (kept.2 ∙ connected-upsert_stream p s up) found refl in
      (
        t,
        done,
        λ e.
            balances e
            ∙ rw
                (
                  ap (balance_of e) kept.1 ∙ balance_of-upsert_stream_new p s e up missing,
                  w0,
                  total,
                )
                (refund_cancels (p.employer == e) (balance_of e s.treasury) n),
      )
