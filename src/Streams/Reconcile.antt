-- ===== src/Streams/Reconcile.antt =====
-- The treasury balances of db/queries.ts against the audit log.
use quipay_backend.Prelude.{
  ℕ, String, ◌≡◌, ◌≢◌, inl, inr, Bool, Option, none, some, List, [], ◌∷◌, ◌++◌, arith, eqb_iff,
  Option-cases, or_else, if-both, nat_eq, string_eq, All-append,
}
use quipay_backend.Int.{ℤ}
use quipay_backend.Map
use quipay_backend.Cache.{SimpleCache}
use quipay_backend.Streams.{
  StreamRow, created, AuditEntry, Store, UpsertParams, adjust_treasury, upsert_rows, upsert_stream,
  delete_rows, soft_delete_stream, get_stream_by_id, Deletion, record_withdrawal, Withdrawal,
  new_row, updated_row, Status, update_sync_cursor,
}
use quipay_backend.Streams.Balances.{
  balance_of-adjust_treasury, employer_at, delta, IsReconciled, Extends, impacts-Extends,
  Known-Extends, impacts-append, impact-adjust, employer_at-insert_self,
}

module _ {A : Type 0} (opening : String → ℤ) (s : Store A) where
  logged-IsReconciled :
      (later : List (ℕ × StreamRow)) (employer : String) (a : AuditEntry) (c : SimpleCache A)
      → Extends s.streams later
      → employer_at a.stream_id later ≡ some employer
      → IsReconciled opening s
      → IsReconciled opening (record s {
        streams = later;
        treasury = adjust_treasury employer (delta a.action) s.treasury;
        audit_log = s.audit_log ++ a ∷ [];
        cache = c;
      })
  logged-IsReconciled later employer a c x named r = record {
    known =
        All-append (λ b. employer_at b.stream_id later ≢ none) s.audit_log (a ∷ [])
          (Known-Extends s.streams later s.audit_log x r.known) ((λ e. cc), tt);
    balanced = λ e.
        rw
          (
            balance_of-adjust_treasury e employer (delta a.action) s.treasury,
            impacts-append e later s.audit_log a,
            impacts-Extends e s.streams later s.audit_log x r.known,
          )
          (impact-adjust e employer _ (opening e) _ (delta a.action) _ named (r.balanced e));
  }

  Extends-insert :
      (id : ℕ) (row : StreamRow)
      → (employer_at id s.streams ≢ none → employer_at id s.streams ≡ some row.employer_address)
      → Extends s.streams (Map.insert id row s.streams)
  Extends-insert id row same j there =
      ground (arith, Map.lookup-insert id j row s.streams, eqb_iff id j, same, there)

  upsert_rows-IsReconciled :
      (p : UpsertParams) (c : SimpleCache A)
      → IsReconciled opening s
      → IsReconciled opening (record (upsert_rows p s) { cache = c })
  unfolding upsert_rows
  upsert_rows-IsReconciled p c r = elim (Option-cases (Map.lookup p.stream_id s.streams)) [
    | inl missing ↦
        rw (missing, upsert_rows)
          (logged-IsReconciled (Map.insert p.stream_id (new_row p) s.streams) p.employer
            (record {
              stream_id = p.stream_id;
              changed_by = or_else p.changed_by p.employer;
              action = created p.total_amount;
            })
            c (Extends-insert p.stream_id (new_row p) (λ k. absurd (k (rw (missing, employer_at)))))
            (employer_at-insert_self p.stream_id (new_row p) s.streams) r)
    | inr (row, found) ↦
        rw (found, upsert_rows)
          (let x = Extends-insert p.stream_id (updated_row p row) (λ _. rw (found, employer_at)) in
            record {
              known = Known-Extends _ _ s.audit_log x r.known;
              balanced = λ e. rw (impacts-Extends e _ _ s.audit_log x r.known) (r.balanced e);
            })
  ]

  upsert_stream-IsReconciled :
      (p : UpsertParams) → IsReconciled opening s → IsReconciled opening (upsert_stream p s)
  unfolding upsert_stream
  upsert_stream-IsReconciled p r =
      if-both (IsReconciled opening) s.connected (upsert_rows-IsReconciled p _ r) r

  record_withdrawal-IsReconciled :
      (w : Withdrawal) → IsReconciled opening s → IsReconciled opening (record_withdrawal w s)
  unfolding record_withdrawal
  record_withdrawal-IsReconciled w r =
      if-both (IsReconciled opening) s.connected (record { known = r.known; balanced = r.balanced })
        r

  delete_rows-IsReconciled :
      (id : ℕ) (d : Deletion) (row : StreamRow)
      → Map.lookup id s.streams ≡ some row
      → IsReconciled opening s
      → IsReconciled opening (delete_rows id d row s)
  unfolding delete_rows
  delete_rows-IsReconciled id d row found r =
      let gone = record row { deletion = some d; status = Status.cancelled } in
      logged-IsReconciled (Map.insert id gone s.streams) row.employer_address _ _
        (Extends-insert id gone (λ _. rw (found, employer_at)))
        (employer_at-insert_self id gone s.streams) r

pub get_stream_by_id-eq-some :
    {A : Type 0} (id : ℕ) (row : StreamRow) (s : Store A)
    → get_stream_by_id id s ≡ some row
    → (Map.lookup id s.streams ≡ some row) × (row.deletion ≡ none)
unfolding get_stream_by_id
get_stream_by_id-eq-some id row s h = ground arith

-- The operations that the backend makes on the store.
pub data Operation : Type 0 where
  upserts : UpsertParams → Operation
  withdraws : Withdrawal → Operation
  soft_deletes : ℕ → Deletion → Operation
  moves_cursor : String → ℕ → Operation

-- An operation that throws leaves the store as it was.
abbrev deleted_or : {A : Type 0} → Store A → Option (Bool × Store A) → Store A
deleted_or s none = s
deleted_or s (some (done, t)) = t

module _ {A : Type 0} where
  pub perform : Store A → Operation → Store A
  perform s (upserts p) = upsert_stream p s
  perform s (withdraws w) = record_withdrawal w s
  perform s (soft_deletes id d) = deleted_or s (soft_delete_stream id d s)
  perform s (moves_cursor contract_id ledger) = update_sync_cursor contract_id ledger s

  pub perform_all : Store A → List Operation → Store A
  perform_all s [] = s
  perform_all s (o ∷ os) = perform_all (perform s o) os

  module _ (opening : String → ℤ) where
    soft_delete_stream-IsReconciled :
        (s : Store A) (id : ℕ) (d : Deletion)
        → IsReconciled opening s
        → IsReconciled opening (deleted_or s (soft_delete_stream id d s))
    unfolding soft_delete_stream
    soft_delete_stream-IsReconciled s id d r =
        if-both (λ o. IsReconciled opening (deleted_or s o)) s.connected
          (elim (Option-cases (get_stream_by_id id s)) [
            | inl missing ↦ rw missing r
            | inr (row, found) ↦ rw found (
                delete_rows-IsReconciled opening s id d row
                  (get_stream_by_id-eq-some id row s found).0 r)
          ])
          r

    perform-IsReconciled :
        (s : Store A) (o : Operation) → IsReconciled opening s → IsReconciled opening (perform s o)
    unfolding perform update_sync_cursor
    perform-IsReconciled s (upserts p) r = upsert_stream-IsReconciled opening s p r
    perform-IsReconciled s (withdraws w) r = record_withdrawal-IsReconciled opening s w r
    perform-IsReconciled s (soft_deletes id d) r = soft_delete_stream-IsReconciled s id d r
    perform-IsReconciled s (moves_cursor contract_id ledger) r = record {
      known = r.known;
      balanced = r.balanced;
    }

    -- Over any history of synced events, withdrawals, soft deletions and cursor moves, from a store
    -- whose audit log accounts for its balances, the audit log accounts for every balance: an
    -- employer's balance is the opening balance, less the total of each of its created streams once,
    -- plus the refund of each cancellation.
    pub perform_all-IsReconciled :
        (s : Store A) (os : List Operation)
        → IsReconciled opening s
        → IsReconciled opening (perform_all s os)
    unfolding perform_all
    perform_all-IsReconciled s [] r = r
    perform_all-IsReconciled s (o ∷ os) r =
        perform_all-IsReconciled (perform s o) os (perform-IsReconciled s o r)
