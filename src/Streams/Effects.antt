-- ===== src/Streams/Effects.antt =====
-- What a repeated `upsertStream` of db/queries.ts changes.
use quipay_backend.Prelude.{
  ℕ, ◌≡◌, refl, sym, ap, ◌∙◌, true, Option, none, some, arith, if◌then◌else◌, eqb_iff, if-both,
  if-true, ◌==◌, nat_eq, string_eq,
}
use quipay_backend.Map
use quipay_backend.Streams.{
  StreamRow, Store, UpsertParams, new_row, updated_row, upsert_rows, upsert_cache, upsert_stream,
}

-- The row that is written over what is there.
abbrev pub written : UpsertParams → Option StreamRow → StreamRow
written p none = new_row p
written p (some row) = updated_row p row

module _ {A : Type 0} where
  upsert_rows-there :
      (p : UpsertParams) (row : StreamRow) (s : Store A)
      → Map.lookup p.stream_id s.streams ≡ some row
      → ((upsert_rows p s).treasury ≡ s.treasury) × ((upsert_rows p s).audit_log ≡ s.audit_log)
  unfolding upsert_rows
  upsert_rows-there p row s found = ground (arith, found)

  streams-upsert_rows :
      (p : UpsertParams) (s : Store A)
      → (upsert_rows p s).streams
        ≡ Map.insert p.stream_id (written p (Map.lookup p.stream_id s.streams)) s.streams
  unfolding upsert_rows
  streams-upsert_rows p s = ground arith

  upsert_stream-connected :
      (p : UpsertParams) (s : Store A)
      → s.connected ≡ true
      → upsert_stream p s
        ≡ record (upsert_rows p s) { cache = upsert_cache p (upsert_rows p s).cache }
  unfolding upsert_stream
  upsert_stream-connected p s up = if-true s.connected s up

  -- The table after `upsertStream`: its stream has the row written, every other stream its old one.
  pub lookup-upsert_stream :
      (p : UpsertParams) (s : Store A) (id : ℕ)
      → s.connected ≡ true
      → Map.lookup id (upsert_stream p s).streams ≡ (
          if p.stream_id == id
          then some (written p (Map.lookup id s.streams))
          else Map.lookup id s.streams)
  lookup-upsert_stream p s id up = rw (upsert_stream-connected p s up) (
      rw (streams-upsert_rows p s) (
        ground (
          arith,
          eqb_iff p.stream_id id,
          Map.lookup-insert p.stream_id id (written p (Map.lookup p.stream_id s.streams)) s.streams,
        )))

  connected-upsert_stream :
      (p : UpsertParams) (s : Store A) → (upsert_stream p s).connected ≡ s.connected
  unfolding upsert_stream upsert_rows
  connected-upsert_stream p s =
      if-both (λ (t : Store A). t.connected ≡ s.connected) s.connected (ground arith) refl

  -- While the pool is there: a second event of a stream, a replay of the first one too, charges no
  -- treasury, logs nothing, and changes of the row only the withdrawn amount, the status and the
  -- closing ledger, to those of the event.
  pub upsert_stream-replay :
      (p q : UpsertParams) (s : Store A)
      → s.connected ≡ true
      → q.stream_id ≡ p.stream_id
      → let first = upsert_stream p s in
        let second = upsert_stream q first in
        (second.treasury ≡ first.treasury)
        × (second.audit_log ≡ first.audit_log)
        × ((row : StreamRow) × (Map.lookup p.stream_id first.streams ≡ some row)
            × (Map.lookup p.stream_id second.streams
                ≡ some (record row {
                  withdrawn_amount = q.withdrawn_amount;
                  status = q.status;
                  closed_at = q.closed_at;
                })))
  unfolding updated_row
  upsert_stream-replay p q s up same =
      let first = upsert_stream p s in
      let row = written p (Map.lookup p.stream_id s.streams) in
      let up1 = connected-upsert_stream p s ∙ up in
      let there : Map.lookup q.stream_id first.streams ≡ some row =
        ground (arith, lookup-upsert_stream p s q.stream_id up, eqb_iff p.stream_id q.stream_id) in
      let kept = upsert_rows-there q row first there in
      let second_row : Map.lookup p.stream_id (upsert_stream q first).streams
          ≡ some (updated_row q row) =
        ground (
          arith,
          lookup-upsert_stream q first p.stream_id up1,
          eqb_iff q.stream_id p.stream_id,
          there,
          same,
        ) in
      (
        ap (λ (t : Store A). t.treasury) (upsert_stream-connected q first up1) ∙ kept.0,
        ap (λ (t : Store A). t.audit_log) (upsert_stream-connected q first up1) ∙ kept.1,
        (row, ap (λ i. Map.lookup i first.streams) (sym same) ∙ there, second_row),
      )
