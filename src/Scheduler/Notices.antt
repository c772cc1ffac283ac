-- ===== src/Scheduler/Notices.antt =====
-- `runCliffUnlockChecker` and `runStreamEndingChecker` of scheduler/scheduler.ts, where the pool is there.
-- The tables stand in the order of their rows' creation; whether a notice can be sent is a parameter.
use quipay_backend.Prelude.{
  ℕ, ◌+◌, ◌*◌, String, Bool, true, false, not, ◌&&◌, Option, none, some, List, [], ◌∷◌, ◌++◌, map,
  leb, eqb, if◌then◌else◌, ◌==◌, nat_eq, string_eq, take, keep, any,
}
use quipay_backend.Int.{ℤ, pos, pos_part, neg_part, ◌+ℤ◌}
use quipay_backend.Map.{lookup}
use quipay_backend.Streams.{StreamRow, Status, active, paused, completed, cancelled, Treasury}

pub data NoticeKind : Type 0 where
  cliff_unlock stream_ending : NoticeKind

pub record Notice : Type 0 where
  pub kind : NoticeKind
  pub worker : String
  pub stream_id : ℕ

-- The columns of `worker_notification_settings` that are read.
pub record Settings : Type 0 where
  pub cliff_unlock_alerts : Bool
  pub stream_ending_alerts : Bool

abbrev pub Streams : Type 0
Streams = List (ℕ × StreamRow)

pub record Tables : Type 0 where
  pub streams : Streams
  pub treasury : List (String × Treasury)
  pub settings : List (String × Settings)

-- The keys `${stream_id}:${ts}` of the notices that were sent, and the notices.
pub record Sent : Type 0 where
  pub keys : List (ℕ × ℤ)
  pub notices : List Notice

abbrev pub is_active : Status → Bool
is_active active = true
is_active paused = false
is_active completed = false
is_active cancelled = false

abbrev pub is_kept : StreamRow → Bool
is_kept row = elim row.deletion [ none ↦ true | some _ ↦ false ]

abbrev pub newest_first : Streams → Streams → Streams
newest_first seen [] = seen
newest_first seen (s ∷ ss) = newest_first (s ∷ seen) ss

-- `getStreamsByWorker(worker, "active", limit, 0)`
unfoldable pub get_active_streams_by_worker : String → ℕ → Streams → Streams
get_active_streams_by_worker worker limit table = take limit (
    newest_first [] (
      keep
        (λ (s : ℕ × StreamRow).
          s.1.worker_address == worker && (is_kept s.1 && is_active s.1.status))
        table))

abbrev leb_ℤ : ℤ → ℤ → Bool
leb_ℤ a b = leb (pos_part a + neg_part b) (pos_part b + neg_part a)

abbrev pub same_key : ℕ × ℤ → ℕ × ℤ → Bool
same_key a b = eqb a.0 b.0 && (leb_ℤ a.1 b.1 && leb_ℤ b.1 a.1)

-- What the two checkers differ in: the notice, the alert of the settings, the time of the key, and the
-- streams that are due.
pub record Checker : Type 0 where
  pub kind : NoticeKind
  pub wanted : Settings → Bool
  pub time : StreamRow → ℤ
  pub due : StreamRow → Bool

abbrev day_seconds : ℕ
day_seconds = 24 * 60 * 60

-- Started at most four days ago; `now` is in seconds.
abbrev pub cliff_unlocks : ℕ → Checker
cliff_unlocks now = record {
  kind = cliff_unlock;
  wanted = λ s. s.cliff_unlock_alerts;
  time = λ row. row.start_ts;
  due = λ row.
      leb_ℤ row.start_ts (pos now) && leb_ℤ (pos now) (row.start_ts +ℤ pos (4 * day_seconds));
}

-- Ending within three days.
abbrev pub endings : ℕ → Checker
endings now = record {
  kind = stream_ending;
  wanted = λ s. s.stream_ending_alerts;
  time = λ row. row.end_ts;
  due = λ row. leb_ℤ (pos now) row.end_ts && leb_ℤ row.end_ts (pos (now + 3 * day_seconds));
}

module _ (sends : Notice → Bool) (checker : Checker) where
  abbrev pub notice_of : ℕ × StreamRow → Notice
  notice_of s = record { kind = checker.kind; worker = s.1.worker_address; stream_id = s.0 }

  abbrev pub send : ℕ × StreamRow → Sent → Bool × Sent
  send s sent =
      if sends (notice_of s)
      then (
        true,
        record {
          keys = (s.0, checker.time s.1) ∷ sent.keys;
          notices = sent.notices ++ notice_of s ∷ [];
        },
      )
      else (false, sent)

  -- The body of the inner loop; a sending that throws ends the run.
  abbrev pub visit_stream : ℕ × StreamRow → Sent → Bool × Sent
  visit_stream s sent =
      if not (checker.due s.1)
      then (true, sent)
      else if any (same_key (s.0, checker.time s.1)) sent.keys
      then (true, sent)
      else send s sent

  abbrev pub go_on : (Sent → Bool × Sent) → Bool × Sent → Bool × Sent
  go_on rest (goes, sent) = if goes then rest sent else (false, sent)

  abbrev pub visit_streams : Streams → Sent → Bool × Sent
  visit_streams [] sent = (true, sent)
  visit_streams (s ∷ ss) sent = go_on (visit_streams ss) (visit_stream s sent)

  -- `prefs?.… ?? true`
  abbrev pub should_notify : Option Settings → Bool
  should_notify none = true
  should_notify (some s) = checker.wanted s

  abbrev pub visit_worker : Tables → String → Sent → Bool × Sent
  visit_worker tables worker sent =
      if should_notify (lookup worker tables.settings)
      then visit_streams (get_active_streams_by_worker worker 100 tables.streams) sent
      else (true, sent)

  -- The outer loop.
  abbrev pub visit_workers : Tables → List String → Sent → Bool × Sent
  visit_workers tables [] sent = (true, sent)
  visit_workers tables (w ∷ ws) sent = go_on (visit_workers tables ws) (visit_worker tables w sent)

-- `workersChecked`: the employers of the balances.
abbrev pub workers_checked : Tables → List String
workers_checked tables = map (λ (b : String × Treasury). b.0) tables.treasury

unfoldable pub run_cliff_unlock_checker : (Notice → Bool) → ℕ → Tables → Sent → Bool × Sent
unfolding get_active_streams_by_worker lookup
run_cliff_unlock_checker sends now tables sent =
    visit_workers sends (cliff_unlocks now) tables (workers_checked tables) sent

unfoldable pub run_stream_ending_checker : (Notice → Bool) → ℕ → Tables → Sent → Bool × Sent
unfolding get_active_streams_by_worker lookup
run_stream_ending_checker sends now tables sent =
    visit_workers sends (endings now) tables (workers_checked tables) sent
