-- ===== src/Scheduler/Recorded.antt =====
-- What one run of `executeScheduledPayroll` of scheduler/scheduler.ts leaves behind.
use mathlib.Core.Option
use mathlib.Core.Path.{subst}
use quipay_backend.Prelude.{
  ℕ, String, ◌≡◌, refl, sym, ap, ◌∙◌, ◌⊎◌, inl, inr, Bool, true, ◌&&◌, Option, none, some, List, [],
  ◌∷◌, ◌++◌, eqb, if◌then◌else◌, if-both, if-split, nat_eq, string_eq,
}
use quipay_backend.Map.{lookup, lookup-adjust}
use quipay_backend.Scheduler.Tables.{
  PayrollSchedule, Schedules, SchedulerLog, success, failed, update_payroll_schedule,
}
use quipay_backend.Scheduler.Gateway.{
  Config, Chain, Created, created, throws, SubmitsOnce, trigger_stream_creation-SubmitsOnce,
}
use quipay_backend.Scheduler.Payroll.{
  World, SchedulerEvent, task_started, task_completed, task_failed, Answers, Ending, with_event,
  record_failure, catch_error, updated, after_creation, write_log, log_row, create_stream_for,
  run_creation, payroll_task, execute_scheduled_payroll, next_run_at,
}
use quipay_backend.Lock.{Run, acquired, with_advisory_lock}

abbrev pub stream_of : Created → Option ℕ
stream_of (created n) = some n
stream_of (throws e) = none

-- No schedule has another next run.
abbrev pub KeepsNextRuns : Schedules → Schedules → Type 0
KeepsNextRuns table table' =
    (id : ℕ)
    → Option.map (λ (s : PayrollSchedule). s.next_run_at) (lookup id table')
      ≡ Option.map (λ (s : PayrollSchedule). s.next_run_at) (lookup id table)

-- The schedule of `id` has run at `now`, and its next run is the one given, or the old one where none
-- is; every other schedule is as it was.
abbrev ran : Option ℕ → ℕ → PayrollSchedule → PayrollSchedule
ran none now s = record s { last_run_at = some now; updated_at = now }
ran (some t) now s = record s { last_run_at = some now; next_run_at = some t; updated_at = now }

abbrev pub HasRun : ℕ → Option ℕ → ℕ → Schedules → Schedules → Type 0
HasRun id next now table table' =
    (j : ℕ)
    → lookup j table'
      ≡ (if eqb id j then Option.map (ran next now) (lookup j table) else lookup j table)

update-HasRun :
    (id : ℕ) (next : Option ℕ) (now : ℕ) (table : Schedules)
    → HasRun id next now table (update_payroll_schedule id none next (some now) now table)
unfolding update_payroll_schedule
update-HasRun id none now table j = lookup-adjust id j _ table
update-HasRun id (some t) now table j = lookup-adjust id j _ table

-- The end of a run that made `creation`: a success, where it created a stream and the update of the
-- schedule answered, with that stream and the schedule as it has run; or a failure with the error of the
-- creation or of the update, whose stream, if there is one, is in the log alone.
abbrev pub Ends : Answers → ℕ → Created → Schedules → Ending → Schedules → Type 0
Ends answers id creation table r table' =
    ((r.status ≡ success)
      × (r.error_message ≡ none)
      × ((n : ℕ) × (creation ≡ created n) × (r.stream_id ≡ some n))
      × (answers.update ≡ none)
      × HasRun id (next_run_at answers.next_run) answers.now table table')
    ⊎ ((r.status ≡ failed)
        × ((e : String) × (r.error_message ≡ some e)
            × ((creation ≡ throws e) ⊎ (answers.update ≡ some e)))
        × (r.stream_id ≡ stream_of creation)
        × KeepsNextRuns table table')

module _ (C : Type 0) (answers : Answers) where
  -- What an event leaves alone.
  abbrev Same : World C → World C → Type 0
  Same w w' = (w'.chain_state ≡ w.chain_state) × (w'.schedules ≡ w.schedules) × (w'.logs ≡ w.logs)

  with_event-Same : (e : SchedulerEvent) (w : World C) → Same w (with_event answers e w)
  with_event-Same e w = if-both (Same w) answers.audit_logger (refl, refl, refl) (refl, refl, refl)

  update-KeepsNextRuns :
      (id now last : ℕ) (table : Schedules)
      → KeepsNextRuns table (update_payroll_schedule id none none (some last) now table)
  unfolding update_payroll_schedule
  update-KeepsNextRuns id now last table i =
      ap (Option.map (λ (s : PayrollSchedule). s.next_run_at)) (lookup-adjust id i _ table)
      ∙ if-both
          (λ (o : Option PayrollSchedule).
            Option.map (λ (s : PayrollSchedule). s.next_run_at) o
            ≡ Option.map (λ (s : PayrollSchedule). s.next_run_at) (lookup i table))
          (eqb id i) (same_next (lookup i table)) refl
    where
      same_next :
          (o : Option PayrollSchedule)
          → Option.map
              (λ (s : PayrollSchedule). s.next_run_at)
              (Option.map
                (λ (s : PayrollSchedule). record s { last_run_at = some last; updated_at = now })
                o)
            ≡ Option.map (λ (s : PayrollSchedule). s.next_run_at) o
      same_next none = refl
      same_next (some s) = refl

  -- The chain and the logs are kept, and the schedules are those that the end says.
  abbrev Leaves : ℕ → Created → World C → Ending × World C → Type 0
  Leaves id creation w r =
      (r.1.chain_state ≡ w.chain_state)
      × (r.1.logs ≡ w.logs)
      × Ends answers id creation w.schedules r.0 r.1.schedules

  record_failure-keeps :
      (id : ℕ) (w w' : World C)
      → Same w w'
      → let w'' = record_failure answers id w' in
        (w''.chain_state ≡ w.chain_state)
        × (w''.logs ≡ w.logs)
        × KeepsNextRuns w.schedules w''.schedules
  record_failure-keeps id w w' same =
      if-both
        (λ (w'' : World C).
          (w''.chain_state ≡ w.chain_state)
          × (w''.logs ≡ w.logs)
          × KeepsNextRuns w.schedules w''.schedules)
        answers.update_after_error
        (
          same.0,
          same.2,
          subst
              (λ (t : Schedules). KeepsNextRuns t (
                update_payroll_schedule id none none (some answers.failed_at) answers.failed_at
                  w'.schedules))
              same.1 (update-KeepsNextRuns id answers.failed_at answers.failed_at w'.schedules),
        )
        (
          same.0,
          same.2,
          λ i.
              ap
                (λ (t : Schedules).
                  Option.map (λ (p : PayrollSchedule). p.next_run_at) (lookup i t))
                same.1,
        )

  catch_error-Leaves :
      (id : ℕ) (creation : Created) (e : String) (w : World C)
      → (creation ≡ throws e) ⊎ (answers.update ≡ some e)
      → Leaves id creation w (catch_error answers id (stream_of creation) e w)
  catch_error-Leaves id creation e w why =
      let kept =
        record_failure-keeps id w (with_event answers (task_failed id e) w)
          (with_event-Same (task_failed id e) w) in
      (kept.0, kept.1, inr (refl, (e, refl, why), refl, kept.2))

  after_creation-Leaves :
      (id : ℕ) (creation : Created) (w : World C) (answer : Option String)
      → answers.update ≡ answer
      → Leaves id creation w (after_creation answers id creation w answer)
  after_creation-Leaves id (throws e) w answer given =
      catch_error-Leaves id (throws e) e w (inl refl)
  after_creation-Leaves id (created n) w (some e) given =
      catch_error-Leaves id (created n) e w (inr given)
  after_creation-Leaves id (created n) w none given =
      let same = with_event-Same (task_completed id) (updated answers id w) in
      let next = next_run_at answers.next_run in
      (
        same.0,
        same.2,
        inl (
          refl,
          refl,
          (n, refl, refl),
          given,
          subst (HasRun id next answers.now w.schedules) (sym same.1)
              (update-HasRun id next answers.now w.schedules),
        ),
      )

module _ (C T : Type 0) (config : Config) (chain : Chain C T) where
  -- What a run for `w` leaves: one row in the log, the end that the row says, and the chain as one
  -- creation leaves it.
  abbrev pub IsRecorded : Answers → ℕ → PayrollSchedule → World C → World C → Type 0
  IsRecorded answers id s w w' =
      (r : Ending) × (w'.logs ≡ w.logs ++ log_row answers id r ∷ [])
      × (w'.chain_state ≡ (create_stream_for config chain answers s w).1)
      × SubmitsOnce C T config chain w.chain_state w'.chain_state
      × Ends answers id (create_stream_for config chain answers s w).0 w.schedules r w'.schedules

  written :
      (answers : Answers) (id : ℕ) (s : PayrollSchedule) (w : World C) (r : Ending × World C)
      → answers.insert_log ≡ true
      → Leaves C answers id
          (create_stream_for config chain answers s w).0
          (record w { chain_state = (create_stream_for config chain answers s w).1 })
          r
      → ((write_log answers id r).0 ≡ true) × IsRecorded answers id s w (write_log answers id r).1
  written answers id s w r works leaves =
      if-split (λ (p : Run (World C)). (p.0 ≡ true) × IsRecorded answers id s w p.1)
        answers.insert_log
        (λ t. (
          refl,
          (
            r.0,
            ap (λ (l : List SchedulerLog). l ++ log_row answers id r.0 ∷ []) leaves.1,
            leaves.0,
            subst (SubmitsOnce C T config chain w.chain_state) (sym leaves.0) (
                trigger_stream_creation-SubmitsOnce C T config chain answers.random s _ _
                  w.chain_state),
            leaves.2,
          ),
        ))
        (λ f. absurd (cc (sym works ∙ f)))

  created-IsRecorded :
      (answers : Answers) (id : ℕ) (s : PayrollSchedule) (w : World C)
      → answers.insert_log ≡ true
      → let r = write_log answers id (run_creation config chain answers id s w) in
        (r.0 ≡ true) × IsRecorded answers id s w r.1
  created-IsRecorded answers id s w works =
      let made = create_stream_for config chain answers s w in
      written answers id s w (run_creation config chain answers id s w) works (
        after_creation-Leaves C answers id made.0 (record w { chain_state = made.1 }) answers.update
          refl)

  -- The event at the start changes nothing of this.
  payroll_task-IsRecorded :
      (answers : Answers) (id : ℕ) (s : PayrollSchedule) (w : World C)
      → answers.insert_log ≡ true
      → let r = payroll_task config chain answers id s w in
        (r.0 ≡ true) × IsRecorded answers id s w r.1
  payroll_task-IsRecorded answers id s w works =
      if-both
        (λ (w0 : World C).
          let r = write_log answers id (run_creation config chain answers id s w0) in
          (r.0 ≡ true) × IsRecorded answers id s w r.1)
        answers.audit_logger
        (created-IsRecorded answers id s (record w { events = w.events ++ task_started id ∷ [] })
          works)
        (created-IsRecorded answers id s w works)

  -- A run that has the lock and whose log row can be written resolves if the lock can be released. It
  -- makes one creation, submits at most one transaction, and adds one row to the log of the schedule: a
  -- success, if a stream was created and the schedule's update answers, with that stream, where the
  -- schedule has its last run now and its next run as computed, or as before where none is, and no other
  -- schedule has changed; or a failure with the error of the creation or of the update, with the stream
  -- all the same if one was created, and no next run changed.
  pub execute_scheduled_payroll-IsRecorded :
      (unlocks : Bool) (answers : Answers) (id : ℕ) (s : PayrollSchedule) (w : World C)
      → answers.insert_log ≡ true
      → let run = execute_scheduled_payroll config chain acquired unlocks answers id s w in
        (run.0 ≡ unlocks) × IsRecorded answers id s w run.1
  unfolding execute_scheduled_payroll with_advisory_lock
  execute_scheduled_payroll-IsRecorded unlocks answers id s w works =
      let task = payroll_task-IsRecorded answers id s w works in
      (ap (λ (b : Bool). b && unlocks) task.0, task.1)
