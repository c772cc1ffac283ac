-- ===== src/Scheduler/Endings.antt =====
-- Every override that `executeSchedulerOverrides` of scheduler/scheduler.ts takes ends.
use mathlib.Core.Option
use mathlib.Core.Path.{subst}
use quipay_backend.Prelude.{
  ℕ, String, ◌≡◌, refl, sym, ◌∙◌, ◌≢◌, ◌⊎◌, inl, inr, Bool, true, Option, none, some, [], ◌∷◌, map,
  eqb, eqb_iff, if-both, if-split, if-true, nat_eq, string_eq, All,
}
use quipay_backend.Map.{lookup, adjust, lookup-adjust}
use quipay_backend.Scheduler.Tables.{
  PayrollSchedule, SchedulerOverride, OverrideAction, create_stream, cancel_stream, pause_stream,
  Overrides, completed, override_failed, mark_override_completed, mark_override_failed,
  dequeue_pending_overrides, due_overrides, start_all, start_processing,
}
use quipay_backend.Scheduler.Gateway.{
  Config, Chain, Created, created, throws, trigger_stream_creation,
}
use quipay_backend.Scheduler.Overrides.{
  OverrideWorld, MarkAnswers, perform, create_with_rate, rate_of, mock_schedule, finish_override,
  fail_override, mark_created, execute_override, execute_all, execute_scheduler_overrides,
}
use quipay_backend.Scheduler.Taken.{
  IsThere, IsThere-map, All-there, start_all-there, started, unstarted, due-there,
}

-- An override that has ended: with the id of a stream for which `P` holds, or with an error.
abbrev pub HasEnded : (ℕ → Type 0) → SchedulerOverride → Type 0
HasEnded P o =
    ((o.status ≡ completed) × ((n : ℕ) × (o.stream_id ≡ some n) × P n))
    ⊎ ((o.status ≡ override_failed) × (o.error_message ≢ none))

abbrev pub Ended : (ℕ → Type 0) → Option SchedulerOverride → Type 0
Ended P none = ⊥
Ended P (some o) = HasEnded P o

-- A change of one row that ends it keeps what has ended and what is there, and ends its own row.
adjust-Ended :
    (P : ℕ → Type 0) (id other : ℕ) (f : SchedulerOverride → SchedulerOverride) (table : Overrides)
    → ((o : SchedulerOverride) → HasEnded P (f o))
    → Ended P (lookup other table)
    → Ended P (lookup other (adjust id f table))
adjust-Ended P id other f table ends h =
    rw (lookup-adjust id other f table)
      (if-both (Ended P) (eqb id other) (mapped (lookup other table) h) h)
  where
    mapped : (o : Option SchedulerOverride) → Ended P o → Ended P (Option.map f o)
    mapped none h = h
    mapped (some o) h = ends o

Ended-map :
    (P : ℕ → Type 0) (f : SchedulerOverride → SchedulerOverride)
    → ((o : SchedulerOverride) → HasEnded P (f o))
    → (o : Option SchedulerOverride) → IsThere o
    → Ended P (Option.map f o)
Ended-map P f ends none h = h
Ended-map P f ends (some o) h = ends o

-- A table follows another for one override: what is there stays, what has ended stays so, and the
-- override itself has ended where it is there.
abbrev Follows : (ℕ → Type 0) → ℕ → Overrides → Overrides → Type 0
Follows P id table table' =
    ((other : ℕ) → IsThere (lookup other table) → IsThere (lookup other table'))
    × ((other : ℕ) → Ended P (lookup other table) → Ended P (lookup other table'))
    × (IsThere (lookup id table) → Ended P (lookup id table'))

adjust-Follows :
    (P : ℕ → Type 0) (id : ℕ) (f : SchedulerOverride → SchedulerOverride) (table : Overrides)
    → ((o : SchedulerOverride) → HasEnded P (f o))
    → Follows P id table (adjust id f table)
adjust-Follows P id f table ends = (
  λ other h.
      subst IsThere (sym (lookup-adjust id other f table))
        (if-both IsThere (eqb id other) (IsThere-map f (lookup other table) h) h),
  λ other h. adjust-Ended P id other f table ends h,
  λ h.
      subst (Ended P)
        (sym (
          lookup-adjust id id f table
          ∙ if-true (eqb id id) (lookup id table) ((eqb_iff id id).1 refl)))
        (Ended-map P f ends (lookup id table) h),
)

module _ (C T : Type 0) (config : Config) (chain : Chain C T) (random now : ℕ) where
  -- A stream creation has returned this id.
  abbrev pub WasCreated : ℕ → Type 0
  WasCreated n =
      (schedule : PayrollSchedule) × (start_ts : ℕ) × (end_ts : ℕ) × (c : C)
      × ((trigger_stream_creation config chain random schedule start_ts end_ts c).0 ≡ created n)

  perform-WasCreated :
      (o : SchedulerOverride) (action : OverrideAction) (c : C) (n : ℕ)
      → (perform config chain random now o action c).0 ≡ created n
      → WasCreated n
  perform-WasCreated o create_stream c n h = with_rate (rate_of o.params.rate) h
    where
      with_rate :
          (rate : Option String)
          → (create_with_rate config chain random now o rate c).0 ≡ created n
          → WasCreated n
      with_rate none h = absurd (cc h)
      with_rate (some rate) h = (mock_schedule o rate now, _, _, c, h)
  perform-WasCreated o cancel_stream c n h = absurd (cc h)
  perform-WasCreated o pause_stream c n h = absurd (cc h)

  fail-Follows :
      (answers : MarkAnswers) (id : ℕ) (e : String) (c : C) (table : Overrides)
      → answers.fails ≡ true
      → let r = fail_override config chain random now answers id e c table in
        (r.0 ≡ true) × Follows WasCreated id table r.1.overrides
  unfolding mark_override_failed
  fail-Follows answers id e c table works =
      if-split
        (λ (r : Bool × OverrideWorld C). (r.0 ≡ true) × Follows WasCreated id table r.1.overrides)
        answers.fails
        (λ t. (refl, adjust-Follows WasCreated id _ table (λ o. inr (refl, λ h. absurd (cc h)))))
        (λ f. absurd (cc (sym works ∙ f)))

  mark-Follows :
      (answers : MarkAnswers) (id stream_id : ℕ) (c : C) (table : Overrides)
      (answer : Option String)
      → WasCreated stream_id
      → answers.fails ≡ true
      → let r = mark_created config chain random now answers id stream_id c table answer in
        (r.0 ≡ true) × Follows WasCreated id table r.1.overrides
  unfolding mark_override_completed
  mark-Follows answers id stream_id c table (some e) made works =
      fail-Follows answers id e c table works
  mark-Follows answers id stream_id c table none made works =
      (refl, adjust-Follows WasCreated id _ table (λ o. inl (refl, (stream_id, refl, made))))

  finish-Follows :
      (answers : MarkAnswers) (id : ℕ) (table : Overrides) (r : Created × C)
      → ((n : ℕ) → r.0 ≡ created n → WasCreated n)
      → answers.fails ≡ true
      → let f = finish_override config chain random now answers id table r in
        (f.0 ≡ true) × Follows WasCreated id table f.1.overrides
  finish-Follows answers id table (throws e, c) made works = fail-Follows answers id e c table works
  finish-Follows answers id table (created stream_id, c) made works =
      mark-Follows answers id stream_id c table answers.completes (made stream_id refl) works

  execute-Follows :
      (answers : MarkAnswers) (o : ℕ × SchedulerOverride) (w : OverrideWorld C)
      → answers.fails ≡ true
      → let r = execute_override config chain random now answers o w in
        (r.0 ≡ true) × Follows WasCreated o.0 w.overrides r.1.overrides
  unfolding execute_override
  execute-Follows answers (id, o) w works =
      finish-Follows answers id w.overrides
        (perform config chain random now o o.action w.chain_state)
        (λ n. perform-WasCreated o o.action w.chain_state n) works

  module _ (answers : ℕ → MarkAnswers) (works : (id : ℕ) → (answers id).fails ≡ true) where
    execute_all-step :
        (o : ℕ × SchedulerOverride) (os : Overrides) (w : OverrideWorld C)
        → execute_all config chain random now answers (o ∷ os) w
          ≡ execute_all config chain random now answers os
              (execute_override config chain random now (answers o.0) o w).1
    unfolding execute_all
    execute_all-step o os w = if-true _ _ (execute-Follows (answers o.0) o w (works o.0)).0

    execute_all-keeps :
        (os : Overrides) (w : OverrideWorld C) (id : ℕ)
        → Ended WasCreated (lookup id w.overrides)
        → Ended WasCreated (lookup id (execute_all config chain random now answers os w).overrides)
    unfolding execute_all
    execute_all-keeps [] w id h = h
    execute_all-keeps (o ∷ os) w id h =
        subst (λ (r : OverrideWorld C). Ended WasCreated (lookup id r.overrides))
          (sym (execute_all-step o os w))
          (execute_all-keeps os _ id ((execute-Follows (answers o.0) o w (works o.0)).1.1 id h))

    execute_all-Ended :
        (os : Overrides) (w : OverrideWorld C)
        → All (λ (o : ℕ × SchedulerOverride). IsThere (lookup o.0 w.overrides)) os
        → All
            (λ (o : ℕ × SchedulerOverride).
              Ended WasCreated
                (lookup o.0 (execute_all config chain random now answers os w).overrides))
            os
    execute_all-Ended [] w h = tt
    execute_all-Ended (o ∷ os) w h =
        let first = execute-Follows (answers o.0) o w (works o.0) in
        let next = (execute_override config chain random now (answers o.0) o w).1 in
        subst
          (λ (r : OverrideWorld C).
            All (λ (p : ℕ × SchedulerOverride). Ended WasCreated (lookup p.0 r.overrides)) (o ∷ os))
          (sym (execute_all-step o os w))
          (
            execute_all-keeps os next o.0 (first.1.2 h.0),
            execute_all-Ended os next (All-there w.overrides next.overrides first.1.0 os h.1),
          )

    -- Where the overrides are dequeued and every failure can be recorded, each of those taken, at most
    -- ten of those pending, ends: as completed with an id that a stream creation has returned, or as failed with
    -- an error.
    pub execute_scheduler_overrides-Ended :
        (w : OverrideWorld C)
        → All
            (λ (o : ℕ × SchedulerOverride). Ended WasCreated (
              lookup o.0
                (execute_scheduler_overrides config chain random now true answers w).overrides))
            (due_overrides 10 w.overrides)
    unfolding execute_scheduler_overrides dequeue_pending_overrides
    execute_scheduler_overrides-Ended w =
        let due = due_overrides 10 w.overrides in
        let table = start_all due w.overrides in
        unstarted _ due (
          execute_all-Ended (map (λ (o : ℕ × SchedulerOverride). (o.0, start_processing o.1)) due)
            (record w { overrides = table })
            (started _ due (start_all-there due w.overrides due (due-there 10 w.overrides))))
