-- ===== src/Scheduler/Refresh.antt =====
-- The active jobs follow the active schedules: `refreshJobs` of scheduler/scheduler.ts.
use quipay_backend.Prelude.{
  ℕ, String, ◌≡◌, refl, sym, ap, ◌∙◌, inl, inr, true, false, ◌&&◌, Option, none, some, List, [],
  ◌∷◌, map, arith, eqb, if◌then◌else◌, eqb_iff, Bool-cases, if-split, if-true, if-false, ◌==◌,
  nat_eq, string_eq,
}
use quipay_backend.Map.{lookup, lookup-insert}
use quipay_backend.Scheduler.Tables.{PayrollSchedule, Schedules}
use quipay_backend.Scheduler.Jobs.{
  Cron, ScheduledJob, ActiveJobs, job_of, contains, schedule_job, unschedule_job,
  unschedule_missing, refresh_job, refresh_found, refresh_each, apply_schedules,
}
use quipay_backend.Scheduler.Unscheduling.{lookup-unschedule_job, lookup-unschedule_missing}

abbrev pub cron_of : Option ScheduledJob → Option String
cron_of none = none
cron_of (some job) = some job.cron_expression

abbrev ids_of : Schedules → List ℕ
ids_of schedules = map (λ (s : ℕ × PayrollSchedule). s.0) schedules

-- The ids are a primary key.
abbrev pub HasUniqueIds : Schedules → Type 0
HasUniqueIds [] = Unit
HasUniqueIds ((id, s) ∷ rest) = (contains id (ids_of rest) ≡ false) × HasUniqueIds rest

module _ (cron : Cron) where
  -- The expression that the job of an id should have.
  abbrev pub planned : ℕ → Schedules → Option String
  planned id [] = none
  planned id ((i, s) ∷ rest) =
      if eqb i id
      then if cron.validate s.cron_expression then some s.cron_expression else none
      else planned id rest

  -- Every job has an expression that `cron.validate` takes.
  abbrev pub AreValid : ActiveJobs → Type 0
  AreValid jobs = (id : ℕ) (e : String) → cron_of (lookup id jobs) ≡ some e → cron.validate e ≡ true

  -- What `cron.schedule` documents: it takes every valid expression.
  module _ (accepts : (e : String) → cron.validate e ≡ true → cron.starts e ≡ true) where
    lookup-schedule_job :
        (id other : ℕ) (s : PayrollSchedule) (jobs : ActiveJobs)
        → lookup id jobs ≡ none
        → lookup other (schedule_job cron id s jobs).1 ≡ (
            if eqb id other && cron.validate s.cron_expression
            then some (job_of s)
            else lookup other jobs)
    unfolding schedule_job
    lookup-schedule_job id other s jobs free = elim (Bool-cases (cron.validate s.cron_expression)) [
      | inl valid ↦
          rw (valid, free, accepts s.cron_expression valid)
            (ground (arith, lookup-insert id other (job_of s) jobs))
      | inr invalid ↦ rw invalid (ground arith)
    ]

    -- The expression that a schedule gives to its job.
    abbrev own : PayrollSchedule → Option String
    own s = if cron.validate s.cron_expression then some s.cron_expression else none

    cron-schedule_job :
        (id other : ℕ) (s : PayrollSchedule) (jobs : ActiveJobs)
        → lookup id jobs ≡ none
        → cron_of (lookup other (schedule_job cron id s jobs).1)
          ≡ (if eqb id other then own s else cron_of (lookup other jobs))
    cron-schedule_job id other s jobs free =
        ap cron_of (lookup-schedule_job id other s jobs free) ∙ ground arith

    refresh_job_eq :
        (id : ℕ) (s : PayrollSchedule) (jobs : ActiveJobs)
        → refresh_job cron id s jobs ≡ refresh_found cron id s jobs (lookup id jobs)
    unfolding refresh_job
    refresh_job_eq id s jobs = refl

    cron-kept :
        (id other : ℕ) (s : PayrollSchedule) (jobs : ActiveJobs) (job : ScheduledJob)
        → cron.validate s.cron_expression ≡ true
        → lookup id jobs ≡ some job
        → job.cron_expression ≡ s.cron_expression
        → cron_of (lookup other jobs)
          ≡ (if eqb id other then own s else cron_of (lookup other jobs))
    cron-kept id other s jobs job valid there same =
        if-split (λ (o : Option String). cron_of (lookup other jobs) ≡ o) (eqb id other)
          (λ t.
            ap (λ i. cron_of (lookup i jobs)) (sym ((eqb_iff id other).0 t))
            ∙ ap cron_of there
            ∙ ap (λ (e : String). some e) same
            ∙ sym (if-true (cron.validate s.cron_expression) none valid))
          (λ f. refl)

    cron-rescheduled :
        (id other : ℕ) (s : PayrollSchedule) (jobs : ActiveJobs)
        → cron_of (lookup other (schedule_job cron id s (unschedule_job cron id jobs).1).1)
          ≡ (if eqb id other then own s else cron_of (lookup other jobs))
    cron-rescheduled id other s jobs =
        cron-schedule_job id other s (unschedule_job cron id jobs).1 (
          lookup-unschedule_job cron id id jobs
          ∙ if-true (eqb id id) (lookup id jobs) ((eqb_iff id id).1 refl))
        ∙ elim (Bool-cases (eqb id other)) [
          | inl same ↦ rw same refl
          | inr differs ↦ rw differs (
              ap cron_of
                (lookup-unschedule_job cron id other jobs ∙ if-false (eqb id other) none differs))
        ]

    cron-refresh_found :
        (id other : ℕ) (s : PayrollSchedule) (jobs : ActiveJobs)
        → AreValid jobs
        → (found : Option ScheduledJob) → lookup id jobs ≡ found
        → cron_of (lookup other (refresh_found cron id s jobs found))
          ≡ (if eqb id other then own s else cron_of (lookup other jobs))
    cron-refresh_found id other s jobs valid none free = cron-schedule_job id other s jobs free
    cron-refresh_found id other s jobs valid (some job) there =
        if-split
          (λ (js : ActiveJobs).
            cron_of (lookup other js)
            ≡ (if eqb id other then own s else cron_of (lookup other jobs)))
          (job.cron_expression == s.cron_expression)
          (λ t.
            let same = (string_eq.test_iff job.cron_expression s.cron_expression).0 t in
            cron-kept id other s jobs job
              (ap cron.validate (sym same) ∙ valid id job.cron_expression (ap cron_of there)) there
              same)
          (λ f. cron-rescheduled id other s jobs)

    cron-refresh_job :
        (id other : ℕ) (s : PayrollSchedule) (jobs : ActiveJobs)
        → AreValid jobs
        → cron_of (lookup other (refresh_job cron id s jobs))
          ≡ (if eqb id other then own s else cron_of (lookup other jobs))
    cron-refresh_job id other s jobs valid =
        ap (λ js. cron_of (lookup other js)) (refresh_job_eq id s jobs)
        ∙ cron-refresh_found id other s jobs valid (lookup id jobs) refl

    AreValid-refresh_job :
        (id : ℕ) (s : PayrollSchedule) (jobs : ActiveJobs)
        → AreValid jobs
        → AreValid (refresh_job cron id s jobs)
    AreValid-refresh_job id s jobs valid other e h =
        let after = sym (cron-refresh_job id other s jobs valid) ∙ h in
        elim (Bool-cases (eqb id other)) [
          | inl same ↦ elim (Bool-cases (cron.validate s.cron_expression)) [
            | inl taken ↦ ap cron.validate (cc (rw (same, taken) at after)) ∙ taken
            | inr refused ↦ absurd (cc (rw (same, refused) at after))
          ]
          | inr differs ↦ valid other e (rw differs at after)
        ]

    cron-refresh_each :
        (schedules : Schedules) (jobs : ActiveJobs) (id : ℕ)
        → HasUniqueIds schedules
        → AreValid jobs
        → cron_of (lookup id (refresh_each cron schedules jobs)) ≡ (
            if contains id (ids_of schedules)
            then planned id schedules
            else cron_of (lookup id jobs))
    unfolding refresh_each
    cron-refresh_each [] jobs id unique valid = refl
    cron-refresh_each ((i, s) ∷ rest) jobs id unique valid =
        cron-refresh_each rest (refresh_job cron i s jobs) id unique.1
          (AreValid-refresh_job i s jobs valid)
        ∙ elim (Bool-cases (eqb i id)) [
          | inl same ↦
              let away =
                sym (ap (λ k. contains k (ids_of rest)) ((eqb_iff i id).0 same)) ∙ unique.0 in
              rw (away, cron-refresh_job i id s jobs valid, same) refl
          | inr differs ↦ rw (cron-refresh_job i id s jobs valid, differs) refl
        ]

    planned-not_contained :
        (id : ℕ) (schedules : Schedules)
        → contains id (ids_of schedules) ≡ false
        → planned id schedules ≡ none
    planned-not_contained id [] h = refl
    planned-not_contained id ((i, s) ∷ rest) h = elim (Bool-cases (eqb i id)) [
      | inl same ↦ absurd (cc (rw same at h))
      | inr differs ↦
          if-false (eqb i id) (own s) differs ∙ planned-not_contained id rest (rw differs at h)
    ]

    AreValid-unschedule_missing :
        (ids : List ℕ) (jobs : ActiveJobs)
        → AreValid jobs
        → AreValid (unschedule_missing cron ids jobs jobs)
    AreValid-unschedule_missing ids jobs valid id e h =
        let after = sym (ap cron_of (lookup-unschedule_missing cron ids jobs id)) ∙ h in
        elim (Bool-cases (contains id ids)) [
          | inl here ↦ valid id e (rw here at after)
          | inr away ↦ absurd (cc (rw away at after))
        ]

    planned-taken :
        (id : ℕ) (schedules : Schedules) (e : String)
        → planned id schedules ≡ some e
        → cron.validate e ≡ true
    planned-taken id [] e h = absurd (cc h)
    planned-taken id ((i, s) ∷ rest) e h = elim (Bool-cases (eqb i id)) [
      | inl same ↦ elim (Bool-cases (cron.validate s.cron_expression)) [
        | inl taken ↦ ap cron.validate (cc (rw (same, taken) at h)) ∙ taken
        | inr refused ↦ absurd (cc (rw (same, refused) at h))
      ]
      | inr differs ↦ planned-taken id rest e (rw differs at h)
    ]

    cron-apply_schedules :
        (schedules : Schedules) (jobs : ActiveJobs) (id : ℕ)
        → HasUniqueIds schedules
        → AreValid jobs
        → cron_of (lookup id (apply_schedules cron schedules jobs)) ≡ planned id schedules
    unfolding apply_schedules
    cron-apply_schedules schedules jobs id unique valid =
        let ids = ids_of schedules in
        cron-refresh_each schedules (unschedule_missing cron ids jobs jobs) id unique
          (AreValid-unschedule_missing ids jobs valid)
        ∙ elim (Bool-cases (contains id ids)) [
          | inl here ↦ rw here refl
          | inr away ↦
              rw (away, lookup-unschedule_missing cron ids jobs id, away)
                (sym (planned-not_contained id schedules away))
        ]

    -- After `refreshJobs` has read the active schedules, every id has the job of the expression of its
    -- schedule if that is valid, and no job otherwise, where the ids are unique, every job had a valid
    -- expression before and node-cron takes every valid expression; then every job has one again.
    pub apply_schedules-planned :
        (schedules : Schedules) (jobs : ActiveJobs)
        → HasUniqueIds schedules
        → AreValid jobs
        → ((id : ℕ)
            → cron_of (lookup id (apply_schedules cron schedules jobs)) ≡ planned id schedules)
          × AreValid (apply_schedules cron schedules jobs)
    apply_schedules-planned schedules jobs unique valid =
        let planned_all = λ (id : ℕ). cron-apply_schedules schedules jobs id unique valid in
        (planned_all, λ id e h. planned-taken id schedules e (sym (planned_all id) ∙ h))
