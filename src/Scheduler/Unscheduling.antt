-- ===== src/Scheduler/Unscheduling.antt =====
-- The jobs that `unscheduleJob` and the first loop of `refreshJobs` of scheduler/scheduler.ts leave.
use quipay_backend.Prelude.{
  ℕ, ◌≡◌, refl, sym, ap, ◌∙◌, inl, inr, true, false, none, some, List, [], ◌∷◌, arith, eqb,
  if◌then◌else◌, eqb_iff, Bool-cases, Option-cases, if-both, if-split, if-true, if-false, nat_eq,
  string_eq,
}
use quipay_backend.Map.{lookup, lookup-delete}
use quipay_backend.Scheduler.Jobs.{
  Cron, ScheduledJob, ActiveJobs, contains, unschedule_job, unschedule_missing,
}

module _ (cron : Cron) where
  pub lookup-unschedule_job :
      (id other : ℕ) (jobs : ActiveJobs)
      → lookup other (unschedule_job cron id jobs).1
        ≡ (if eqb id other then none else lookup other jobs)
  unfolding unschedule_job
  lookup-unschedule_job id other jobs = elim (Option-cases (lookup id jobs)) [
    | inl gone ↦ rw gone (ground (arith, gone, eqb_iff id other))
    | inr (job, there) ↦ rw there (lookup-delete id other jobs)
  ]

  -- A step of the first loop changes no job of the ids, and adds none.
  lookup-step :
      (ids : List ℕ) (i id : ℕ) (jobs : ActiveJobs)
      → contains id ids ≡ true
      → lookup id (if contains i ids then jobs else (unschedule_job cron i jobs).1) ≡ lookup id jobs
  lookup-step ids i id jobs here =
      if-split (λ (js : ActiveJobs). lookup id js ≡ lookup id jobs) (contains i ids) (λ t. refl)
        (λ f. lookup-unschedule_job i id jobs ∙ elim (Bool-cases (eqb i id)) [
          | inl same ↦
              absurd (cc (sym here ∙ sym (ap (λ k. contains k ids) ((eqb_iff i id).0 same)) ∙ f))
          | inr differs ↦ if-false (eqb i id) none differs
        ])

  gone-step :
      (ids : List ℕ) (i id : ℕ) (jobs : ActiveJobs)
      → lookup id jobs ≡ none
      → lookup id (if contains i ids then jobs else (unschedule_job cron i jobs).1) ≡ none
  gone-step ids i id jobs gone =
      if-both (λ (js : ActiveJobs). lookup id js ≡ none) (contains i ids) gone
        (lookup-unschedule_job i id jobs ∙ ground (arith, gone))

  kept_by_missing :
      (ids : List ℕ) (entries jobs : ActiveJobs) (id : ℕ)
      → contains id ids ≡ true
      → lookup id (unschedule_missing cron ids entries jobs) ≡ lookup id jobs
  unfolding unschedule_missing
  kept_by_missing ids [] jobs id here = refl
  kept_by_missing ids ((i, job) ∷ rest) jobs id here =
      kept_by_missing ids rest _ id here ∙ lookup-step ids i id jobs here

  gone_by_missing :
      (ids : List ℕ) (entries jobs : ActiveJobs) (id : ℕ)
      → lookup id jobs ≡ none
      → lookup id (unschedule_missing cron ids entries jobs) ≡ none
  unfolding unschedule_missing
  gone_by_missing ids [] jobs id gone = gone
  gone_by_missing ids ((i, job) ∷ rest) jobs id gone =
      gone_by_missing ids rest _ id (gone-step ids i id jobs gone)

  taken_by_missing :
      (ids : List ℕ) (entries jobs : ActiveJobs) (id : ℕ) (job : ScheduledJob)
      → contains id ids ≡ false
      → lookup id entries ≡ some job
      → lookup id (unschedule_missing cron ids entries jobs) ≡ none
  unfolding unschedule_missing lookup
  taken_by_missing ids [] jobs id job away there = absurd (cc there)
  taken_by_missing ids ((i, first) ∷ rest) jobs id job away there = elim (Bool-cases (eqb i id)) [
    | inl same ↦ gone_by_missing ids rest _ id (
        if-split (λ (js : ActiveJobs). lookup id js ≡ none) (contains i ids)
          (λ t. absurd (cc (sym t ∙ ap (λ k. contains k ids) ((eqb_iff i id).0 same) ∙ away)))
          (λ f. lookup-unschedule_job i id jobs ∙ if-true (eqb i id) (lookup id jobs) same))
    | inr differs ↦ taken_by_missing ids rest _ id job away (rw differs at there)
  ]

  pub lookup-unschedule_missing :
      (ids : List ℕ) (jobs : ActiveJobs) (id : ℕ)
      → lookup id (unschedule_missing cron ids jobs jobs)
        ≡ (if contains id ids then lookup id jobs else none)
  lookup-unschedule_missing ids jobs id = elim (Bool-cases (contains id ids)) [
    | inl here ↦ kept_by_missing ids jobs jobs id here ∙ sym (if-true (contains id ids) none here)
    | inr away ↦
        elim (Option-cases (lookup id jobs)) [
          | inl gone ↦ gone_by_missing ids jobs jobs id gone
          | inr (job, there) ↦ taken_by_missing ids jobs jobs id job away there
        ]
        ∙ sym (if-false (contains id ids) (lookup id jobs) away)
  ]
