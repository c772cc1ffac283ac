-- ===== src/Scheduler/Taken.antt =====
-- The overrides that `dequeuePendingOverrides` of db/queries.ts takes stand in the table.
use mathlib.Core.Option
use mathlib.Core.Path.{subst}
use quipay_backend.Prelude.{
  ℕ, zero, suc, refl, sym, Option, none, some, [], ◌∷◌, map, eqb, eqb_iff, if-both, if-true, nat_eq,
  string_eq, take, keep, All,
}
use quipay_backend.Map.{lookup, adjust, lookup-adjust}
use quipay_backend.Scheduler.Tables.{
  SchedulerOverride, Overrides, due_overrides, start_all, insert_override, order_by_created,
  created_first, start_processing, is_pending,
}

abbrev pub IsThere : Option SchedulerOverride → Type 0
IsThere none = ⊥
IsThere (some o) = Unit

pub IsThere-map :
    (f : SchedulerOverride → SchedulerOverride) (o : Option SchedulerOverride)
    → IsThere o
    → IsThere (Option.map f o)
IsThere-map f none h = h
IsThere-map f (some o) h = tt

-- What is there in one table is there in another.
abbrev pub Keeps : Overrides → Overrides → Type 0
Keeps table table' = (id : ℕ) → IsThere (lookup id table) → IsThere (lookup id table')

abbrev pub AllThere : Overrides → Overrides → Type 0
AllThere table os = All (λ (o : ℕ × SchedulerOverride). IsThere (lookup o.0 table)) os

pub All-there :
    (table table' : Overrides)
    → Keeps table table'
    → (os : Overrides) → AllThere table os
    → AllThere table' os
All-there table table' keeps [] h = tt
All-there table table' keeps (o ∷ os) h = (keeps o.0 h.0, All-there table table' keeps os h.1)

pub start_all-there :
    (started table os : Overrides) → AllThere table os → AllThere (start_all started table) os
unfolding start_all
start_all-there [] table os h = h
start_all-there (o ∷ started) table os h =
    start_all-there started (adjust o.0 start_processing table) os (
      All-there table (adjust o.0 start_processing table)
        (λ id there. subst IsThere (sym (lookup-adjust o.0 id start_processing table)) (
          if-both IsThere (eqb o.0 id) (IsThere-map start_processing (lookup id table) there)
            there))
        os h)

-- What depends on the ids alone holds for the rows before and after they are started.
module _ (P : ℕ → Type 0) where
  pub started :
      (os : Overrides)
      → All (λ (o : ℕ × SchedulerOverride). P o.0) os
      → All
          (λ (o : ℕ × SchedulerOverride). P o.0)
          (map (λ (o : ℕ × SchedulerOverride). (o.0, start_processing o.1)) os)
  started [] h = tt
  started (o ∷ os) h = (h.0, started os h.1)

  pub unstarted :
      (os : Overrides)
      → All
          (λ (o : ℕ × SchedulerOverride). P o.0)
          (map (λ (o : ℕ × SchedulerOverride). (o.0, start_processing o.1)) os)
      → All (λ (o : ℕ × SchedulerOverride). P o.0) os
  unstarted [] h = tt
  unstarted (o ∷ os) h = (h.0, unstarted os h.1)

-- The rows that are taken stand in the table.
module _ (P : ℕ × SchedulerOverride → Type 0) where
  All-insert_override :
      (o : ℕ × SchedulerOverride) (os : Overrides) → P o → All P os → All P (insert_override o os)
  All-insert_override o [] h hs = (h, tt)
  All-insert_override o (x ∷ os) h hs =
      if-both (All P) (created_first o x) (h, hs) (hs.0, All-insert_override o os h hs.1)

  All-order_by_created : (os : Overrides) → All P os → All P (order_by_created os)
  All-order_by_created [] h = tt
  All-order_by_created (o ∷ os) h =
      All-insert_override o (order_by_created os) h.0 (All-order_by_created os h.1)

  All-pending : (os : Overrides) → All P os → All P (keep is_pending os)
  All-pending [] h = tt
  All-pending (o ∷ os) h =
      if-both (All P) (is_pending o) (h.0, All-pending os h.1) (All-pending os h.1)

  All-taken : (n : ℕ) (os : Overrides) → All P os → All P (take n os)
  All-taken zero os h = tt
  All-taken (suc n) [] h = tt
  All-taken (suc n) (o ∷ os) h = (h.0, All-taken n os h.1)

  All-due_overrides :
      (limit : ℕ) (table : Overrides) → All P table → All P (due_overrides limit table)
  All-due_overrides limit table h =
      All-taken limit (order_by_created (keep is_pending table))
        (All-order_by_created (keep is_pending table) (All-pending table h))

lookup-there-behind : (o : ℕ × SchedulerOverride) (table : Overrides) → Keeps table (o ∷ table)
unfolding lookup
lookup-there-behind o table id h = if-both IsThere (eqb o.0 id) tt h

all_there : (table : Overrides) → AllThere table table
unfolding lookup
all_there [] = tt
all_there (o ∷ table) = (
  subst IsThere (sym (if-true (eqb o.0 o.0) (lookup o.0 table) ((eqb_iff o.0 o.0).1 refl))) tt,
  All-there table (o ∷ table) (lookup-there-behind o table) table (all_there table),
)

pub due-there : (limit : ℕ) (table : Overrides) → AllThere table (due_overrides limit table)
due-there limit table =
    All-due_overrides (λ (o : ℕ × SchedulerOverride). IsThere (lookup o.0 table)) limit table
      (all_there table)
