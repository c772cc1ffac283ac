-- ===== src/Archive/Tests.antt =====
-- Runs of services/archiveService.ts, and its theorems at inputs.
use quipay_backend.Prelude.{
  ℕ, zero, suc, ◌≤◌, ◌≡◌, refl, true, Option, none, some, List, [], ◌∷◌, map, arith, nat_eq,
  string_eq,
}
use quipay_backend.Map
use quipay_backend.Lock.{acquired}
use quipay_backend.Audit.Redaction.{
  Value, number, string, array, object, end, item, no_field, field,
}
use quipay_backend.Archive.Anonymizer.{
  Anonymizer, anonymize_value, replace_matches, mask_text, replace_matches, pseudonymize,
  pseudonymize, fingerprint,
}
use quipay_backend.Archive.Shapes.{
  an_object, of_kind, conforms, texts, anonymized, conforms-anonymize_value, texts-anonymize_value,
}
use quipay_backend.Archive.Tables.{AuditLogRow, archived_log}
use quipay_backend.Archive.Stores.{
  answered, World, Batch, Config, ArchiveRetentionSummary, run_archive_retention_cycle,
}
use quipay_backend.Archive.Retained.{
  IsSoundWorld, IsKeptWorld, run_archive_retention_cycle-IsKeptWorld,
}
use quipay_backend.Archive.Emptied.{Cutoffs, HasNoOld, run_archive_retention_cycle-HasNoOld}

-- A code that shows the text that is hashed, for the tests.
abbrev plain : Anonymizer
plain = record { hmac = λ salt text. text; salt = []; lower_case = λ text. text }

abbrev hello : List ℕ
hello = b'h' ∷ b'i' ∷ b' ' ∷ b'a' ∷ b'@' ∷ b'b' ∷ b'.' ∷ b'c' ∷ b'd' ∷ b'!' ∷ []

-- "hi a@b.cd!"
hello_masked :
    mask_text plain hello
    ≡ b'h' ∷ b'i' ∷ b' ' ∷ b'e' ∷ b'm' ∷ b'a' ∷ b'i' ∷ b'l' ∷ b'_' ∷ b'e' ∷ b'm' ∷ b'a' ∷ b'i'
      ∷ b'l' ∷ b':' ∷ b'a' ∷ b'@' ∷ b'b' ∷ b'.' ∷ b'c' ∷ b'd' ∷ b'!' ∷ []
unfolding mask_text replace_matches pseudonymize fingerprint
hello_masked = refl

abbrev email_key : List ℕ
email_key = b'e' ∷ b'm' ∷ b'a' ∷ b'i' ∷ b'l' ∷ []

abbrev context : Value
context = object (
    field email_key (array (item (string hello) (item (number 3) end)))
      (field [] (string hello) no_field))

conforms-anonymize_value_example :
    conforms (of_kind an_object) (anonymize_value plain [] context) ≡ true
unfolding conforms
conforms-anonymize_value_example = conforms-anonymize_value plain (of_kind an_object) [] context

texts-anonymize_value_example :
    texts [] (anonymize_value plain [] context)
    ≡ map (anonymized plain) ((email_key, hello) ∷ ([], hello) ∷ [])
unfolding texts
texts-anonymize_value_example = texts-anonymize_value plain refl [] context

-- A Stellar address of 56 characters is replaced in a text.
abbrev base_32 : ℕ → List ℕ
base_32 zero = []
base_32 (suc n) = b'A' ∷ base_32 n

abbrev stellar_name : List ℕ
stellar_name = b's' ∷ b't' ∷ b'e' ∷ b'l' ∷ b'l' ∷ b'a' ∷ b'r' ∷ []

masks_stellar :
    mask_text plain (b'G' ∷ base_32 55) ≡ pseudonymize plain stellar_name (b'G' ∷ base_32 55)
unfolding mask_text replace_matches
masks_stellar = refl

-- One of 55 is none.
keeps_shorter : mask_text plain (b'G' ∷ base_32 54) ≡ b'G' ∷ base_32 54
unfolding mask_text replace_matches
keeps_shorter = refl

abbrev log_at : ℕ → AuditLogRow
log_at t = record {
  timestamp = t;
  log_level = [];
  message = hello;
  action_type = [];
  employer = some hello;
  context = context;
  transaction_hash = none;
  block_number = none;
  error_message = none;
  error_code = none;
  error_stack = none;
  created_at = t;
}

abbrev two_logs : World
two_logs = record {
  logs = record { live = (1, log_at 30) ∷ (2, log_at 10) ∷ []; archived = [] };
  snapshots = record { live = []; archived = [] };
  events = record { live = []; archived = [] };
}

abbrev config : Config
config = record { anonymizer = plain; host = λ text. none; batch_size = 1; max_batches = 2 }

abbrev batch : Batch
batch = record {
  audit_cutoff = 50;
  metric_cutoff = 50;
  webhook_cutoff = 50;
  lists = true;
  audit_answers = answered;
  metric_answers = answered;
  webhook_answers = answered;
}

abbrev three_batches : List Batch
three_batches = batch ∷ batch ∷ batch ∷ []

abbrev ran : Option ArchiveRetentionSummary × World
ran = run_archive_retention_cycle config true true acquired true three_batches two_logs

-- The oldest log goes first.
both_archived :
    ran.1.logs.archived
    ≡ (2, archived_log plain (log_at 10)) ∷ (1, archived_log plain (log_at 30)) ∷ []
unfolding run_archive_retention_cycle
both_archived = refl

run_archive_retention_cycle-IsKeptWorld_example :
    IsSoundWorld config ran.1 × IsKeptWorld config (batch ∷ batch ∷ []) two_logs ran.1
unfolding Map.lookup
run_archive_retention_cycle-IsKeptWorld_example =
    run_archive_retention_cycle-IsKeptWorld config true true acquired true three_batches two_logs (
      ((refl, (refl, tt)), λ j r b found there. absurd (cc there)),
      (tt, λ j r b found there. absurd (cc there)),
      (tt, λ j r b found there. absurd (cc there)),
    )

abbrev cutoffs : Cutoffs
cutoffs = record { audit = 50; metric = 40; webhook = 50 }

run_archive_retention_cycle-HasNoOld_example :
    ((s : ArchiveRetentionSummary) × (ran.0 ≡ some s)) × HasNoOld cutoffs ran.1
run_archive_retention_cycle-HasNoOld_example =
    run_archive_retention_cycle-HasNoOld config cutoffs three_batches two_logs
      (answered_batch, (answered_batch, tt)) (omega arith, omega arith, omega arith)
  where
    answered_batch :
        (50 ≤ 50)
        × (40 ≤ 50)
        × (50 ≤ 50)
        × (true ≡ true)
        × (answered ≡ answered)
        × (answered ≡ answered)
        × (answered ≡ answered)
    answered_batch = (omega arith, omega arith, omega arith, refl, refl, refl, refl)
