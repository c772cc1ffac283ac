-- ===== src/Streams/Balances.antt =====
-- The treasury balances of db/queries.ts, and what the audit log makes of them.
use quipay_backend.Prelude.{
  ℕ, String, ◌≡◌, refl, sym, ◌≢◌, inl, inr, Option, none, some, List, [], ◌∷◌, ◌++◌, arith, eq_iff,
  if◌then◌else◌, eqb_iff, Bool-cases, Option-cases, ◌==◌, nat_eq, string_eq, All,
}
use quipay_backend.Int.{ℤ, pos, ◌+ℤ◌, ◌-ℤ◌, +ℤ_assoc, zero-+ℤ, +ℤ-zero}
use quipay_backend.Map
use quipay_backend.Streams.{
  StreamRow, Treasury, Action, created, cancelled, AuditEntry, Store, adjust_treasury, add_balance,
  ensure_treasury,
}

-- An employer's balance, 0 where it has no row.
abbrev pub balance_of : String → List (String × Treasury) → ℤ
balance_of e t = elim (Map.lookup e t) [ none ↦ pos 0 | some row ↦ row.balance ]

abbrev opened : Treasury
opened = record { balance = pos 0; token = "USDC" }

balance_of-ensure_treasury :
    (e employer : String) (t : List (String × Treasury))
    → balance_of e (ensure_treasury employer t) ≡ balance_of e t
unfolding ensure_treasury
balance_of-ensure_treasury e employer t =
    ground (arith, Map.lookup-insert employer e opened t, eq_iff employer e)

lookup-ensure_treasury :
    (employer : String) (t : List (String × Treasury))
    → Map.lookup employer (ensure_treasury employer t) ≢ none
unfolding ensure_treasury
lookup-ensure_treasury employer t =
    ground (arith, Map.lookup-insert employer employer opened t, eq_iff employer employer)

balance_of-add_balance :
    (e employer : String) (amount : ℤ) (t : List (String × Treasury))
    → Map.lookup employer t ≢ none
    → balance_of e (add_balance employer amount t)
      ≡ (if employer == e then balance_of e t +ℤ amount else balance_of e t)
unfolding add_balance
balance_of-add_balance e employer amount t h = elim (Option-cases (Map.lookup employer t)) [
  | inl missing ↦ absurd (h missing)
  | inr (row, found) ↦
      rw (found, add_balance)
        (ground (
          arith,
          Map.lookup-insert employer e (record row { balance = row.balance +ℤ amount }) t,
          eq_iff employer e,
          found,
        ))
]

-- The adjustment changes the balance of its employer alone, whether it has a row or not.
pub balance_of-adjust_treasury :
    (e employer : String) (amount : ℤ) (t : List (String × Treasury))
    → balance_of e (adjust_treasury employer amount t)
      ≡ (if employer == e then balance_of e t +ℤ amount else balance_of e t)
unfolding adjust_treasury
balance_of-adjust_treasury e employer amount t =
    rw
      (balance_of-add_balance e employer amount (ensure_treasury employer t)
        (lookup-ensure_treasury employer t))
      (rw (balance_of-ensure_treasury e employer t))

-- The employer that a stream's row names.
abbrev pub employer_at : ℕ → List (ℕ × StreamRow) → Option String
employer_at id streams = elim (Map.lookup id streams) [
  | none ↦ none
  | some row ↦ some row.employer_address
]

abbrev pub delta : Action → ℤ
delta (created total_amount) = pos 0 -ℤ total_amount
delta (cancelled old_status reason refund_amount) = refund_amount

-- What an audit entry of an employer's stream says of the employer's balance.
abbrev pub impact : String → Option String → ℤ → ℤ
impact e none d = pos 0
impact e (some employer) d = if employer == e then d else pos 0

unfoldable pub impacts : String → List (ℕ × StreamRow) → List AuditEntry → ℤ
impacts e streams [] = pos 0
impacts e streams (a ∷ log) =
    impact e (employer_at a.stream_id streams) (delta a.action) +ℤ impacts e streams log

abbrev pub Known : List (ℕ × StreamRow) → List AuditEntry → Type 0
Known streams log = All (λ a. employer_at a.stream_id streams ≢ none) log

-- The audit log accounts for every balance: it is the opening balance, less the totals of the
-- employer's created streams, plus the refunds of the cancelled ones.
pub record IsReconciled {A : Type 0} (opening : String → ℤ) (s : Store A) : Type 0 where
  pub known : Known s.streams s.audit_log
  pub balanced :
      (e : String) → balance_of e s.treasury ≡ opening e +ℤ impacts e s.streams s.audit_log

-- Later rows keep the employer of every stream that is there.
abbrev pub Extends : List (ℕ × StreamRow) → List (ℕ × StreamRow) → Type 0
Extends streams later =
    (id : ℕ) → employer_at id streams ≢ none → employer_at id later ≡ employer_at id streams

pub impacts-Extends :
    (e : String) (streams later : List (ℕ × StreamRow)) (log : List AuditEntry)
    → Extends streams later
    → Known streams log
    → impacts e later log ≡ impacts e streams log
unfolding impacts
impacts-Extends e streams later [] x k = refl
impacts-Extends e streams later (a ∷ log) x (k, ks) =
    rw (x a.stream_id k, impacts-Extends e streams later log x ks)

pub Known-Extends :
    (streams later : List (ℕ × StreamRow)) (log : List AuditEntry)
    → Extends streams later
    → Known streams log
    → Known later log
Known-Extends streams later [] x k = tt
Known-Extends streams later (a ∷ log) x (k, ks) =
    (rw (x a.stream_id k) k, Known-Extends streams later log x ks)

pub impacts-append :
    (e : String) (streams : List (ℕ × StreamRow)) (log : List AuditEntry) (a : AuditEntry)
    → impacts e streams (log ++ a ∷ [])
      ≡ impacts e streams log +ℤ impact e (employer_at a.stream_id streams) (delta a.action)
unfolding impacts
impacts-append e streams [] a = rw (+ℤ-zero, zero-+ℤ)
impacts-append e streams (b ∷ log) a = rw (impacts-append e streams log a) (sym (+ℤ_assoc _ _ _))

pub impact-adjust :
    (e employer : String) (b o i d : ℤ) (who : Option String)
    → who ≡ some employer
    → b ≡ o +ℤ i
    → (if employer == e then b +ℤ d else b) ≡ o +ℤ (i +ℤ impact e who d)
impact-adjust e employer b o i d who w h = elim (Bool-cases (employer == e)) [
  | inl same ↦ rw (w, same, h) (+ℤ_assoc o i d)
  | inr other ↦ rw (w, other, h, +ℤ-zero)
]

pub employer_at-insert_self :
    (id : ℕ) (row : StreamRow) (streams : List (ℕ × StreamRow))
    → employer_at id (Map.insert id row streams) ≡ some row.employer_address
employer_at-insert_self id row streams =
    ground (arith, Map.lookup-insert id id row streams, eqb_iff id id)

-- A write that keeps the employers, with one entry that says what the treasury was adjusted by.
