-- ===== src/Syncer/Windows.antt =====
-- The events of the chain from a ledger on, and the batches that `getEvents` gives of them.
use quipay_backend.Prelude.{
  ℕ, zero, suc, ◌+◌, ◌≤◌, ◌<◌, ◌≡◌, refl, sym, ap, ◌∙◌, inl, inr, Bool, true, false, Option, some,
  List, [], ◌∷◌, ◌++◌, arith, leb, Bool-cases, if-both, nat_eq, string_eq, take, drop, keep,
  take-append-drop, All,
}
use quipay_backend.Syncer.{batch_size, last_ledger, next_cursor}
use quipay_backend.Syncer.Events.{Event}

-- The events of the chain from a ledger on.
abbrev pub from : ℕ → List Event → List Event
from c chain = keep (λ e. leb c e.ledger) chain

abbrev pub Documented : List Event → (ℕ → ℕ → Option (List Event)) → Type 0
Documented chain rpc = (k c : ℕ) → rpc k c ≡ some (take batch_size (from c chain))

-- Ledgers do not go back.
abbrev pub IsOrdered : List Event → Type 0
IsOrdered [] = Unit
IsOrdered (e ∷ es) = All (λ f. e.ledger ≤ f.ledger) es × IsOrdered es

-- No batch ends inside a ledger: what lies behind it is of later ledgers.
abbrev pub EndsAtLedgers : List Event → Type 0
EndsAtLedgers chain =
    (c : ℕ)
    → All (λ e. All (λ b. b.ledger < e.ledger) (take batch_size (from c chain)))
        (drop batch_size (from c chain))

keep-All {ℓ} : {A : Type ℓ} (p : A → Bool) (xs : List A) → All (λ x. p x ≡ true) xs → keep p xs ≡ xs
keep-All p [] h = refl
keep-All p (x ∷ xs) (e, h) = rw (e, keep-All p xs h)

keep-none {ℓ} :
    {A : Type ℓ} (p : A → Bool) (xs : List A) → All (λ x. p x ≡ false) xs → keep p xs ≡ []
keep-none p [] h = refl
keep-none p (x ∷ xs) (e, h) = rw (e, keep-none p xs h)

keep-append {ℓ} :
    {A : Type ℓ} (p : A → Bool) (xs ys : List A) → keep p (xs ++ ys) ≡ keep p xs ++ keep p ys
keep-append p [] ys = refl
keep-append p (x ∷ xs) ys = ground (arith, keep-append p xs ys)

pub All-from : (c : ℕ) (chain : List Event) → All (λ e. c ≤ e.ledger) (from c chain)
All-from c [] = tt
All-from c (e ∷ chain) = elim (Bool-cases (leb c e.ledger)) [
  | inl h ↦ rw h (ground arith, All-from c chain)
  | inr h ↦ rw h (All-from c chain)
]

from-from : (c d : ℕ) (chain : List Event) → c ≤ d → from d (from c chain) ≡ from d chain
from-from c d [] h = refl
from-from c d (e ∷ chain) h = ground (arith, from-from c d chain h)

pub All-take {ℓ κ} :
    {A : Type ℓ} (P : A → Type κ) (n : ℕ) (xs : List A) → All P xs → All P (take n xs)
All-take P zero xs h = tt
All-take P (suc n) [] h = tt
All-take P (suc n) (x ∷ xs) (p, h) = (p, All-take P n xs h)

All-keep {ℓ κ} :
    {A : Type ℓ} (P : A → Type κ) (p : A → Bool) (xs : List A) → All P xs → All P (keep p xs)
All-keep P p [] h = tt
All-keep P p (x ∷ xs) (q, h) = if-both (All P) (p x) (q, All-keep P p xs h) (All-keep P p xs h)

IsOrdered-from : (c : ℕ) (chain : List Event) → IsOrdered chain → IsOrdered (from c chain)
IsOrdered-from c [] h = tt
IsOrdered-from c (e ∷ chain) (le, h) = elim (Bool-cases (leb c e.ledger)) [
  | inl k ↦
      rw k (
        All-keep (λ f. e.ledger ≤ f.ledger) (λ f. leb c f.ledger) chain le,
        IsOrdered-from c chain h,
      )
  | inr k ↦ rw k (IsOrdered-from c chain h)
]

IsOrdered-take : (n : ℕ) (es : List Event) → IsOrdered es → IsOrdered (take n es)
IsOrdered-take zero es h = tt
IsOrdered-take (suc n) [] h = tt
IsOrdered-take (suc n) (e ∷ es) (le, h) = (All-take _ n es le, IsOrdered-take n es h)

All-le-last_ledger :
    (e : Event) (es : List Event)
    → IsOrdered (e ∷ es)
    → All (λ f. f.ledger ≤ last_ledger e es) (e ∷ es)
All-le-last_ledger e [] h = (omega arith, tt)
All-le-last_ledger e (f ∷ es) ((le, les), h) =
    let ih = All-le-last_ledger f es h in (omega (arith, ih.0), ih)

last_ledger-lt :
    (n : ℕ) (e : Event) (es : List Event) → All (λ b. b.ledger < n) (e ∷ es) → last_ledger e es < n
last_ledger-lt n e [] h = h.0
last_ledger-lt n e (f ∷ es) h = last_ledger-lt n f es h.1

All-later :
    (e : Event) (es later : List Event)
    → All (λ f. All (λ b. b.ledger < f.ledger) (e ∷ es)) later
    → All (λ f. leb (last_ledger e es + 1) f.ledger ≡ true) later
All-later e es [] h = tt
All-later e es (f ∷ later) (k, h) =
    (ground (arith, last_ledger-lt f.ledger e es k), All-later e es later h)

All-earlier :
    (n : ℕ) (es : List Event)
    → All (λ f. f.ledger ≤ n) es
    → All (λ f. leb (n + 1) f.ledger ≡ false) es
All-earlier n [] h = tt
All-earlier n (e ∷ es) (k, h) = (ground arith, All-earlier n es h)

-- The events from the next cursor on are those behind the batch.
from-next_cursor :
    (c latest : ℕ) (es chain later : List Event)
    → c ≤ latest
    → from c chain ≡ es ++ later
    → All (λ e. c ≤ e.ledger) es
    → IsOrdered es
    → All (λ f. All (λ b. b.ledger < f.ledger) es) later
    → (es ≡ [] → later ≡ [])
    → from (next_cursor latest es) chain ≡ later
from-next_cursor c latest [] chain later h split k o l empty =
    sym (from-from c (latest + 1) chain (omega arith))
    ∙ ap (from (latest + 1)) (split ∙ empty refl)
    ∙ sym (empty refl)
from-next_cursor c latest (e ∷ es) chain later h split k o l empty =
    let c' = last_ledger e es + 1 in
    sym (from-from c c' chain (omega (arith, (All-le-last_ledger e es o).0, k.0)))
    ∙ ap (from c') split
    ∙ keep-append (λ f. leb c' f.ledger) (e ∷ es) later
    ∙ ap (λ l. l ++ keep (λ f. leb c' f.ledger) later)
        (keep-none (λ f. leb c' f.ledger) (e ∷ es)
          (All-earlier (last_ledger e es) (e ∷ es) (All-le-last_ledger e es o)))
    ∙ keep-All (λ f. leb c' f.ledger) later (All-later e es later l)

drop-of-take-nil {ℓ} :
    {A : Type ℓ} (n : ℕ) (xs : List A) → take (suc n) xs ≡ [] → drop (suc n) xs ≡ []
drop-of-take-nil n [] h = refl
drop-of-take-nil n (x ∷ xs) h = ground (arith, h)

pub All-weaken :
    (c d : ℕ) (es : List Event) → c ≤ d → All (λ e. d ≤ e.ledger) es → All (λ e. c ≤ e.ledger) es
All-weaken c d [] h k = tt
All-weaken c d (e ∷ es) h (k, ks) = (omega arith, All-weaken c d es h ks)

-- What a batch of an answered request leaves to ask for.
pub from-batch :
    (c latest : ℕ) (chain : List Event)
    → c ≤ latest
    → IsOrdered chain
    → EndsAtLedgers chain
    → let es = take batch_size (from c chain) in
      es ++ from (next_cursor latest es) chain ≡ from c chain
from-batch c latest chain h o l =
    let es = take batch_size (from c chain) in
    let split = take-append-drop batch_size (from c chain) in
    ap (λ r. es ++ r)
      (from-next_cursor c latest es chain (drop batch_size (from c chain)) h (sym split)
        (All-take _ batch_size (from c chain) (All-from c chain))
        (IsOrdered-take batch_size (from c chain) (IsOrdered-from c chain o)) (l c)
        (drop-of-take-nil 199 (from c chain)))
    ∙ split
