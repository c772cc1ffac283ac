-- ===== src/Dlq/Listing.antt =====
-- What `listDueWebhookDLQItems` of db/dlq.ts lists.
use quipay_backend.Prelude.{
  ℕ, zero, suc, ◌≤◌, ◌≡◌, true, false, [], ◌∷◌, arith, if-both, if-split, nat_eq, string_eq, length,
  take, keep, length-take, All,
}
use quipay_backend.Dlq.{
  DlqItem, DlqTable, is_due, comes_first, insert_ordered, order_by, list_due_webhook_dlq_items,
  due_at, is_pending, webhook_job_type,
}

-- A row that may be listed: pending, of a webhook, and due.
abbrev pub IsListed : ℕ → ℕ × DlqItem → Type 0
IsListed now x =
    (is_pending x.1.status ≡ true) × (x.1.job_type ≡ webhook_job_type) × (due_at x.1 ≤ now)

-- The rows after a row are due no earlier.
abbrev pub IsOrdered : DlqTable → Type 0
IsOrdered [] = Unit
IsOrdered (x ∷ xs) = All (λ (y : ℕ × DlqItem). due_at x.1 ≤ due_at y.1) xs × IsOrdered xs

module _ (P : ℕ × DlqItem → Type 0) where
  All-insert_ordered :
      (x : ℕ × DlqItem) (xs : DlqTable) → P x → All P xs → All P (insert_ordered x xs)
  unfolding insert_ordered
  All-insert_ordered x [] h t = (h, t)
  All-insert_ordered x (y ∷ ys) h t =
      if-both (All P) (comes_first x y) (h, t) (t.0, All-insert_ordered x ys h t.1)

  All-order_by : (xs : DlqTable) → All P xs → All P (order_by xs)
  unfolding order_by
  All-order_by [] h = h
  All-order_by (x ∷ xs) h = All-insert_ordered x (order_by xs) h.0 (All-order_by xs h.1)

  All-take : (n : ℕ) (xs : DlqTable) → All P xs → All P (take n xs)
  All-take zero xs h = tt
  All-take (suc n) [] h = h
  All-take (suc n) (x ∷ xs) h = (h.0, All-take n xs h.1)

due_of_comes_first :
    (x y : ℕ × DlqItem)
    → (comes_first x y ≡ true → due_at x.1 ≤ due_at y.1)
      × (comes_first x y ≡ false → due_at y.1 ≤ due_at x.1)
unfolding comes_first
due_of_comes_first x y = (λ h. ground (arith, h), λ h. ground (arith, h))

All-later :
    (m n : ℕ) (xs : DlqTable)
    → m ≤ n
    → All (λ (y : ℕ × DlqItem). n ≤ due_at y.1) xs
    → All (λ (y : ℕ × DlqItem). m ≤ due_at y.1) xs
All-later m n [] le h = tt
All-later m n (x ∷ xs) le h = (omega (arith, le, h.0), All-later m n xs le h.1)

insert_ordered-IsOrdered :
    (x : ℕ × DlqItem) (xs : DlqTable) → IsOrdered xs → IsOrdered (insert_ordered x xs)
unfolding insert_ordered
insert_ordered-IsOrdered x [] h = (tt, tt)
insert_ordered-IsOrdered x (y ∷ ys) h =
    if-split IsOrdered (comes_first x y)
      (λ first.
        let sooner = (due_of_comes_first x y).0 first in ((sooner, All-later _ _ ys sooner h.0), h))
      (λ later. (
        All-insert_ordered (λ (z : ℕ × DlqItem). due_at y.1 ≤ due_at z.1) x ys
            ((due_of_comes_first x y).1 later) h.0,
        insert_ordered-IsOrdered x ys h.1,
      ))

order_by-IsOrdered : (xs : DlqTable) → IsOrdered (order_by xs)
unfolding order_by
order_by-IsOrdered [] = tt
order_by-IsOrdered (x ∷ xs) = insert_ordered-IsOrdered x (order_by xs) (order_by-IsOrdered xs)

take-IsOrdered : (n : ℕ) (xs : DlqTable) → IsOrdered xs → IsOrdered (take n xs)
take-IsOrdered zero xs h = tt
take-IsOrdered (suc n) [] h = h
take-IsOrdered (suc n) (x ∷ xs) h = (All-take _ n xs h.0, take-IsOrdered n xs h.1)

kept-IsListed :
    (now : ℕ) (xs : DlqTable) → All (IsListed now) (keep (λ (x : ℕ × DlqItem). is_due now x.1) xs)
unfolding is_due
kept-IsListed now [] = tt
kept-IsListed now (x ∷ xs) =
    if-split (All (IsListed now)) (is_due now x.1)
      (λ due. (
        (
          ground (arith, due),
          (string_eq.test_iff x.1.job_type webhook_job_type).0 (ground (arith, due)),
          ground (arith, due),
        ),
        kept-IsListed now xs,
      ))
      (λ not_due. kept-IsListed now xs)

-- The list of the due webhooks has at most `limit` rows, each pending, of a webhook and due by
-- `now`, and in the order in which they fell due.
pub list_due_webhook_dlq_items-IsListed :
    (limit now : ℕ) (table : DlqTable)
    → (length (list_due_webhook_dlq_items limit now table) ≤ limit)
      × All (IsListed now) (list_due_webhook_dlq_items limit now table)
      × IsOrdered (list_due_webhook_dlq_items limit now table)
unfolding list_due_webhook_dlq_items
list_due_webhook_dlq_items-IsListed limit now table =
    let due = keep (λ (x : ℕ × DlqItem). is_due now x.1) table in
    let rows = order_by due in
    (
      omega (arith, length-take limit rows),
      All-take _ limit rows (All-order_by _ due (kept-IsListed now table)),
      take-IsOrdered limit rows (order_by-IsOrdered due),
    )
