-- ===== src/Repayment/Conservation.antt =====
-- Where the amount of a repayment goes: `allocateRepaymentToSchedule`.
use loanapp.Common.{
  not, sum_by-append, keep, Bool, [], ◌∷◌, arith, sum_by, min, ◌≡◌, ◌+◌, List, ◌-◌, ℕ,
}
use loanapp.Repayment.Allocation.{
  is_late, ordered_items, allocate, allocate_items, Allocated, item_paid, share_of, Item,
}

-- What is still to be paid on an item.
unfoldable pub remaining : Item → ℕ
remaining i =
    (i.fees_due - i.fees_paid)
    + (i.interest_due - i.interest_paid)
    + (i.principal_due - i.principal_paid)

share_of_split :
    (left : ℕ) (i : Item)
    → (item_paid (share_of left i) ≡ min left (remaining i))
      × (item_paid (share_of left i) + (share_of left i).left ≡ left)
unfolding share_of remaining
share_of_split left i = (omega arith, omega arith)

abbrev pub spent : Allocated → ℕ
spent a = a.fees + a.interest + a.principal

module _ (paid_at today : ℕ) where
  pub allocate_items_split :
      (left : ℕ) (items : List Item)
      → let a = allocate_items paid_at today left items in
        (spent a ≡ min left (sum_by remaining items)) × (spent a + a.amount_left ≡ left)
  unfolding allocate_items
  allocate_items_split left [] = (omega arith, omega arith)
  allocate_items_split left (i ∷ items) =
      ground (arith, share_of_split left i, allocate_items_split (share_of left i).left items)

  sum_by-keep :
      (p : Item → Bool) (items : List Item)
      → sum_by remaining (keep p items) + sum_by remaining (keep (λ i. not (p i)) items)
        ≡ sum_by remaining items
  sum_by-keep p [] = omega arith
  sum_by-keep p (i ∷ items) = ground (arith, sum_by-keep p items)

  -- What the fees, the interest and the principal take together is the amount or, if that is less,
  -- all that is still due on the schedule; and with the amount left it makes up the amount.
  pub allocate_conserves :
      (amount : ℕ) (items : List Item)
      → let a = allocate paid_at today amount items in
        (spent a ≡ min amount (sum_by remaining items)) × (spent a + a.amount_left ≡ amount)
  unfolding allocate ordered_items
  allocate_conserves amount items =
      let split = allocate_items_split amount (ordered_items today items) in
      let parts =
        sum_by-append remaining (keep (is_late today) items)
          (keep (λ i. not (is_late today i)) items) in
      let whole = sum_by-keep (is_late today) items in (omega arith, omega arith)
