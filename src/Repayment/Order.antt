-- ===== src/Repayment/Order.antt =====
-- Which items a repayment reaches, and how far: `allocateRepaymentToSchedule`.
use loanapp.Repayment.Conservation.{allocate_items_split, remaining, spent}
use loanapp.Common.{
  All-keep, All-append, ◌<◌, ◌≢◌, sum_by, min, sym, ==_iff, ap, inr, not, inl, ◌==◌, refl,
  Bool-cases, ◌+◌, keep, max, ◌∷◌, arith, All, [], ◌≤◌, ◌++◌, List, ◌≡◌, ℕ,
}
use loanapp.Repayment.Allocation.{
  allocation_of, item_paid, is_late, ordered_items, share_of, allocate, update_of, allocate_items,
  Update, Item,
}

-- What an update does to the item that it is for: the same item, no part paid back, none paid
-- beyond what was due of it, and a total that moves with the parts.
abbrev pub Within : Item → Update → Type 0
Within i u =
    (u.id ≡ i.id)
    × (i.fees_paid ≤ u.fees_paid)
    × (i.interest_paid ≤ u.interest_paid)
    × (i.principal_paid ≤ u.principal_paid)
    × (u.fees_paid ≤ max i.fees_paid i.fees_due)
    × (u.interest_paid ≤ max i.interest_paid i.interest_due)
    × (u.principal_paid ≤ max i.principal_paid i.principal_due)
    × (u.total_paid + i.fees_paid + i.interest_paid + i.principal_paid
        ≡ i.total_paid + u.fees_paid + u.interest_paid + u.principal_paid)

module _ (paid_at today : ℕ) where
  update_of-Within : (left : ℕ) (i : Item) → Within i (update_of paid_at today i (share_of left i))
  unfolding update_of share_of
  update_of-Within left i = (
    refl,
    omega arith,
    omega arith,
    omega arith,
    omega arith,
    omega arith,
    omega arith,
    omega arith,
  )

  module _ (P : Item → Type 0) where
    abbrev pub For : Update → Type 0
    For u = (i : Item) × P i × Within i u

    allocate_items-Within :
        (left : ℕ) (items : List Item)
        → All P items
        → All For (allocate_items paid_at today left items).updates
    unfolding allocate_items
    allocate_items-Within left [] h = tt
    allocate_items-Within left (i ∷ items) h =
        let rest = allocate_items-Within (share_of left i).left items h.1 in
        elim (Bool-cases (left == 0)) [
          | inl p ↦ rw p tt
          | inr p ↦ elim (Bool-cases (item_paid (share_of left i) == 0)) [
            | inl q ↦ rw (p, q) rest
            | inr q ↦ rw (p, q) ((i, h.0, update_of-Within left i), rest)
          ]
        ]

    -- Every update is for an item of the schedule (one with any property P that all items have),
    -- and keeps each part of it within what is due.
    pub allocate-Within :
        (amount : ℕ) (items : List Item)
        → All P items
        → All For (allocate paid_at today amount items).updates
    unfolding allocate ordered_items
    allocate-Within amount items h = allocate_items-Within amount (ordered_items today items) (
        All-append P (keep (is_late today) items) (keep (λ i. not (is_late today i)) items)
          (All-keep P (is_late today) items h) (All-keep P (λ i. not (is_late today i)) items h))

  allocate_items_none :
      (items : List Item)
      → ((allocate_items paid_at today 0 items).allocations ≡ [])
        × ((allocate_items paid_at today 0 items).amount_left ≡ 0)
  unfolding allocate_items
  allocate_items_none [] = (refl, refl)
  allocate_items_none (i ∷ items) = (refl, refl)

  allocate_items-append :
      (left : ℕ) (xs ys : List Item)
      → let first = allocate_items paid_at today left xs in
        (allocate_items paid_at today left (xs ++ ys)).allocations
        ≡ first.allocations ++ (allocate_items paid_at today first.amount_left ys).allocations
  unfolding allocate_items
  allocate_items-append left [] ys = refl
  allocate_items-append left (x ∷ xs) ys =
      let rest = allocate_items-append (share_of left x).left xs ys in
      elim (Bool-cases (left == 0)) [
        | inl p ↦
            let z : left ≡ 0 = (==_iff left 0).0 p in rw (p, z) (sym (allocate_items_none ys).0)
        | inr p ↦ elim (Bool-cases (item_paid (share_of left x) == 0)) [
          | inl q ↦ rw (p, q) rest
          | inr q ↦ rw (p, q) (ap (λ l. allocation_of x (share_of left x) ∷ l) rest)
        ]
      ]

  -- Late items come first: the allocations are those of a run over the late items, which takes the
  -- amount or all that is due on them, followed by those of a run over the others with what it
  -- leaves; and if an item that is not late gets anything, the late ones are paid in full.
  pub allocate-late_first :
      (amount : ℕ) (items : List Item)
      → let late = keep (is_late today) items in
        let regular = keep (λ i. not (is_late today i)) items in
        let first = allocate_items paid_at today amount late in
        let second = allocate_items paid_at today first.amount_left regular in
        ((allocate paid_at today amount items).allocations
          ≡ first.allocations ++ second.allocations)
        × (spent first ≡ min amount (sum_by remaining late))
        × (second.allocations ≢ [] → sum_by remaining late < amount)
  unfolding allocate ordered_items
  allocate-late_first amount items =
      let late = keep (is_late today) items in
      let regular = keep (λ i. not (is_late today i)) items in
      let split = allocate_items_split paid_at today amount late in
      (allocate_items-append amount late regular, split.0, λ reached. left_over reached)
    where
      left_over :
          let first = allocate_items paid_at today amount (keep (is_late today) items) in
          ((allocate_items paid_at today first.amount_left
              (keep (λ i. not (is_late today i)) items)).allocations
            ≢ [])
          → sum_by remaining (keep (is_late today) items) < amount
      left_over reached =
          let late = keep (is_late today) items in
          let first = allocate_items paid_at today amount late in
          let split = allocate_items_split paid_at today amount late in
          elim (Bool-cases (first.amount_left == 0)) [
            | inl p ↦
                let z : first.amount_left ≡ 0 = (==_iff first.amount_left 0).0 p in
                absurd
                  (reached (rw z (allocate_items_none (keep (λ i. not (is_late today i)) items)).0))
            | inr p ↦ ground arith
          ]
