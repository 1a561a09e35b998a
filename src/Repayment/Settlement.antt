-- ===== src/Repayment/Settlement.antt =====
-- What `postRepayment` leaves outstanding on the loan.
use loanapp.Repayment.Overpayment.{posted-le-due}
use loanapp.Repayment.Closing.{settle-ok}
use loanapp.Repayment.Stages.{allocated, post_in_transaction-Stages}
use loanapp.Repayment.Conservation.{spent, remaining}
use loanapp.Repayment.Transaction.{
  next_status, settled_loan, outstanding_total, post_in_transaction, RepaymentResult, pending_items,
}
use loanapp.Repayment.Rows.{
  outstanding-eq-total, outstanding-allocate_items, outstanding, Found, Apart, Distinct, row_item,
}
use loanapp.Repayment.Allocation.{allocate, is_late, Item, ordered_items}
use loanapp.Common.{
  some, text_eq_sym, All-keep, All-append, ap, ◌-◌, ◌∙◌, sym, inr, ◌+◌, refl, inl, ok, arith, [],
  Bool-cases, text_eq_refl, ◌∷◌, not, ◌++◌, sum_by, map, ◌≡◌, keep, Bool, All, List, ℕ,
}
use loanapp.Repayment.Posting.{
  LoanRow, apply_updates, unpaid, PostInput, Row, Fresh, mark_overdue, LoanBook,
}

Apart-All : (i : Item) (items : List Item) → All (Apart i) items → All (λ j. Apart j i) items
Apart-All i [] h = tt
Apart-All i (j ∷ items) h = (text_eq_sym i.id j.id h.0, Apart-All i items h.1)

Distinct-keep : (p : Item → Bool) (items : List Item) → Distinct items → Distinct (keep p items)
Distinct-keep p [] d = tt
Distinct-keep p (i ∷ items) d = elim (Bool-cases (p i)) [
  | inl e ↦ rw e (All-keep (Apart i) p items d.0, Distinct-keep p items d.1)
  | inr e ↦ rw e (Distinct-keep p items d.1)
]

Distinct-append :
    (xs ys : List Item)
    → Distinct xs
    → Distinct ys
    → All (λ x. All (Apart x) ys) xs
    → Distinct (xs ++ ys)
Distinct-append [] ys dx dy h = dy
Distinct-append (x ∷ xs) ys dx dy h =
    (All-append (Apart x) xs ys dx.0 h.0, Distinct-append xs ys dx.1 dy h.1)

All-cons :
    (y : Item) (ys xs : List Item)
    → All (λ x. Apart x y) xs
    → All (λ x. All (Apart x) ys) xs
    → All (λ x. All (Apart x) (y ∷ ys)) xs
All-cons y ys [] h k = tt
All-cons y ys (x ∷ xs) h k = ((h.0, k.0), All-cons y ys xs h.1 k.1)

kept-Apart :
    (p : Item → Bool) (items : List Item)
    → Distinct items
    → All (λ x. All (Apart x) (keep (λ i. not (p i)) items)) (keep p items)
kept-Apart p [] d = tt
kept-Apart p (i ∷ items) d =
    let rest = kept-Apart p items d.1 in
    elim (Bool-cases (p i)) [
      | inl e ↦ rw e (All-keep (Apart i) (λ j. not (p j)) items d.0, rest)
      | inr e ↦ rw e (
          All-cons i (keep (λ j. not (p j)) items) (keep p items)
            (All-keep (λ j. Apart j i) p items (Apart-All i items d.0)) rest)
    ]

Distinct-ordered_items :
    (today : ℕ) (items : List Item) → Distinct items → Distinct (ordered_items today items)
unfolding ordered_items
Distinct-ordered_items today items d =
    Distinct-append (keep (is_late today) items) (keep (λ i. not (is_late today i)) items)
      (Distinct-keep (is_late today) items d) (Distinct-keep (λ i. not (is_late today i)) items d)
      (kept-Apart (is_late today) items d)

abbrev pub items_of : List Row → List Item
items_of rows = map (λ r. r.item) rows

All-pending :
    (P : Item → Type 0) (rows : List Row) → All P (items_of rows) → All P (pending_items rows)
All-pending P [] h = tt
All-pending P (r ∷ rows) h = elim (Bool-cases (unpaid r)) [
  | inl e ↦ rw e (h.0, All-pending P rows h.1)
  | inr e ↦ rw e (All-pending P rows h.1)
]

Distinct-pending : (rows : List Row) → Distinct (items_of rows) → Distinct (pending_items rows)
Distinct-pending [] d = tt
Distinct-pending (r ∷ rows) d = elim (Bool-cases (unpaid r)) [
  | inl e ↦ rw e (All-pending (Apart r.item) rows d.0, Distinct-pending rows d.1)
  | inr e ↦ rw e (Distinct-pending rows d.1)
]

Found-cons :
    (r : Row) (rows : List Row) (items : List Item)
    → All (Apart r.item) items
    → All (Found rows) items
    → All (Found (r ∷ rows)) items
unfolding row_item
Found-cons r rows [] apart found = tt
Found-cons r rows (j ∷ items) apart found =
    (rw apart.0 found.0, Found-cons r rows items apart.1 found.1)

Found-All : (rows : List Row) → Distinct (items_of rows) → All (Found rows) (items_of rows)
Found-All [] d = tt
Found-All (r ∷ rows) d = (
  unfold row_item in rw (text_eq_refl r.item.id),
  Found-cons r rows (items_of rows) d.0 (Found-All rows d.1),
)

items_of-mark_overdue :
    (today : ℕ) (rows : List Row) → items_of (mark_overdue today rows) ≡ items_of rows
unfolding mark_overdue
items_of-mark_overdue today [] = refl
items_of-mark_overdue today (r ∷ rows) = ground (arith, items_of-mark_overdue today rows)

outstanding-items_of : (rows : List Row) → outstanding rows ≡ sum_by remaining (items_of rows)
outstanding-items_of [] = refl
outstanding-items_of (r ∷ rows) = omega (arith, outstanding-items_of rows)

module _ (column : ℕ → ℕ) (f : Fresh) (i : PostInput) where
  -- Where the ids of the schedule's items are distinct, a repayment that is posted lowers the
  -- outstanding total of the loan by exactly its amount, and stores that total on the loan.
  pub posting_conserves :
      (amount : ℕ) (b : LoanBook) {r : LoanBook × RepaymentResult}
      → Distinct (items_of b.rows)
      → post_in_transaction column f i amount b ≡ ok r
      → (r.1.outstanding_total + amount ≡ outstanding_total b.rows)
        × (outstanding_total r.0.rows ≡ r.1.outstanding_total)
        × ((l : LoanRow) × (r.0.loan ≡ some l) × (l.outstanding_total ≡ r.1.outstanding_total))
  posting_conserves amount b {r} d e =
      let s = post_in_transaction-Stages column f i amount b {r = r} e in
      let a = allocated column f i amount b in
      let marked = mark_overdue f.today b.rows in
      let rows = apply_updates a.updates marked in
      let pending = pending_items marked in
      let o = settle-ok f i s.loan a (amount - a.amount_left) rows s.capital b {r = r} s.settled in
      let same = items_of-mark_overdue f.today b.rows in
      let dm : Distinct (items_of marked) = rw same d in
      let found = All-pending (Found marked) marked (Found-All marked dm) in
      let moved : outstanding (apply_updates a.updates marked) + spent a ≡ outstanding marked =
        moves marked pending (Distinct-pending marked dm) found in
      let whole = (posted-le-due column f i amount b {r = r} e).2 in
      let before = outstanding-eq-total b.rows in
      let after = outstanding-eq-total rows in
      let kept : outstanding marked ≡ outstanding b.rows =
        outstanding-items_of marked
        ∙ ap (sum_by remaining) same
        ∙ sym (outstanding-items_of b.rows) in
      (
        omega arith,
        ap outstanding_total o.5 ∙ sym o.2,
        (
          settled_loan i (next_status (outstanding_total rows) s.loan.status) rows s.loan,
          o.4,
          unfold settled_loan in sym o.2,
        ),
      )
    where
      moves :
          (rows : List Row) (items : List Item)
          → Distinct items
          → All (Found rows) items
          → let a = allocate i.posted_at f.today amount items in
            outstanding (apply_updates a.updates rows) + spent a ≡ outstanding rows
      moves rows items di found =
          unfold allocate in
          outstanding-allocate_items i.posted_at f.today amount (ordered_items f.today items) rows
            (Distinct-ordered_items f.today items di)
            (unfold ordered_items in
              All-append (Found rows) (keep (is_late f.today) items)
                (keep (λ j. not (is_late f.today j)) items)
                (All-keep (Found rows) (is_late f.today) items found)
                (All-keep (Found rows) (λ j. not (is_late f.today j)) items found))
