-- ===== src/Repayment/Overpayment.antt =====
-- Repayments and what is due: apps/api/src/loan/repayment/repayment.service.ts, postRepayment.
use loanapp.Repayment.Lines.{repayment_lines-total}
use loanapp.Ledger.Entries.{units_per_cent, post_entry, total, repayment, role_can_post, is_nil}
use loanapp.Repayment.Allocation.{Item}
use loanapp.Ledger.Outcome.{post_entry-unbalanced, post_entry-ok}
use loanapp.Repayment.Conservation.{spent, allocate_conserves, remaining}
use loanapp.Repayment.Stages.{post_in_transaction-Stages, allocated, Stages}
use loanapp.Repayment.Transaction.{
  has_repayment, check_loan, post_in_transaction, repayment_entry, pending_items, RepaymentResult,
}
use loanapp.Common.{
  lt→ltb, is_space, ◌+◌, is_blank-visible, ◌*◌, unbalanced, err, true, refl, [], arith, some, ◌∷◌,
  false, ◌≤◌, ◌<◌, ◌-◌, ok, List, ◌≡◌, sum_by, ℕ,
}
use loanapp.Repayment.Posting.{repayment_lines, LoanRow, mark_overdue, PostInput, Fresh, LoanBook}

module _ (column : ℕ → ℕ) (f : Fresh) (i : PostInput) where
  -- What is still due on the items on offer.
  abbrev pub due : LoanBook → ℕ
  due b = sum_by remaining (pending_items (mark_overdue f.today b.rows))

  left_none :
      (amount : ℕ) (b : LoanBook) {r : LoanBook × RepaymentResult}
      → Stages column f i amount b r
      → (allocated column f i amount b).amount_left ≡ 0
  left_none amount b s =
      let a = allocated column f i amount b in
      let conserved =
        allocate_conserves i.posted_at f.today amount
          (pending_items (mark_overdue f.today b.rows)) in
      let (cs, p, even, how) =
        post_entry-ok column f.entry_id (repayment_entry f i s.loan (amount - a.amount_left) a)
          b.ledger {r = s.entry} s.entry_posted in
      let (ds, q, d, c) =
        repayment_lines-total i.channel (amount - a.amount_left) a s.some_posted in
      let same : cs ≡ ds = unfold repayment_entry in cc in
      let d' : (total cs).0 ≡ (amount - a.amount_left) * units_per_cent = rw same d in
      let c' : (total cs).1 ≡ (spent a + a.amount_left) * units_per_cent = rw same c in
      let pos_amount = s.some_posted in omega arith

  -- A repayment that is posted is above zero and no more than what is due, and is spent whole.
  pub posted-le-due :
      (amount : ℕ) (b : LoanBook) {r : LoanBook × RepaymentResult}
      → post_in_transaction column f i amount b ≡ ok r
      → (0 < amount) × (amount ≤ due b) × (spent (allocated column f i amount b) ≡ amount)
  posted-le-due amount b {r} e =
      let s = post_in_transaction-Stages column f i amount b {r = r} e in
      let a = allocated column f i amount b in
      let conserved =
        allocate_conserves i.posted_at f.today amount
          (pending_items (mark_overdue f.today b.rows)) in
      let none_left = left_none amount b s in
      let positive = s.some_posted in (omega arith, omega arith, omega arith)

  pending_some : (items : List Item) → 0 < sum_by remaining items → is_nil items ≡ false
  pending_some [] h = elim h [ ]
  pending_some (x ∷ items) h = refl

  -- A repayment above what is due is always refused, when all else is in order: the amount left
  -- goes to the credits and not to the debit, and the ledger finds its entry unbalanced.
  pub overpayment_is_unbalanced :
      (amount : ℕ) (b : LoanBook) {l : LoanRow}
      → check_loan i b.loan ≡ ok l
      → 0 < due b
      → due b < amount
      → has_repayment i.key b.repayments ≡ false
      → role_can_post (some i.role) repayment ≡ true
      → post_in_transaction column f i amount b ≡ err unbalanced
  unfolding post_in_transaction
  overpayment_is_unbalanced amount b {l} el some_due over new role =
      let rows = mark_overdue f.today b.rows in
      let pending = pending_items rows in
      let a = allocated column f i amount b in
      let conserved = allocate_conserves i.posted_at f.today amount pending in
      let posted = amount - a.amount_left in
      let positive : 0 < posted = omega arith in
      let lines = repayment_lines-total i.channel posted a positive in
      let refused : post_entry column f.entry_id (repayment_entry f i l posted a) b.ledger
          ≡ err unbalanced =
        post_entry-unbalanced column f.entry_id (repayment_entry f i l posted a) b.ledger
          {checked = lines.0}
          (unfold repayment_entry in is_blank-visible b'r' _ (unfold is_space in refl))
          (unfold repayment_entry repayment_lines in refl) (unfold repayment_entry in role)
          (unfold repayment_entry in lines.1) (omega arith) in
      rw (el, pending_some pending some_due, lt→ltb 0 posted positive, new, refused)
