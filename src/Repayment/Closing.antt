-- ===== src/Repayment/Closing.antt =====
-- The closing of a loan by a repayment: the end of `postRepayment`.
use mathlib.Core.Option.{none}
use mathlib.Core.Path.{subst}
use loanapp.Repayment.Stages.{allocated, post_in_transaction-Stages}
use loanapp.Treasury.Allocations.{Capital}
use loanapp.Repayment.Allocation.{Allocated}
use loanapp.Loan.Status.{disbursed, repaid, Status, status_index, status_eq}
use loanapp.Common.{
  guard_ok, loan_not_repayable, other_tenant, text_eq, guard, if◌then◌else◌, true, Option, ◌||◌,
  >>=-eq-ok, sym, ◌-◌, ap, ok_injective, some, arith, ◌↔◌, ◌≢◌, ok, List, ◌≡◌, ℕ,
}
use loanapp.Repayment.Transaction.{
  check_loan, settled_loan, assert_closing, outstanding_total, settle, post_in_transaction,
  RepaymentResult, next_status, assert_loan_can_close,
}
use loanapp.Repayment.Posting.{
  mark_overdue, apply_updates, Row, LoanRow, PostInput, Fresh, LoanBook,
}

module _ (f : Fresh) (i : PostInput) (l : LoanRow) (a : Allocated) (posted : ℕ) where
  pub settle-ok :
      (rows : List Row) (c : Capital) (b : LoanBook) {r : LoanBook × RepaymentResult}
      → settle f i l a posted rows c b ≡ ok r
      → let next = next_status (outstanding_total rows) l.status in
        (assert_closing i.role l.status next ≡ ok tt)
        × (assert_loan_can_close next (outstanding_total rows) ≡ ok tt)
        × (r.1.outstanding_total ≡ outstanding_total rows)
        × (r.1.status ≡ next)
        × (r.0.loan ≡ some (settled_loan i next rows l))
        × (r.0.rows ≡ rows)
        × (r.0.ledger ≡ c.1)
  unfolding settle
  settle-ok rows c b {r} e =
      let next = next_status (outstanding_total rows) l.status in
      let (_, g1, e1) = >>=-eq-ok (assert_closing i.role l.status next) _ e in
      let (_, g2, e2) = >>=-eq-ok (assert_loan_can_close next (outstanding_total rows)) _ e1 in
      (
        g1,
        g2,
        ap_ok (λ x. x.1.outstanding_total) e2,
        ap_ok (λ x. x.1.status) e2,
        ap_ok (λ x. x.0.loan) e2,
        ap_ok (λ x. x.0.rows) e2,
        ap_ok (λ x. x.0.ledger) e2,
      )
    where
      ap_ok :
          {B : Type 0} (g : LoanBook × RepaymentResult → B) {x y : LoanBook × RepaymentResult}
          → ok x ≡ ok y
          → g y ≡ g x
      ap_ok g h = let same = ok_injective h in ap g (sym same)

closing_total :
    (total : ℕ) (status : Status)
    → assert_loan_can_close (next_status total status) total ≡ ok tt
    → (total ≢ 1) × ((next_status total status ≡ repaid) ↔ (total ≡ 0))
unfolding assert_loan_can_close next_status status_eq status_index
closing_total total status h = (ground arith, (ground arith, ground arith))

-- The status that the loan's row gets.
closing_row :
    (total : ℕ) (status : Status)
    → (status_eq status disbursed || status_eq status Status.overdue) ≡ true
    → assert_loan_can_close (next_status total status) total ≡ ok tt
    → ((if status_eq (next_status total status) repaid then repaid else status) ≡ repaid)
      ↔ (total ≡ 0)
unfolding assert_loan_can_close next_status status_eq status_index
closing_row total status open_loan h = (ground arith, ground arith)

check_loan_open :
    (i : PostInput) (o : Option LoanRow) {l : LoanRow}
    → check_loan i o ≡ ok l
    → (status_eq l.status disbursed || status_eq l.status Status.overdue) ≡ true
unfolding check_loan
check_loan_open i none h = cc
check_loan_open i (some x) {l} h =
    let (_, _, e1) = >>=-eq-ok (guard (text_eq x.tenant i.tenant) other_tenant) _ h in
    let (_, g, e2) =
      >>=-eq-ok
        (guard (status_eq x.status disbursed || status_eq x.status Status.overdue)
          loan_not_repayable)
        _ e1 in
    subst
      (λ (y : LoanRow). (status_eq y.status disbursed || status_eq y.status Status.overdue) ≡ true)
      (ok_injective e2) (guard_ok _ _ g)

module _ (column : ℕ → ℕ) (f : Fresh) (i : PostInput) where
  -- A posting that succeeds answers REPAID exactly if nothing is outstanding after it, and then
  -- alone is the loan's row REPAID; it never leaves one cent outstanding.
  pub repaid_iff :
      (amount : ℕ) (b : LoanBook) {r : LoanBook × RepaymentResult}
      → post_in_transaction column f i amount b ≡ ok r
      → (r.1.outstanding_total ≢ 1)
        × ((r.1.status ≡ repaid) ↔ (r.1.outstanding_total ≡ 0))
        × ((l : LoanRow) × (r.0.loan ≡ some l)
            × ((l.status ≡ repaid) ↔ (r.1.outstanding_total ≡ 0)))
  repaid_iff amount b {r} e =
      let s = post_in_transaction-Stages column f i amount b {r = r} e in
      let a = allocated column f i amount b in
      let rows = apply_updates a.updates (mark_overdue f.today b.rows) in
      let o = settle-ok f i s.loan a (amount - a.amount_left) rows s.capital b {r = r} s.settled in
      let total = outstanding_total rows in
      let ends = closing_total total s.loan.status o.1 in
      let row = closing_row total s.loan.status (check_loan_open i b.loan s.checked) o.1 in
      let answer =
        subst (λ n. (next_status total s.loan.status ≡ repaid) ↔ (n ≡ 0)) (sym o.2) ends.1 in
      (
        subst (λ n. n ≢ 1) (sym o.2) ends.0,
        subst (λ t. (t ≡ repaid) ↔ (r.1.outstanding_total ≡ 0)) (sym o.3) answer,
        (
          settled_loan i (next_status total s.loan.status) rows s.loan,
          o.4,
          subst
              (λ n.
                ((settled_loan i (next_status total s.loan.status) rows s.loan).status ≡ repaid)
                ↔ (n ≡ 0))
              (sym o.2) (unfold settled_loan in row),
        ),
      )
