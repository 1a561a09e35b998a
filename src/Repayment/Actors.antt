-- ===== src/Repayment/Actors.antt =====
-- Which roles can post which repayments: the role matrix, the ledger's rights and the treasury's
-- entries taken together.
use loanapp.Repayment.Closing.{settle-ok}
use loanapp.Ledger.Accounts.{capital_pool_deployed, capital_pool_repaid}
use mathlib.Core.Path.{subst}
use loanapp.Loan.Status.{status_index, repaid, status_eq, Status, disbursed}
use loanapp.Ledger.Outcome.{post_entry-guards}
use loanapp.Treasury.Allocations.{
  debit_credit, capital_entry, release, CapitalRequest, apply_principal_repayment, Capital,
  CapitalAllocation,
}
use loanapp.Repayment.Stages.{post_in_transaction-Stages, allocated, Stages}
use loanapp.Repayment.Transaction.{
  assert_closing, capital_request, repayment_entry, post_in_transaction, check_loan,
  RepaymentResult,
}
use loanapp.Loan.Roles.{super_admin, system, ops, Role, assert_transition}
use loanapp.Ledger.Entries.{post_entry, adjustment, Ledger, repayment, role_can_post}
use loanapp.Common.{
  refl, ◌∙◌, sym, false≢true, ◌++◌, codes, guard_ok, ok_injective, loan_not_repayable, other_tenant,
  ==_iff, guard, inr, >>=-eq-ok, ◌==◌, ◌||◌, Bool-cases, false, Text, ap, inl, ◌-◌, arith, text_eq,
  ◌⊎◌, none, ok, true, ◌≡◌, some, Option, ℕ,
}
use loanapp.Repayment.Posting.{mark_overdue, apply_updates, LoanRow, Fresh, PostInput, LoanBook}

pub check_loan_ok :
    (i : PostInput) (o : Option LoanRow) {l : LoanRow}
    → check_loan i o ≡ ok l
    → (o ≡ some l)
      × (text_eq l.tenant i.tenant ≡ true)
      × ((l.status ≡ disbursed) ⊎ (l.status ≡ Status.overdue))
unfolding check_loan
check_loan_ok i none e = cc
check_loan_ok i (some x) {l} e =
    let (_, g1, e1) = >>=-eq-ok (guard (text_eq x.tenant i.tenant) other_tenant) _ e in
    let (_, g2, e2) =
      >>=-eq-ok
        (guard (status_eq x.status disbursed || status_eq x.status Status.overdue)
          loan_not_repayable)
        _ e1 in
    let same = ok_injective e2 in
    subst
      (λ y.
        (some x ≡ some y)
        × (text_eq y.tenant i.tenant ≡ true)
        × ((y.status ≡ disbursed) ⊎ (y.status ≡ Status.overdue)))
      same (refl, guard_ok _ _ g1, repayable x.status (guard_ok _ _ g2))
  where
    repayable :
        (s : Status)
        → (status_eq s disbursed || status_eq s Status.overdue) ≡ true
        → (s ≡ disbursed) ⊎ (s ≡ Status.overdue)
    repayable s h = unfold status_eq status_index in ground arith

closing_transition :
    (role : Role) (from to : Status)
    → from ≡ Status.overdue
    → to ≡ repaid
    → assert_closing role from to ≡ ok tt
    → assert_transition role Status.overdue repaid ≡ ok tt
unfolding assert_closing status_eq status_index
closing_transition role from to p q h = ground arith

ops_cannot_adjust : (role : Option Role) → role ≡ some ops → role_can_post role adjustment ≡ false
unfolding role_can_post
ops_cannot_adjust role h = ground arith

-- A release of capital by OPS goes through only if there is nothing to release.
ops_release :
    (column : ℕ → ℕ) (fresh : Text) (q : CapitalRequest) (o : Option CapitalAllocation) (g : Ledger)
    {c : Capital}
    → q.actor_role ≡ some ops
    → apply_principal_repayment column fresh q (o, g) ≡ ok c
    → (o ≡ none) ⊎ (q.amount ≡ 0)
unfolding apply_principal_repayment release
ops_release column fresh q none g role e = inl refl
ops_release column fresh q (some x) g {c} role e = elim (Bool-cases (q.amount == 0)) [
  | inl p ↦ inr ((==_iff q.amount 0).0 p)
  | inr p ↦
      let e' : release column fresh q x g ≡ ok c = ground arith in
      let (posted, ep, _) =
        >>=-eq-ok
          (post_entry column fresh
            (capital_entry adjustment (codes "capital:repayment:")
              (codes "Capital principal repaid to pool " ++ x.pool_id)
              (debit_credit capital_pool_repaid capital_pool_deployed q.amount) q)
            g)
          _ e' in
      let rights = (post_entry-guards column fresh _ g {r = posted} ep).2 in
      let no_right = ops_cannot_adjust q.actor_role role in
      absurd (unfold capital_entry in false≢true (sym no_right ∙ rights))
]

repayment_roles :
    (role : Role)
    → role_can_post (some role) repayment ≡ true
    → (role ≡ ops) ⊎ ((role ≡ system) ⊎ (role ≡ super_admin))
unfolding role_can_post
repayment_roles role h = ground arith

overdue_roles :
    (role : Role)
    → role_can_post (some role) repayment ≡ true
    → assert_transition role Status.overdue repaid ≡ ok tt
    → (role ≡ system) ⊎ (role ≡ super_admin)
unfolding role_can_post assert_transition
overdue_roles role h e = ground arith

module _ (column : ℕ → ℕ) (f : Fresh) (i : PostInput) where
  entry_role :
      {amount : ℕ} {b : LoanBook} {r : LoanBook × RepaymentResult}
      → Stages column f i amount b r
      → role_can_post (some i.role) repayment ≡ true
  entry_role {amount} {b} s =
      let a = allocated column f i amount b in
      let g =
        post_entry-guards column f.entry_id (repayment_entry f i s.loan (amount - a.amount_left) a)
          b.ledger {r = s.entry} s.entry_posted in
      unfold repayment_entry in g.2

  -- Only OPS, SYSTEM and SUPER_ADMIN ever post a repayment, and only SYSTEM and SUPER_ADMIN one
  -- that repays an overdue loan; the role matrix lets COLLECTIONS make both moves to REPAID, and
  -- the ledger refuses it the entry.
  pub posting_roles :
      (amount : ℕ) (b : LoanBook) {l : LoanRow} {r : LoanBook × RepaymentResult}
      → b.loan ≡ some l
      → post_in_transaction column f i amount b ≡ ok r
      → ((i.role ≡ ops) ⊎ ((i.role ≡ system) ⊎ (i.role ≡ super_admin)))
        × (l.status ≡ Status.overdue
            → r.1.status ≡ repaid
            → (i.role ≡ system) ⊎ (i.role ≡ super_admin))
  posting_roles amount b {l} {r} el e =
      let s = post_in_transaction-Stages column f i amount b {r = r} e in
      let a = allocated column f i amount b in
      let rows = apply_updates a.updates (mark_overdue f.today b.rows) in
      let o = settle-ok f i s.loan a (amount - a.amount_left) rows s.capital b {r = r} s.settled in
      let can = entry_role {amount = amount} {b = b} {r = r} s in
      let same : s.loan ≡ l = some_same (check_loan_ok i b.loan s.checked).0 el in
      (
        repayment_roles i.role can,
        λ late closes. overdue_roles i.role can (
            closing_transition i.role s.loan.status _ (ap (λ (x : LoanRow). x.status) same ∙ late)
              (sym o.3 ∙ closes) o.0),
      )
    where
      some_same : {x y : LoanRow} {m : Option LoanRow} → m ≡ some x → m ≡ some y → x ≡ y
      some_same p q = cc

  -- OPS cannot post a repayment that reaches the principal of a loan with allocated capital: the
  -- treasury's entry is an adjustment, which the ledger refuses to OPS.
  pub ops_capital :
      (amount : ℕ) (b : LoanBook) {r : LoanBook × RepaymentResult}
      → i.role ≡ ops
      → post_in_transaction column f i amount b ≡ ok r
      → (b.capital ≡ none) ⊎ ((allocated column f i amount b).principal ≡ 0)
  ops_capital amount b {r} role e =
      let s = post_in_transaction-Stages column f i amount b {r = r} e in
      unfold capital_request in
      ops_release column f.capital_entry_id
        (capital_request f i s.loan (allocated column f i amount b)) b.capital s.entry.0
        (ap some role) s.capital_moved
