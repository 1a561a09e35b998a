-- ===== src/Repayment/Stages.antt =====
-- The stages that a successful posting has gone through.
use loanapp.Treasury.Allocations.{apply_principal_repayment, Capital}
use loanapp.Repayment.Transaction.{
  settle, capital_request, repayment_entry, has_repayment, check_loan, pending_items,
  post_in_transaction, RepaymentResult,
}
use loanapp.Repayment.Allocation.{allocate, Allocated}
use loanapp.Common.{
  guard-not_ok, guard_ok, ltb→lt, repayment_exists, nothing_allocated, ltb, false,
  no_schedule_items, ◌-◌, not, guard, >>=-eq-ok, ◌<◌, ok, ◌≡◌, ℕ,
}
use loanapp.Ledger.Entries.{post_entry, is_nil, Posted, Ledger}
use loanapp.Repayment.Posting.{apply_updates, mark_overdue, LoanRow, PostInput, Fresh, LoanBook}

-- What a successful transaction passed, stage by stage.
module _ (column : ℕ → ℕ) (f : Fresh) (i : PostInput) where
  abbrev pub allocated : ℕ → LoanBook → Allocated
  allocated amount b =
      allocate i.posted_at f.today amount (pending_items (mark_overdue f.today b.rows))

  pub record Stages (amount : ℕ) (b : LoanBook) (r : LoanBook × RepaymentResult) : Type 0 where
    pub loan : LoanRow
    pub entry : Ledger × Posted
    pub capital : Capital
    pub checked : check_loan i b.loan ≡ ok loan
    pub some_posted : 0 < amount - (allocated amount b).amount_left
    pub key_is_new : has_repayment i.key b.repayments ≡ false
    pub entry_posted :
        post_entry column f.entry_id
          (repayment_entry f i loan
            (amount - (allocated amount b).amount_left)
            (allocated amount b))
          b.ledger
        ≡ ok entry
    pub capital_moved :
        apply_principal_repayment column f.capital_entry_id
          (capital_request f i loan (allocated amount b))
          (b.capital, entry.0)
        ≡ ok capital
    pub settled :
        settle f i loan
          (allocated amount b)
          (amount - (allocated amount b).amount_left)
          (apply_updates (allocated amount b).updates (mark_overdue f.today b.rows))
          capital
          b
        ≡ ok r

  pub post_in_transaction-Stages :
      (amount : ℕ) (b : LoanBook) {r : LoanBook × RepaymentResult}
      → post_in_transaction column f i amount b ≡ ok r
      → Stages amount b r
  unfolding post_in_transaction
  post_in_transaction-Stages amount b {r} e =
      let (l, el, e1) = >>=-eq-ok (check_loan i b.loan) _ e in
      let (_, g1, e2) =
        >>=-eq-ok
          (guard (not (is_nil (pending_items (mark_overdue f.today b.rows)))) no_schedule_items) _
          e1 in
      let (_, g2, e3) =
        >>=-eq-ok (guard (ltb 0 (amount - (allocated amount b).amount_left)) nothing_allocated) _
          e2 in
      let (_, g3, e4) =
        >>=-eq-ok (guard (not (has_repayment i.key b.repayments)) repayment_exists) _ e3 in
      let (entry, ep, e5) =
        >>=-eq-ok
          (post_entry column f.entry_id
            (repayment_entry f i l (amount - (allocated amount b).amount_left) (allocated amount b))
            b.ledger)
          _ e4 in
      let (capital, cm, e6) =
        >>=-eq-ok
          (apply_principal_repayment column f.capital_entry_id
            (capital_request f i l (allocated amount b)) (b.capital, entry.0))
          _ e5 in
      record {
        loan = l;
        entry = entry;
        capital = capital;
        checked = el;
        some_posted = ltb→lt _ _ (guard_ok _ _ g2);
        key_is_new = guard-not_ok _ _ g3;
        entry_posted = ep;
        capital_moved = cm;
        settled = e6;
      }
