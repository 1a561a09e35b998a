-- ===== src/Disbursement/Money.antt =====
-- The money of a disbursement: the loan's amount, its entry in the ledger and its capital.
use mathlib.Core.Path.{subst}
use loanapp.Disbursement.Payment.{PaidEntry, post_entry-PaidEntry}
use loanapp.Treasury.Deployments.{find_entry-deploy_to_loan, deploy_to_loan-Deployed, Deployed}
use loanapp.Loan.Roles.{assert_transition}
use loanapp.Treasury.Pools.{deploy_to_loan}
use loanapp.Disbursement.Stages.{disburse_transaction-Paid, Paid, Replayed}
use loanapp.Loan.Status.{Status}
use loanapp.Risk.Gate.{enforce_risk_gate}
use loanapp.Treasury.Allocations.{CapitalAllocation, Capital}
use loanapp.Ledger.Entries.{find_entry, post_entry, Posted, Ledger}
use loanapp.Disbursement.Transaction.{
  deploy_effects, final_effects, deploy_request, disbursement_entry, succeed_row, is_ready,
  disbursed_application, disburse_transaction, assert_no_duplicate, Outcome, pay_out,
}
use loanapp.Disbursement.Records.{
  amount_of, method_of, update_by_id, count_success, DisbursementStatus, Disbursement, Book,
  Application, DisburseInput, Principal, NewIds,
}
use loanapp.Common.{
  refl, guard_ok, ok_injective, sym, duplicate_disbursement, guard, ◌∙◌, ap, inr, ◌++◌, inl,
  >>=-eq-ok, ◌⊎◌, List, arith, ◌≤◌, true, leb, none, some, ◌≡◌, Text, Bool, ℕ, ok,
}

-- The stages of `pay_out`.
pub record PaidOut (column : ℕ → ℕ) (f : NewIds) (p : Principal) (i : DisburseInput) (key : Text)
    (a : Application) (d : Disbursement) (b : Book) (r : Book × Outcome) : Type 0 where
  pub posted : Ledger × Posted
  pub deployed : Capital × CapitalAllocation
  pub entry_posted :
      post_entry column f.entry_id (disbursement_entry f p i a key) b.capital.1 ≡ ok posted
  pub capital_deployed :
      deploy_to_loan column
        (f.allocation_id, f.capital_entry_id)
        (deploy_request f p a d)
        b.pools
        b.other_allocations
        (b.capital.0, posted.0)
      ≡ ok deployed
  pub allowed : assert_transition p.role a.status Status.disbursed ≡ ok tt
  pub application_of : r.0.application ≡ some (disbursed_application f a)
  pub capital_of : r.0.capital ≡ deployed.0
  pub effects_of :
      r.0.effects ≡ b.effects ++ (deploy_effects a b.capital.0 deployed.1 ++ final_effects a d)
  pub id_of : r.1.0 ≡ d.id
  pub one_success : count_success a.id r.0.disbursements ≤ 1

module _ (column : ℕ → ℕ) (f : NewIds) (p : Principal) (i : DisburseInput) (key : Text)
    (a : Application) where
  pub pay_out-PaidOut :
      (d : Disbursement) (b : Book) {r : Book × Outcome}
      → pay_out column f p i key a d b ≡ ok r
      → PaidOut column f p i key a d b r
  unfolding pay_out assert_no_duplicate
  pay_out-PaidOut d b {r} e =
      let rows = update_by_id d.id (succeed_row f (method_of i)) b.disbursements in
      let (posted, ep, e1) =
        >>=-eq-ok (post_entry column f.entry_id (disbursement_entry f p i a key) b.capital.1) _ e in
      let (funded, ed, e2) =
        >>=-eq-ok
          (deploy_to_loan column (f.allocation_id, f.capital_entry_id) (deploy_request f p a d)
            b.pools b.other_allocations (b.capital.0, posted.0))
          _ e1 in
      let (_, g1, e3) = >>=-eq-ok (assert_transition p.role a.status Status.disbursed) _ e2 in
      let (_, g2, e4) =
        >>=-eq-ok (guard (leb (count_success a.id rows) 1) duplicate_disbursement) _ e3 in
      let same = sym (ok_injective e4) in
      let kept : r.0.disbursements ≡ rows = ap (λ (x : Book × Outcome). x.0.disbursements) same in
      let once : leb (count_success a.id rows) 1 ≡ true = guard_ok _ _ g2 in
      record {
        posted = posted;
        deployed = funded;
        entry_posted = ep;
        capital_deployed = ed;
        allowed = g1;
        application_of = ap (λ (x : Book × Outcome). x.0.application) same;
        capital_of = ap (λ (x : Book × Outcome). x.0.capital) same;
        effects_of = ap (λ (x : Book × Outcome). x.0.effects) same;
        id_of = ap (λ (x : Book × Outcome). x.1.0) same;
        one_success =
            subst (λ (x : List Disbursement). count_success a.id x ≤ 1) (sym kept)
              (leb→le (count_success a.id rows) 1 once);
      }
    where
      leb→le : (m n : ℕ) → leb m n ≡ true → m ≤ n
      leb→le m n h = ground arith

-- What a disbursement leaves of a loan without capital: the application is disbursed at that time
-- with its approved amount, or the requested one without it; its ledger has the key's entry; a pool
-- that passes the guard has deployed the amount; and the loan has one successful disbursement at
-- most.
abbrev pub PaidLoan : NewIds → Principal → DisburseInput → Text → Application → Book → Book → Type 0
PaidLoan f p i key a b b' =
    ((a' : Application) × (b'.application ≡ some a')
      × (a'.status ≡ Status.disbursed)
      × (a'.disbursed_amount ≡ some (amount_of a))
      × (a'.disbursed_at ≡ some f.now))
    × (count_success a.id b'.disbursements ≤ 1)
    × PaidEntry i p.tenant key (amount_of a) b.capital.1 b'.capital.1
    × ((q : CapitalAllocation) × (b'.capital.0 ≡ some q)
        × Deployed (amount_of a) b.pools b.other_allocations q)

-- A disbursement that answers success for a loan without allocated capital finds the application
-- ready, passes the risk gate, and has been answered under the key before and changes nothing, or
-- it pays the loan out: the application is disbursed with its amount, the ledger has the key's
-- entry, which was there or is new and debits and credits the amount, and the first pool in order,
-- having passed the guard on its limits, has deployed the amount.
pub disbursed_money :
    (column : ℕ → ℕ) (fails : Bool) (f : NewIds) (p : Principal) (i : DisburseInput) (key : Text)
    (b : Book) {b' : Book} {id : Text}
    → b.capital.0 ≡ none
    → disburse_transaction column fails f p i key b ≡ ok (b', some (id, DisbursementStatus.success))
    → (a : Application) × (b.application ≡ some a)
      × (is_ready a.status ≡ true)
      × (enforce_risk_gate Status.disbursed b.risk ≡ ok tt)
      × (Replayed key b b' id ⊎ PaidLoan f p i key a b b')
disbursed_money column fails f p i key b {b'} {id} bare e =
    let (a, found, ready, gate, _, how) = disburse_transaction-Paid column fails f p i key b e in
    (a, found, ready, gate, by_how a how)
  where
    by_how :
        (a : Application)
        → Replayed key b b' id
          ⊎ Paid column fails f p i key a b (b', (id, DisbursementStatus.success))
        → Replayed key b b' id ⊎ PaidLoan f p i key a b b'
    by_how a (inl r) = inl r
    by_how a (inr s) =
        let o = pay_out-PaidOut column f p i key a s.row s.before s.paid in
        let start : s.before.capital.0 ≡ none = ap (λ (x : Capital). x.0) s.same_capital ∙ bare in
        let deploys : deploy_to_loan column (f.allocation_id, f.capital_entry_id)
              (deploy_request f p a s.row) b.pools b.other_allocations (none, o.posted.0)
            ≡ ok o.deployed =
          let x = s.same_pools in let y = s.same_allocations in let z = o.capital_deployed in cc in
        let (is_deployed, held) =
          deploy_to_loan-Deployed column (f.allocation_id, f.capital_entry_id)
            (deploy_request f p a s.row) b.pools b.other_allocations o.posted.0 deploys in
        let posts : post_entry column f.entry_id (disbursement_entry f p i a key) b.capital.1
            ≡ ok o.posted =
          let x = s.same_capital in let z = o.entry_posted in cc in
        let (x, found, origin) =
          post_entry-PaidEntry column f p i key a b.capital.1 {r = o.posted} posts in
        let ledger = ap (λ (x : Capital). x.1) o.capital_of in
        let kept =
          find_entry-deploy_to_loan column (f.allocation_id, f.capital_entry_id)
            (deploy_request f p a s.row) b.pools b.other_allocations o.posted.0 p.tenant key {x = x}
            deploys found in
        inr (
          (
            disbursed_application f a,
            o.application_of,
            unfold disbursed_application in refl,
            unfold disbursed_application in refl,
            unfold disbursed_application in refl,
          ),
          o.one_success,
          (x, ap (λ (g : Ledger). find_entry p.tenant key g.entries) ledger ∙ kept, origin),
          (
            o.deployed.1,
            ap (λ (x : Capital). x.0) o.capital_of ∙ held,
            unfold deploy_request in is_deployed,
          ),
        )
