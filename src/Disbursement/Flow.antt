-- ===== src/Disbursement/Flow.antt =====
-- A loan that is marked ready and then disbursed under the key of the row that the marking left.
use loanapp.Disbursement.Actors.{disburse_roles}
use loanapp.Treasury.Allocations.{CapitalAllocation, Capital}
use loanapp.Disbursement.Stages.{Replayed}
use mathlib.Core.Path.{subst}
use loanapp.Disbursement.Effects.{with_deployment, disbursed_effects, told}
use loanapp.Disbursement.Transaction.{disburse_transaction}
use loanapp.Risk.Gate.{enforce_risk_gate}
use loanapp.Loan.Status.{ready_for_disbursement, approved, status_eq}
use loanapp.Ledger.Entries.{assert_tenant_match}
use loanapp.Disbursement.Requests.{default_key}
use loanapp.Disbursement.Records.{
  amount_of, treasury_move_audited, is_success, complete_audited, DisburseInput, DisbursementStatus,
  Disbursement, find_by_loan, Principal, Application, find_by_key, NewIds, Book,
}
use loanapp.Loan.Roles.{assert_transition, super_admin, credit_officer, Role}
use loanapp.Disbursement.Readiness.{
  ready_application, pending_disbursement, may_mark_ready, mark_ready, with_disbursement,
}
use loanapp.Common.{
  ◌∷◌, false≢true, inl, inr, false, ◌∙◌, ◌++◌, sym, some_same, Text, ok_injective, ap, ℕ, Option,
  guard_ok, not_approved, loan_not_found, err, Result, not_credit_officer, guard, refl, >>=-eq-ok,
  arith, text_eq_refl, ◌⊎◌, none, true, some, ◌≡◌, Bool, ok,
}

marking_roles :
    (role : Role) → may_mark_ready role ≡ true → (role ≡ credit_officer) ⊎ (role ≡ super_admin)
marking_roles role h = ground arith

-- What the marking leaves of a loan without a row.
abbrev pub Marked : Book → Application → Book → Type 0
Marked b a b' =
    (b'.application ≡ some (ready_application a))
    × (b'.capital ≡ b.capital)
    × ((d : Disbursement) × (find_by_key (default_key a.id) b'.disbursements ≡ some d)
        × (d.status ≡ DisbursementStatus.pending))

with_disbursement-Marked :
    (f : NewIds) (p : Principal) (a : Application) (b : Book)
    → b.application ≡ some (ready_application a)
    → find_by_loan a.id b.disbursements ≡ none
    → Marked b a (with_disbursement f p a b)
unfolding with_disbursement find_by_key pending_disbursement
with_disbursement-Marked f p a b ready none_yet =
    rw (none_yet, with_disbursement)
      (
        ready,
        refl,
        (
          pending_disbursement f p a,
          unfold pending_disbursement in rw (text_eq_refl (default_key a.id)) refl,
          unfold pending_disbursement in refl,
        ),
      )

mark_ready-Marked :
    (f : NewIds) (p : Principal) (b : Book) {a : Application} {b' : Book}
    → b.application ≡ some a
    → find_by_loan a.id b.disbursements ≡ none
    → mark_ready f p b ≡ ok b'
    → ((p.role ≡ credit_officer) ⊎ (p.role ≡ super_admin)) × Marked b a b'
unfolding mark_ready
mark_ready-Marked f p b {a} {b'} found none_yet e =
    let (_, g1, e1) = >>=-eq-ok (guard (may_mark_ready p.role) not_credit_officer) _ e in
    let (x, ex, e2) =
      >>=-eq-ok
        (elim b.application as (λ _. Result Application) [
          | none ↦ err loan_not_found
          | some a ↦ ok a
        ])
        _ e1 in
    let (_, _, e3) = >>=-eq-ok (assert_tenant_match p.tenant p.tenant) _ e2 in
    let (_, _, e4) = >>=-eq-ok (guard (status_eq x.status approved) not_approved) _ e3 in
    let (_, _, e5) = >>=-eq-ok (assert_transition p.role x.status ready_for_disbursement) _ e4 in
    let (_, _, e6) = >>=-eq-ok (enforce_risk_gate ready_for_disbursement b.risk) _ e5 in
    let same : x ≡ a = some_same (sym (by_found b.application ex) ∙ found) in
    let none_yet' : find_by_loan x.id b.disbursements ≡ none =
      ap (λ (y : Application). find_by_loan y.id b.disbursements) same ∙ none_yet in
    (
      marking_roles p.role (guard_ok _ _ g1),
      subst (λ y. Marked b y b') same
          (subst (λ z. Marked b x z) (ok_injective e6)
            (with_disbursement-Marked f p x _ refl none_yet')),
    )
  where
    by_found :
        (o : Option Application) {x : Application}
        → elim o as (λ _. Result Application) [ none ↦ err loan_not_found | some a ↦ ok a ] ≡ ok x
        → o ≡ some x
    by_found none h = cc
    by_found (some y) h = ap some (ok_injective h)

-- The usual way of a loan: CREDIT_OFFICER or SUPER_ADMIN marks it ready, which makes its row, and it
-- is disbursed under the row's key. If that answers success for a loan without allocated capital,
-- it was by SUPER_ADMIN, and it told of the treasury's move, the transition, the audit, the
-- notification and the borrower's behaviour, in this order, and not of `disbursement.completed`.
pub ready_then_disbursed :
    (column : ℕ → ℕ) (fails : Bool) (f g : NewIds) (p q : Principal) (i : DisburseInput) (b : Book)
    {a : Application} {b1 b' : Book} {id : Text}
    → b.application ≡ some a
    → find_by_loan a.id b.disbursements ≡ none
    → b.capital.0 ≡ none
    → mark_ready f p b ≡ ok b1
    → disburse_transaction column fails g q i (default_key a.id) b1
      ≡ ok (b', some (id, DisbursementStatus.success))
    → ((p.role ≡ credit_officer) ⊎ (p.role ≡ super_admin))
      × (q.role ≡ super_admin)
      × ((c : CapitalAllocation) × (b'.capital.0 ≡ some c)
          × (b'.effects
              ≡ b1.effects
                ++ (treasury_move_audited g.allocation_id c.pool_id a.id (amount_of a)
                    ∷ told (ready_application a) id (complete_audited id))))
ready_then_disbursed column fails f g p q i b {a} {b1} {b'} {id} found none_yet bare marked paid =
    let (who, (ready, same_capital, (d, key, open_row))) =
      mark_ready-Marked f p b {a = a} {b' = b1} found none_yet marked in
    let bare' : b1.capital.0 ≡ none = ap (λ (x : Capital). x.0) same_capital ∙ bare in
    let by =
      disburse_roles column fails g q i (default_key a.id) b1 {b' = b'} {id = id} bare' paid in
    let (_, told_open, _) =
      disbursed_effects column fails g q i (default_key a.id) b1 {b' = b'} {id = id}
        {a = ready_application a} ready paid in
    let (c, held, effects) = told_open d key open_row in
    let move = treasury_move_audited g.allocation_id c.pool_id a.id (amount_of a) in
    let rest = told (ready_application a) id (complete_audited id) in
    (
      who,
      by_replay d key open_row by,
      (c, held, effects ∙ ap (λ o. b1.effects ++ with_deployment o move rest) bare'),
    )
  where
    undone : (s : DisbursementStatus) → s ≡ DisbursementStatus.pending → is_success s ≡ false
    undone s h = ground arith

    by_replay :
        (d : Disbursement)
        → find_by_key (default_key a.id) b1.disbursements ≡ some d
        → d.status ≡ DisbursementStatus.pending
        → Replayed (default_key a.id) b1 b' id ⊎ (q.role ≡ super_admin)
        → q.role ≡ super_admin
    by_replay d key open_row (inr r) = r
    by_replay d key open_row (inl (x, key', done, _, _)) =
        let same : x ≡ d = some_same (sym key' ∙ key) in
        let no_success : is_success x.status ≡ false =
          undone x.status (ap (λ (y : Disbursement). y.status) same ∙ open_row) in
        absurd (false≢true (sym no_success ∙ done))
