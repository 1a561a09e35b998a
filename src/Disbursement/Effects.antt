-- ===== src/Disbursement/Effects.antt =====
-- What a disbursement that succeeds tells the other services.
use loanapp.Treasury.Allocations.{Capital, CapitalAllocation}
use loanapp.Treasury.Deployments.{deploy_to_loan-held}
use mathlib.Core.Path.{subst}
use loanapp.Disbursement.Money.{pay_out-PaidOut}
use loanapp.Disbursement.Stages.{disburse_transaction-Paid, Replayed, Paid}
use loanapp.Loan.Status.{Status}
use loanapp.Disbursement.Records.{
  treasury_move_audited, amount_of, is_success, behavior_incremented, find_by_key,
  disbursed_notified, failed_audited, Book, transition_audited, complete_audited, find_by_loan,
  DisbursementStatus, DisburseInput, Notice, Principal, NewIds, Disbursement, Application,
}
use loanapp.Disbursement.Transaction.{
  deploy_request, deploy_effects, disburse_transaction, final_effects, upsert_disbursement,
}
use loanapp.Common.{
  Option, true, false≢true, ◌⊎◌, some_same, inr, inl, sym, ap, ◌∙◌, arith, [], false, ◌++◌, refl,
  ◌∷◌, some, none, List, ◌≡◌, Bool, Text, ℕ, ok,
}

-- The notices but for the event: `audit` is the disbursement's.
abbrev pub told : Application → Text → Notice → List Notice
told a id audit =
    transition_audited a.id a.status Status.disbursed
    ∷ audit
    ∷ disbursed_notified id
    ∷ behavior_incremented a.phone (amount_of a)
    ∷ []

-- The notices with the one of the deployment first, where the loan had no capital.
abbrev pub with_deployment : Option CapitalAllocation → Notice → List Notice → List Notice
with_deployment none moved rest = moved ∷ rest
with_deployment (some x) moved rest = rest

-- The loan has its capital, and the effects of the call are the audit of its deployment, if it had
-- none, and then the notices.
abbrev pub Told : NewIds → Application → Book → Book → List Notice → Type 0
Told f a b b' rest =
    (q : CapitalAllocation) × (b'.capital.0 ≡ some q)
    × (b'.effects
        ≡ b.effects
          ++ with_deployment b.capital.0
              (treasury_move_audited f.allocation_id q.pool_id a.id (amount_of a)) rest)

deploy_effects_first :
    (a : Application) (o : Option CapitalAllocation) (q : CapitalAllocation) (id : Text)
    (rest : List Notice)
    → (o ≡ none → q.id ≡ id)
    → deploy_effects a o q ++ rest
      ≡ with_deployment o (treasury_move_audited id q.pool_id a.id (amount_of a)) rest
unfolding deploy_effects
deploy_effects_first a none q id rest h =
    ap (λ x. treasury_move_audited x q.pool_id a.id (amount_of a) ∷ rest) (h refl)
deploy_effects_first a (some x) q id rest h = refl

new_row_effects :
    (f : NewIds) (p : Principal) (i : DisburseInput) (key : Text) (a : Application)
    (ds : List Disbursement)
    → find_by_loan a.id ds ≡ none
    → (upsert_disbursement f p i key a ds).0.status ≡ DisbursementStatus.pending
unfolding upsert_disbursement
new_row_effects f p i key a ds h = rw (h, upsert_disbursement) refl

stale_effects :
    (a : Application) (d : Disbursement)
    → (d.status ≡ DisbursementStatus.pending
        → final_effects a d ≡ told a d.id (complete_audited d.id))
      × (d.status ≡ DisbursementStatus.failed
          → final_effects a d ≡ told a d.id (failed_audited d.id))
unfolding final_effects
stale_effects a d = (λ h. rw (h) refl, λ h. rw (h) refl)

-- A disbursement that answers success, where the loan had no row or the key's row was PENDING, tells
-- everything but its `disbursement.completed` event: the treasury's move first, if the loan had no
-- capital, then the transition, the audit, the notification and the borrower's behaviour. Where the
-- key's row had FAILED, it tells the same but is audited as failed.
pub disbursed_effects :
    (column : ℕ → ℕ) (fails : Bool) (f : NewIds) (p : Principal) (i : DisburseInput) (key : Text)
    (b : Book) {b' : Book} {id : Text} {a : Application}
    → b.application ≡ some a
    → disburse_transaction column fails f p i key b ≡ ok (b', some (id, DisbursementStatus.success))
    → (find_by_key key b.disbursements ≡ none
        → find_by_loan a.id b.disbursements ≡ none
        → Told f a b b' (told a id (complete_audited id)))
      × ((d : Disbursement)
          → find_by_key key b.disbursements ≡ some d
          → d.status ≡ DisbursementStatus.pending
          → Told f a b b' (told a id (complete_audited id)))
      × ((d : Disbursement)
          → find_by_key key b.disbursements ≡ some d
          → d.status ≡ DisbursementStatus.failed
          → Told f a b b' (told a id (failed_audited id)))
disbursed_effects column fails f p i key b {b'} {id} {a} found e =
    let (x, found', _, _, _, how) = disburse_transaction-Paid column fails f p i key b e in
    let same : x ≡ a = some_same (sym found' ∙ found) in
    by_how (
      subst
        (λ y.
          Replayed key b b' id
          ⊎ Paid column fails f p i key y b (b', (id, DisbursementStatus.success)))
        same how)
  where
    not_success_of_failed :
        (s : DisbursementStatus) → s ≡ DisbursementStatus.failed → is_success s ≡ false
    not_success_of_failed s h = ground arith

    not_success_of_pending :
        (s : DisbursementStatus) → s ≡ DisbursementStatus.pending → is_success s ≡ false
    not_success_of_pending s h = ground arith

    other_row :
        (d : Disbursement)
        → find_by_key key b.disbursements ≡ some d
        → is_success d.status ≡ true
        → (x : Disbursement) → find_by_key key b.disbursements ≡ some x
        → is_success x.status ≡ false
        → ⊥
    other_row d k done x k' undone =
        let same : x ≡ d = some_same (sym k' ∙ k) in
        false≢true (sym undone ∙ ap (λ (y : Disbursement). is_success y.status) same ∙ done)

    written :
        (s : Paid column fails f p i key a b (b', (id, DisbursementStatus.success)))
        (audit : Text → Notice)
        → final_effects a s.row ≡ told a s.row.id (audit s.row.id)
        → Told f a b b' (told a id (audit id))
    written s audit final =
        let o = pay_out-PaidOut column f p i key a s.row s.before s.paid in
        let same : id ≡ s.row.id = o.id_of in
        let (held, fresh_id) =
          deploy_to_loan-held column (f.allocation_id, f.capital_entry_id)
            (deploy_request f p a s.row) s.before.pools s.before.other_allocations
            s.before.capital.0 o.posted.0 o.capital_deployed in
        let capital = ap (λ (x : Capital). x.0) s.same_capital in
        let move = treasury_move_audited f.allocation_id o.deployed.1.pool_id a.id (amount_of a) in
        (
          o.deployed.1,
          ap (λ (x : Capital). x.0) o.capital_of ∙ held,
          o.effects_of
              ∙ ap
                  (λ x.
                    x
                    ++ (deploy_effects a s.before.capital.0 o.deployed.1 ++ final_effects a s.row))
                  s.same_effects
              ∙ ap (λ x. b.effects ++ x)
                  (deploy_effects_first a s.before.capital.0 o.deployed.1 f.allocation_id
                    (final_effects a s.row) fresh_id)
              ∙ ap (λ x. b.effects ++ with_deployment x move (final_effects a s.row)) capital
              ∙ ap (λ x. b.effects ++ with_deployment b.capital.0 move x) final
              ∙ ap (λ x. b.effects ++ with_deployment b.capital.0 move (told a x (audit x)))
                  (sym same),
        )

    row_pending :
        (s : Paid column fails f p i key a b (b', (id, DisbursementStatus.success)))
        → find_by_key key b.disbursements ≡ none
        → find_by_loan a.id b.disbursements ≡ none
        → s.row.status ≡ DisbursementStatus.pending
    row_pending s n m = elim s.processed [
      | inl k ↦ let clash : none ≡ some s.row = sym n ∙ k in cc
      | inr (_, r) ↦
          ap (λ (x : Disbursement). x.status) r ∙ new_row_effects f p i key a b.disbursements m
    ]

    row_of_key :
        (s : Paid column fails f p i key a b (b', (id, DisbursementStatus.success)))
        (d : Disbursement)
        → find_by_key key b.disbursements ≡ some d
        → s.row ≡ d
    row_of_key s d k = elim s.processed [
      | inl k' ↦ some_same (sym k' ∙ k)
      | inr (n, _) ↦ let clash : none ≡ some d = sym n ∙ k in cc
    ]

    by_how :
        Replayed key b b' id
          ⊎ Paid column fails f p i key a b (b', (id, DisbursementStatus.success))
        → (find_by_key key b.disbursements ≡ none
            → find_by_loan a.id b.disbursements ≡ none
            → Told f a b b' (told a id (complete_audited id)))
          × ((d : Disbursement)
              → find_by_key key b.disbursements ≡ some d
              → d.status ≡ DisbursementStatus.pending
              → Told f a b b' (told a id (complete_audited id)))
          × ((d : Disbursement)
              → find_by_key key b.disbursements ≡ some d
              → d.status ≡ DisbursementStatus.failed
              → Told f a b b' (told a id (failed_audited id)))
    by_how (inl (d, k, done, _, _)) = (
      λ n m. let clash : none ≡ some d = sym n ∙ k in cc,
      λ x k' open_row. absurd (other_row d k done x k' (not_success_of_pending x.status open_row)),
      λ x k' failed. absurd (other_row d k done x k' (not_success_of_failed x.status failed)),
    )
    by_how (inr s) = (
      λ n m. written s complete_audited ((stale_effects a s.row).0 (row_pending s n m)),
      λ d k open_row. written s complete_audited (
          (stale_effects a s.row).0
            (ap (λ (y : Disbursement). y.status) (row_of_key s d k) ∙ open_row)),
      λ d k failed. written s failed_audited (
          (stale_effects a s.row).1
            (ap (λ (y : Disbursement). y.status) (row_of_key s d k) ∙ failed)),
    )
