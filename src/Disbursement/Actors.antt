-- ===== src/Disbursement/Actors.antt =====
-- Who can disburse a loan and reverse a disbursement: the guard on the role, the role matrix, the
-- ledger's rights and the treasury's entries taken together.
use mathlib.Core.Path.{subst}
use loanapp.Ledger.Outcome.{post_entry-guards}
use loanapp.Ledger.Accounts.{ensure_default_accounts, capital_pool_available, capital_pool_deployed}
use loanapp.Disbursement.Money.{pay_out-PaidOut}
use loanapp.Disbursement.Stages.{disburse_transaction-Paid, Paid, Replayed}
use loanapp.Disbursement.Transaction.{deploy_request, disburse_transaction, is_ready}
use loanapp.Treasury.Allocations.{
  debit_credit, capital_entry, Capital, CapitalAllocation, CapitalRequest,
}
use loanapp.Loan.Status.{Status, status_index, status_eq}
use loanapp.Loan.Roles.{system, super_admin, assert_transition, Role}
use loanapp.Disbursement.Records.{
  update_by_id, is_success, find_by_id, Disbursement, DisbursementStatus, Application,
  DisburseInput, Book, Principal, NewIds,
}
use loanapp.Ledger.Entries.{post_entry, Ledger, adjustment, role_can_post}
use loanapp.Disbursement.Requests.{reversal_entry, assert_ops, reverse_row, reverse_disbursement}
use loanapp.Treasury.Pools.{resolve_funding_pool, Pool, deploy_to_loan}
use loanapp.Common.{
  [], some_same, refl, Bool-cases, ◌∷◌, text_eq_iff, text_eq, guard_ok, not_success, sym, guard,
  ok_injective, disbursement_not_found, err, Result, Option, ◌∙◌, ap, codes, inr, inl, ◌++◌,
  >>=-eq-ok, arith, ◌⊎◌, true, none, ◌≡◌, List, some, Text, Bool, ℕ, ok,
}

-- The two rights that a disbursement with a deployment needs.
both_rights :
    (role : Role) (from : Status)
    → is_ready from ≡ true
    → role_can_post (some role) adjustment ≡ true
    → assert_transition role from Status.disbursed ≡ ok tt
    → role ≡ super_admin
unfolding role_can_post assert_transition status_eq status_index
both_rights role from r h e = ground arith

deploy_rights :
    (column : ℕ → ℕ) (fresh : Text × Text) (r : CapitalRequest) (pools : List Pool)
    (rest : List CapitalAllocation) (g : Ledger) {c : Capital × CapitalAllocation}
    → deploy_to_loan column fresh r pools rest (none, g) ≡ ok c
    → role_can_post r.actor_role adjustment ≡ true
unfolding deploy_to_loan
deploy_rights column fresh r pools rest g e =
    let (pool, _, e1) = >>=-eq-ok (resolve_funding_pool r.amount pools rest) _ e in
    let (posted, ep, _) =
      >>=-eq-ok
        (post_entry column fresh.1
          (capital_entry adjustment (codes "capital:deploy:")
            (codes "Capital deployed from pool " ++ pool.id)
            (debit_credit capital_pool_deployed capital_pool_available r.amount) r)
          (record g { accounts = ensure_default_accounts r.tenant g.accounts }))
        _ e1 in
    unfold capital_entry in (post_entry-guards column fresh.1 _ _ {r = posted} ep).2

-- A loan without allocated capital is paid out by SUPER_ADMIN alone, though the endpoint, the
-- role matrix and the ledger's disbursement entries are open to OPS: for OPS the ledger refuses
-- the treasury's entry, and for SYSTEM the role matrix the transition.
pub disburse_roles :
    (column : ℕ → ℕ) (fails : Bool) (f : NewIds) (p : Principal) (i : DisburseInput) (key : Text)
    (b : Book) {b' : Book} {id : Text}
    → b.capital.0 ≡ none
    → disburse_transaction column fails f p i key b ≡ ok (b', some (id, DisbursementStatus.success))
    → Replayed key b b' id ⊎ (p.role ≡ super_admin)
disburse_roles column fails f p i key b {b'} {id} bare e =
    let (a, _, ready, _, _, how) = disburse_transaction-Paid column fails f p i key b e in
    by_how a ready how
  where
    by_how :
        (a : Application)
        → is_ready a.status ≡ true
        → Replayed key b b' id
          ⊎ Paid column fails f p i key a b (b', (id, DisbursementStatus.success))
        → Replayed key b b' id ⊎ (p.role ≡ super_admin)
    by_how a ready (inl r) = inl r
    by_how a ready (inr s) =
        let o = pay_out-PaidOut column f p i key a s.row s.before s.paid in
        let start : s.before.capital.0 ≡ none = ap (λ (x : Capital). x.0) s.same_capital ∙ bare in
        let deploys : deploy_to_loan column (f.allocation_id, f.capital_entry_id)
              (deploy_request f p a s.row) s.before.pools s.before.other_allocations
              (none, o.posted.0)
            ≡ ok o.deployed =
          let z = o.capital_deployed in cc in
        let rights =
          deploy_rights column (f.allocation_id, f.capital_entry_id) (deploy_request f p a s.row)
            s.before.pools s.before.other_allocations o.posted.0 deploys in
        inr (both_rights p.role a.status ready (unfold deploy_request in rights) o.allowed)

-- The row that is updated is found under its identifier.
find-update_by_id :
    (id : Text) (f : Disbursement → Disbursement)
    → ((x : Disbursement) → (f x).id ≡ x.id)
    → (ds : List Disbursement) {d : Disbursement} → find_by_id id ds ≡ some d
    → (find_by_id id (update_by_id id f ds) ≡ some (f d)) × (text_eq d.id id ≡ true)
unfolding find_by_id update_by_id
find-update_by_id id f keeps [] h = cc
find-update_by_id id f keeps (x ∷ ds) {d} h = elim (Bool-cases (text_eq x.id id)) [
  | inl p ↦
      let s : some x ≡ some d = ground arith in
      let same : x ≡ d = some_same s in
      let kept : text_eq (f x).id id ≡ true = ap (λ y. text_eq y id) (keeps x) ∙ p in
      (
        rw (p, kept) (ap (λ y. some (f y)) same),
        ap (λ (y : Disbursement). text_eq y.id id) (sym same) ∙ p,
      )
  | inr p ↦
      let s : find_by_id id ds ≡ some d = ground arith in
      let below = find-update_by_id id f keeps ds s in (rw (p, p) below.0, below.1)
]

reversal_rights :
    (role : Role)
    → role_can_post (some role) adjustment ≡ true
    → (role ≡ super_admin) ⊎ (role ≡ system)
unfolding role_can_post
reversal_rights role h = ground arith

-- A reversal is by SUPER_ADMIN or SYSTEM, though the endpoint is open to OPS, of a disbursement
-- that had succeeded. The disbursement is then REVERSED, for the reason given, with its loan, key
-- and amount, and the application, whatever its status, and the capital allocated to the loan are
-- left as they were.
pub reverse_disbursement_ok :
    (column : ℕ → ℕ) (f : NewIds) (p : Principal) (id reason : Text) (b : Book) {b' : Book}
    → reverse_disbursement column f p id reason b ≡ ok b'
    → ((p.role ≡ super_admin) ⊎ (p.role ≡ system))
      × ((d : Disbursement) × (find_by_id id b.disbursements ≡ some d)
          × (is_success d.status ≡ true)
          × (b'.disbursements ≡ update_by_id d.id (reverse_row f reason) b.disbursements)
          × ((d' : Disbursement) × (find_by_id id b'.disbursements ≡ some d')
              × (d'.status ≡ DisbursementStatus.reversed)
              × (d'.failure_reason ≡ some reason)
              × (d'.loan_id ≡ d.loan_id)
              × (d'.key ≡ d.key)
              × (d'.amount ≡ d.amount)))
      × (b'.application ≡ b.application)
      × (b'.capital.0 ≡ b.capital.0)
unfolding reverse_disbursement
reverse_disbursement_ok column f p id reason b {b'} e =
    let (_, g1, e1) = >>=-eq-ok (assert_ops p) _ e in
    let (d, ed, e2) =
      >>=-eq-ok
        (elim (find_by_id id b.disbursements) as (λ _. Result Disbursement) [
          | none ↦ err disbursement_not_found
          | some d ↦ ok d
        ])
        _ e1 in
    let (_, g2, e3) = >>=-eq-ok (guard (is_success d.status) not_success) _ e2 in
    let (posted, ep, e4) =
      >>=-eq-ok (post_entry column f.entry_id (reversal_entry f p d) b.capital.1) _ e3 in
    let rights = (post_entry-guards column f.entry_id _ b.capital.1 {r = posted} ep).2 in
    let same = sym (ok_injective e4) in
    (
      reversal_rights p.role (unfold reversal_entry in rights),
      (
        d,
        by_found (find_by_id id b.disbursements) ed,
        guard_ok _ _ g2,
        ap (λ (x : Book). x.disbursements) same,
        (
          reverse_row f reason d,
          ap (λ (x : Book). find_by_id id x.disbursements) same
              ∙ reversed_found (by_found (find_by_id id b.disbursements) ed),
          unfold reverse_row in refl,
          unfold reverse_row in refl,
          unfold reverse_row in refl,
          unfold reverse_row in refl,
          unfold reverse_row in refl,
        ),
      ),
      ap (λ (x : Book). x.application) same,
      ap (λ (x : Book). x.capital.0) same,
    )
  where
    reversed_found :
        {d : Disbursement}
        → find_by_id id b.disbursements ≡ some d
        → find_by_id id (update_by_id d.id (reverse_row f reason) b.disbursements)
          ≡ some (reverse_row f reason d)
    reversed_found {d} found =
        let (updated, mine) =
          find-update_by_id id (reverse_row f reason) (λ x. unfold reverse_row in refl)
            b.disbursements found in
        subst
          (λ x.
            find_by_id id (update_by_id x (reverse_row f reason) b.disbursements)
            ≡ some (reverse_row f reason d))
          (sym ((text_eq_iff d.id id).0 mine)) updated

    by_found :
        (o : Option Disbursement) {d : Disbursement}
        → elim o as (λ _. Result Disbursement) [ none ↦ err disbursement_not_found | some d ↦ ok d ]
          ≡ ok d
        → o ≡ some d
    by_found none h = cc
    by_found (some x) h = ap some (ok_injective h)
