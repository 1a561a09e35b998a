-- ===== src/Accrual/Repeats.antt =====
-- Who accrues interest, and what accruing it again does.
use loanapp.Ledger.Outcome.{post_entry-guards}
use loanapp.Accrual.Balances.{get_balances}
use mathlib.Core.Bool.{false}
use loanapp.Delinquency.Engine.{ms_per_day}
use loanapp.Loan.Status.{disbursed, status_eq}
use loanapp.Disbursement.Records.{Principal}
use loanapp.Loan.Roles.{super_admin, ops, Role}
use loanapp.Ledger.Entries.{post_entry, Posted, accrual, Ledger, role_can_post}
use loanapp.Accrual.Interest.{
  accrue_interest, effective_rate, days_to, has_rate, accrual_entry, day_of, AccrualBook,
  AccrualLoan, may_accrue, AccrualInput, accrue_loan, amount_to_accrue,
}
use loanapp.Common.{
  some_same, ==_iff, role_cannot_accrue, ap, loan_not_found, err, none, Option, refl, ◌∙◌, ◌>>◌,
  guard_ok, rate_not_set, not_disbursed, guard, >>=-eq-ok, inr, Bool-cases, ok_injective, sym, ◌||◌,
  inl, Result, arith, ◌>>=◌, ◌==◌, if◌then◌else◌, Bool, ◌/◌, ◌-◌, ◌⊎◌, some, true, ◌≡◌, Text, ℕ, ok,
}

accrual_rights :
    (role : Role)
    → may_accrue role ≡ true
    → role_can_post (some role) accrual ≡ true
    → (role ≡ ops) ⊎ (role ≡ super_admin)
unfolding role_can_post
accrual_rights role m h = ground arith

-- What an accrual that succeeds has done with a loan: nothing, or it posted and moved the date.
abbrev Accrued :
    (ℕ → ℕ)
    → (ℕ → ℕ → ℕ → ℕ)
    → Text
    → Principal
    → AccrualInput
    → AccrualLoan
    → AccrualBook
    → AccrualBook
    → Type 0
Accrued column interest fresh p i l b b' =
    ((amount_to_accrue interest p i l b.ledger ≡ ok 0) × (b' ≡ b))
    ⊎ ((n : ℕ) × (g : Ledger × Posted) × (amount_to_accrue interest p i l b.ledger ≡ ok n)
        × (post_entry column fresh (accrual_entry p i l n) b.ledger ≡ ok g)
        × (b'
            ≡ record { loan = some (record l { last_accrued_at = some i.through }); ledger = g.0 }))

accrue_loan-Accrued :
    (column : ℕ → ℕ) (interest : ℕ → ℕ → ℕ → ℕ) (fresh : Text) (p : Principal) (i : AccrualInput)
    (l : AccrualLoan) (b : AccrualBook) {b' : AccrualBook}
    → accrue_loan column interest fresh p i l b ≡ ok b'
    → (status_eq l.status disbursed ≡ true) × Accrued column interest fresh p i l b b'
unfolding accrue_loan
accrue_loan-Accrued column interest fresh p i l b {b'} e =
    let (_, g, e1) = >>=-eq-ok (guard (status_eq l.status disbursed) not_disbursed) _ e in
    let (n, en, e2) = >>=-eq-ok (amount_to_accrue interest p i l b.ledger) _ e1 in
    (guard_ok _ _ g, by_amount n (n == 0) refl en e2)
  where
    by_amount :
        (n : ℕ) (none_due : Bool)
        → (n == 0) ≡ none_due
        → amount_to_accrue interest p i l b.ledger ≡ ok n
        → (if none_due
            then ok b
            else (post_entry column fresh (accrual_entry p i l n) b.ledger >>= λ posted.
                ok (record {
                  loan = some (record l { last_accrued_at = some i.through });
                  ledger = posted.0;
                })))
          ≡ ok b'
        → Accrued column interest fresh p i l b b'
    by_amount n true z en s =
        let none_left : n ≡ 0 = (==_iff n 0).0 z in inl (en ∙ ap ok none_left, sym (ok_injective s))
    by_amount n false z en s =
        let (posted, ep, t) =
          >>=-eq-ok (post_entry column fresh (accrual_entry p i l n) b.ledger) _ s in
        inr (n, posted, en, ep, sym (ok_injective t))

-- On the day that it has accrued through, a loan has no more to accrue.
nothing_more :
    (interest : ℕ → ℕ → ℕ → ℕ) (p : Principal) (i : AccrualInput) (l : AccrualLoan) (g g' : Ledger)
    {n : ℕ}
    → day_of i.through ≡ i.through
    → amount_to_accrue interest p i l g ≡ ok n
    → amount_to_accrue interest p i (record l { last_accrued_at = some i.through }) g' ≡ ok 0
unfolding amount_to_accrue
nothing_more interest p i l g g' {n} midnight e = elim (Bool-cases l.accrual_paused) [
  | inl h ↦ rw (h) refl
  | inr h ↦
      let s : (guard (has_rate l) rate_not_set
            >> ok (
                if (get_balances p.tenant l.id g).principal_outstanding == 0
                  || days_to l i.through == 0
                then 0
                else interest (get_balances p.tenant l.id g).principal_outstanding
                    (effective_rate l) (days_to l i.through)))
          ≡ ok n =
        sym (rw (h, amount_to_accrue) refl) ∙ e in
      let (_, r, _) = >>=-eq-ok (guard (has_rate l) rate_not_set) _ s in
      let no_days : ((i.through - day_of i.through) / ms_per_day == 0) ≡ true =
        rw (midnight) (same_day i.through) in
      rw (h, guard_ok _ _ r, no_days) (either_way _ _)
]
  where
    same_day : (t : ℕ) → ((t - t) / ms_per_day == 0) ≡ true
    same_day t = ground arith

    either_way : (c : Bool) (m : ℕ) → ◌≡◌ {A = Result ℕ} (ok (if c || true then 0 else m)) (ok 0)
    either_way true m = refl
    either_way false m = refl

accrue_loan-nothing :
    (column : ℕ → ℕ) (interest : ℕ → ℕ → ℕ → ℕ) (fresh : Text) (p : Principal) (i : AccrualInput)
    (l : AccrualLoan) (b : AccrualBook)
    → status_eq l.status disbursed ≡ true
    → amount_to_accrue interest p i l b.ledger ≡ ok 0
    → accrue_loan column interest fresh p i l b ≡ ok b
unfolding accrue_loan
accrue_loan-nothing column interest fresh p i l b h n = rw (h, n, accrue_loan) refl

accrue_interest-accrue_loan :
    (column : ℕ → ℕ) (interest : ℕ → ℕ → ℕ → ℕ) (fresh : Text) (p : Principal) (i : AccrualInput)
    (b : AccrualBook) {l : AccrualLoan}
    → may_accrue p.role ≡ true
    → b.loan ≡ some l
    → accrue_interest column interest true fresh p i b ≡ accrue_loan column interest fresh p i l b
unfolding accrue_interest
accrue_interest-accrue_loan column interest fresh p i b {l} may held =
    rw (may, accrue_interest) (by_loan b.loan held)
  where
    by_loan :
        (o : Option AccrualLoan)
        → o ≡ some l
        → elim o as (λ _. Result AccrualBook) [
          | none ↦ err loan_not_found
          | some x ↦ accrue_loan column interest fresh p i x b
        ]
          ≡ accrue_loan column interest fresh p i l b
    by_loan none h = cc
    by_loan (some x) h = ap (λ y. accrue_loan column interest fresh p i y b) (some_same h)

-- An accrual that succeeds leaves everything as it is, or it is by OPS or SUPER_ADMIN: the handler
-- lets RISK_MANAGER in, and the ledger refuses it the entry. Through a midnight the interest
-- accrues once: another accrual through it by the same actor succeeds and changes nothing.
pub accrue_interest_once :
    (column : ℕ → ℕ) (interest : ℕ → ℕ → ℕ → ℕ) (fresh other : Text) (p : Principal)
    (i : AccrualInput) (b : AccrualBook) {b' : AccrualBook}
    → day_of i.through ≡ i.through
    → accrue_interest column interest true fresh p i b ≡ ok b'
    → ((b' ≡ b) ⊎ ((p.role ≡ ops) ⊎ (p.role ≡ super_admin)))
      × (accrue_interest column interest true other p i b' ≡ ok b')
unfolding accrue_interest
accrue_interest_once column interest fresh other p i b {b'} midnight e =
    let (_, g, e1) = >>=-eq-ok (guard (may_accrue p.role) role_cannot_accrue) _ e in
    by_loan b.loan refl (guard_ok _ _ g) e1
  where
    again :
        (l' : AccrualLoan)
        → may_accrue p.role ≡ true
        → b'.loan ≡ some l'
        → accrue_loan column interest other p i l' b' ≡ ok b'
        → accrue_interest column interest true other p i b' ≡ ok b'
    again l' may held h = accrue_interest-accrue_loan column interest other p i b' may held ∙ h

    by_loan :
        (o : Option AccrualLoan)
        → b.loan ≡ o
        → may_accrue p.role ≡ true
        → elim o as (λ _. Result AccrualBook) [
          | none ↦ err loan_not_found
          | some l ↦ accrue_loan column interest fresh p i l b
        ]
          ≡ ok b'
        → ((b' ≡ b) ⊎ ((p.role ≡ ops) ⊎ (p.role ≡ super_admin)))
          × (accrue_interest column interest true other p i b' ≡ ok b')
    by_loan none f may s = cc
    by_loan (some l) f may s =
        let (live, how) = accrue_loan-Accrued column interest fresh p i l b s in
        elim how [
          | inl (nothing, same) ↦ (
            inl same,
            again l may (ap (λ (x : AccrualBook). x.loan) same ∙ f) (
                accrue_loan-nothing column interest other p i l b' live (
                  ap (λ (x : AccrualBook). amount_to_accrue interest p i l x.ledger) same
                  ∙ nothing)),
          )
          | inr (n, posted, en, ep, same) ↦
              let rights = (post_entry-guards column fresh _ b.ledger {r = posted} ep).2 in
              let l' : AccrualLoan = record l { last_accrued_at = some i.through } in
              (
                inr (accrual_rights p.role may (unfold accrual_entry in rights)),
                again l' may (ap (λ (x : AccrualBook). x.loan) same) (
                    accrue_loan-nothing column interest other p i l' b' live
                      (nothing_more interest p i l b.ledger b'.ledger midnight en)),
              )
        ]
