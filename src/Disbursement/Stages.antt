-- ===== src/Disbursement/Stages.antt =====
-- What a disbursement that succeeds has gone through.
use mathlib.Core.Path.{subst}
use loanapp.Loan.Status.{Status}
use loanapp.Risk.Gate.{assert_not_restricted, enforce_risk_gate}
use loanapp.Disbursement.Transaction.{
  start_processing, fail_disbursement, upsert_disbursement, is_ready, pay_out, Outcome,
  with_duplicate, process, disburse_transaction, check_application,
}
use loanapp.Disbursement.Records.{
  method_eq, is_success, find_by_key, DisbursementStatus, Disbursement, Application, Book,
  DisburseInput, Principal, NewIds,
}
use loanapp.Common.{
  guard_ok, ◌>>◌, finalized_with_other_method, critical_alert, not, some_same, refl, ◌∙◌, ap,
  not_ready, sym, guard, ok_injective, key_of_other_disbursement, >>=-eq-ok, err, Result, text_eq,
  inl, inr, ◌||◌, none, true, ◌⊎◌, Bool-cases, some, ◌≡◌, Option, Text, Bool, ℕ, ok,
}

-- The row that is processed: the key's, or the one that the upsert leaves.
abbrev pub Processed :
    NewIds → Principal → DisburseInput → Text → Application → Book → Disbursement → Type 0
Processed f p i key a b row =
    (find_by_key key b.disbursements ≡ some row)
    ⊎ ((find_by_key key b.disbursements ≡ none)
        × (row ≡ (upsert_disbursement f p i key a b.disbursements).0))

-- The row was finished under the key before: nothing is done.
abbrev pub Replayed : Text → Book → Book → Text → Type 0
Replayed key b b' id =
    (d : Disbursement) × (find_by_key key b.disbursements ≡ some d)
    × (is_success d.status ≡ true)
    × (b' ≡ b)
    × (id ≡ d.id)

module _ (column : ℕ → ℕ) (fails : Bool) (f : NewIds) (p : Principal) (i : DisburseInput)
    (key : Text) where
  -- The loan was paid out: `row` is the disbursement as it was, and `before` the rows then.
  pub record Paid (a : Application) (b : Book) (r : Book × Outcome) : Type 0 where
    pub row : Disbursement
    pub before : Book
    pub processed : Processed f p i key a b row
    pub same_capital : before.capital ≡ b.capital
    pub same_pools : before.pools ≡ b.pools
    pub same_allocations : before.other_allocations ≡ b.other_allocations
    pub same_effects : before.effects ≡ b.effects
    pub paid : pay_out column f p i key a row before ≡ ok r

  process-Paid :
      (a : Application) (d : Disbursement) (b b0 : Book) {b' : Book} {id : Text}
      → Processed f p i key a b d
      → (b0.capital ≡ b.capital)
        × (b0.pools ≡ b.pools)
        × (b0.other_allocations ≡ b.other_allocations)
        × (b0.effects ≡ b.effects)
      → process column fails f p i key a d b0 ≡ ok (b', (id, DisbursementStatus.success))
      → Paid a b (b', (id, DisbursementStatus.success))
  unfolding process
  process-Paid a d b b0 {b'} {id} chosen (c, ps, o, es) e =
      elim (Bool-cases (i.force_fail || fails)) [
        | inl h ↦
            let s : ◌≡◌ {A = Result (Book × Outcome)}
                (ok (
                  fail_disbursement f p d (start_processing p i d b0),
                  (d.id, DisbursementStatus.failed),
                ))
                (ok (b', (id, DisbursementStatus.success))) =
              sym (rw (h, process) refl) ∙ e in
            let t = ap (λ (x : Book × Outcome). x.1.1) (ok_injective s) in cc
        | inr h ↦
            let s : pay_out column f p i key a d (start_processing p i d b0)
                ≡ ok (b', (id, DisbursementStatus.success)) =
              sym (rw (h, process) refl) ∙ e in
            record {
              row = d;
              before = start_processing p i d b0;
              processed = chosen;
              same_capital = unfold start_processing in c;
              same_pools = unfold start_processing in ps;
              same_allocations = unfold start_processing in o;
              same_effects = unfold start_processing in es;
              paid = s;
            }
      ]

  with_duplicate-Paid :
      (a : Application) (o : Option Disbursement) (b : Book) {b' : Book} {id : Text}
      → find_by_key key b.disbursements ≡ o
      → with_duplicate column fails f p i key a o b ≡ ok (b', (id, DisbursementStatus.success))
      → Replayed key b b' id ⊎ Paid a b (b', (id, DisbursementStatus.success))
  unfolding with_duplicate
  with_duplicate-Paid a none b {b'} {id} h e =
      let u = upsert_disbursement f p i key a b.disbursements in
      inr (
        process-Paid a u.0 b (record b { disbursements = u.1 }) (inr (h, refl))
          (refl, refl, refl, refl) e)
  with_duplicate-Paid a (some d) b {b'} {id} h e = elim (Bool-cases (text_eq d.loan_id a.id)) [
    | inr w ↦
        let s : ◌≡◌ {A = Result (Book × Outcome)} (err key_of_other_disbursement)
            (ok (b', (id, DisbursementStatus.success))) =
          sym (rw (w, with_duplicate) refl) ∙ e in
        cc
    | inl w ↦ elim (Bool-cases (is_success d.status)) [
      | inl done ↦
          let s : (guard
                  (elim i.method as (λ _. Bool) [ none ↦ true | some m ↦ method_eq d.method m ])
                  finalized_with_other_method
                >> ok (b, (d.id, DisbursementStatus.success)))
              ≡ ok (b', (id, DisbursementStatus.success)) =
            sym (rw (w, done, with_duplicate) refl) ∙ e in
          let (_, _, t) =
            >>=-eq-ok
              (guard (elim i.method as (λ _. Bool) [ none ↦ true | some m ↦ method_eq d.method m ])
                finalized_with_other_method)
              _ s in
          let same = ok_injective t in
          inl (
            d,
            h,
            done,
            ap (λ (x : Book × Outcome). x.0) (sym same),
            ap (λ (x : Book × Outcome). x.1.0) (sym same),
          )
      | inr unfinished ↦
          let s : process column fails f p i key a d b ≡ ok (b', (id, DisbursementStatus.success)) =
            sym (rw (w, unfinished, with_duplicate) refl) ∙ e in
          inr (process-Paid a d b b (inl h) (refl, refl, refl, refl) s)
    ]
  ]

  check_application_ok :
      (b : Book) (o : Option Application) {a : Application}
      → check_application p b o ≡ ok a
      → (o ≡ some a)
        × (is_ready a.status ≡ true)
        × (enforce_risk_gate Status.disbursed b.risk ≡ ok tt)
        × (assert_not_restricted b.borrower_held p.role ≡ ok tt)
  unfolding check_application
  check_application_ok b none e = cc
  check_application_ok b (some x) {a} e =
      let (_, g1, e1) = >>=-eq-ok (guard (is_ready x.status) not_ready) _ e in
      let (_, g2, e2) = >>=-eq-ok (assert_not_restricted b.borrower_held p.role) _ e1 in
      let (_, g3, e3) = >>=-eq-ok (enforce_risk_gate Status.disbursed b.risk) _ e2 in
      let (_, g4, e4) = >>=-eq-ok (guard (not b.critical_alert) critical_alert) _ e3 in
      let same = ok_injective e4 in
      (ap some same, subst (λ y. is_ready y.status ≡ true) same (guard_ok _ _ g1), g3, g2)

  -- A disbursement that answers success passed the guards on the application, and was finished
  -- before or is paid out.
  pub disburse_transaction-Paid :
      (b : Book) {b' : Book} {id : Text}
      → disburse_transaction column fails f p i key b
        ≡ ok (b', some (id, DisbursementStatus.success))
      → (a : Application) × (b.application ≡ some a)
        × (is_ready a.status ≡ true)
        × (enforce_risk_gate Status.disbursed b.risk ≡ ok tt)
        × (assert_not_restricted b.borrower_held p.role ≡ ok tt)
        × (Replayed key b b' id ⊎ Paid a b (b', (id, DisbursementStatus.success)))
  unfolding disburse_transaction
  disburse_transaction-Paid b {b'} {id} e =
      let (a, ea, e1) = >>=-eq-ok (check_application p b b.application) _ e in
      let (found, ready, gate, free) = check_application_ok b b.application ea in
      let (done, ed, e2) =
        >>=-eq-ok (with_duplicate column fails f p i key a (find_by_key key b.disbursements) b) _
          e1 in
      let same = ok_injective e2 in
      let book : done.0 ≡ b' = ap (λ (x : Book × Option Outcome). x.0) same in
      let out : done.1 ≡ (id, DisbursementStatus.success) =
        some_same (ap (λ (x : Book × Option Outcome). x.1) same) in
      let both : done ≡ (b', (id, DisbursementStatus.success)) = cc in
      (
        a,
        found,
        ready,
        gate,
        free,
        with_duplicate-Paid a (find_by_key key b.disbursements) b refl (ed ∙ ap ok both),
      )
