-- ===== src/Schedule/Regeneration.antt =====
-- What a new schedule leaves of a loan.
use mathlib.Core.Path.{subst}
use loanapp.Schedule.Totals.{generate_schedule-AddsUp}
use mathlib.Core.Bool.{false}
use loanapp.Loan.Status.{disbursed, status_eq}
use loanapp.Schedule.Amortization.{
  generate_schedule, installment_count, InterestMethod, Installment, Arithmetic,
}
use loanapp.Schedule.Handler.{
  scheduled, start_of, schedule_input, frequency_of, principal_amount, unpaid_row, ScheduleBook,
  no_rows, term_of, ScheduleRow, ScheduledLoan, generate_schedule_v2,
}
use loanapp.Common.{
  not_disbursed, err, none, Result, guard_ok, ok_injective, >>=-eq-ok, ◌∙◌, sym, ◌>>◌,
  schedule_exists, guard, ◌>>=◌, ℕ, false≢true, inr, inl, suc, refl, [], ap, some, ◌∷◌, ◌⊎◌, true,
  map, arith, ◌≡◌, length, Option, All, ◌||◌, ◌<◌, List, Bool, ok,
}

term_of_positive : (l : ScheduledLoan) → 0 < term_of l
term_of_positive l = ground arith

abbrev pub Unpaid : ScheduleRow → Type 0
Unpaid r = (r.principal_paid ≡ 0) × (r.interest_paid ≡ 0) × (r.fees_paid ≡ 0) × (r.total_paid ≡ 0)

rows-Unpaid : (xs : List Installment) → All Unpaid (map unpaid_row xs)
rows-Unpaid [] = tt
rows-Unpaid (x ∷ xs) = ((refl, refl, refl, refl), rows-Unpaid xs)

rows_length : (xs : List Installment) → length (map unpaid_row xs) ≡ length xs
rows_length [] = refl
rows_length (x ∷ xs) = ap suc (rows_length xs)

no_rows-nil :
    (force : Bool) (rs : List ScheduleRow)
    → (force || no_rows rs) ≡ true
    → (force ≡ true) ⊎ (rs ≡ [])
no_rows-nil true rs h = inl refl
no_rows-nil false [] h = inr refl
no_rows-nil false (r ∷ rs) h = absurd (false≢true h)

start_of_ok : (l : ScheduledLoan) {t : ℕ} → start_of l ≡ ok t → status_eq l.status disbursed ≡ true
unfolding start_of
start_of_ok l {t} e = by_start l.disbursed_at e
  where
    by_start :
        (o : Option ℕ)
        → elim o as (λ _. Result ℕ) [
          | none ↦ err not_disbursed
          | some u ↦ guard (status_eq l.status disbursed) not_disbursed >> ok u
        ]
          ≡ ok t
        → status_eq l.status disbursed ≡ true
    by_start none h = cc
    by_start (some u) h =
        let (_, g, _) = >>=-eq-ok (guard (status_eq l.status disbursed) not_disbursed) _ h in
        guard_ok _ _ g

-- The new schedule of a loan.
new_schedule-AddsUp :
    (m : Arithmetic) (l : ScheduledLoan) (start : ℕ) (method : Option InterestMethod)
    → 0 < principal_amount l
    → let xs = generate_schedule m (schedule_input l start method) in
      (length (map unpaid_row xs) ≡ installment_count (term_of l) (frequency_of l))
      × ((scheduled xs l).outstanding_principal ≡ principal_amount l)
      × ((scheduled xs l).outstanding_fees ≡ 0)
unfolding schedule_input scheduled
new_schedule-AddsUp m l start method some_money =
    let i = schedule_input l start method in
    let (many, _, ps, fs, _) = generate_schedule-AddsUp m i some_money (term_of_positive l) in
    (rows_length (generate_schedule m i) ∙ many, ps, fs)

-- A schedule is generated for a loan that is DISBURSED, where it has none or by force, and it
-- starts over: as many installments as the term has periods, with no principal, interest, fees or total paid, and the whole
-- amount of the loan outstanding as principal and no fees, whatever had been paid before.
pub generate_schedule_v2_lem :
    (m : Arithmetic) (method : Option InterestMethod) (force : Bool) (b : ScheduleBook)
    {l : ScheduledLoan} {b' : ScheduleBook}
    → b.loan ≡ some l
    → 0 < principal_amount l
    → generate_schedule_v2 m method force b ≡ ok b'
    → (status_eq l.status disbursed ≡ true)
      × ((force ≡ true) ⊎ (b.rows ≡ []))
      × ((l' : ScheduledLoan) × (b'.loan ≡ some l')
          × (l'.outstanding_principal ≡ principal_amount l)
          × (l'.outstanding_fees ≡ 0))
      × (length b'.rows ≡ installment_count (term_of l) (frequency_of l))
      × All Unpaid b'.rows
unfolding generate_schedule_v2
generate_schedule_v2_lem m method force b {l} {b'} found some_money e =
    let s : (start_of l >>= λ start.
    guard (force || no_rows b.rows) schedule_exists
    >> ok (record {
      loan = some (scheduled (generate_schedule m (schedule_input l start method)) l);
      rows = map unpaid_row (generate_schedule m (schedule_input l start method));
    }))
        ≡ ok b' =
      sym (rw (found, generate_schedule_v2) refl) ∙ e in
    let (start, started, e1) = >>=-eq-ok (start_of l) _ s in
    let (_, g, e2) = >>=-eq-ok (guard (force || no_rows b.rows) schedule_exists) _ e1 in
    let xs = generate_schedule m (schedule_input l start method) in
    let (many, ps, fs) = new_schedule-AddsUp m l start method some_money in
    let same = sym (ok_injective e2) in
    (
      start_of_ok l started,
      no_rows-nil force b.rows (guard_ok _ _ g),
      (scheduled xs l, ap (λ (x : ScheduleBook). x.loan) same, ps, fs),
      ap (λ (x : ScheduleBook). length x.rows) same ∙ many,
      subst (λ (x : ScheduleBook). All Unpaid x.rows) (sym same) (rows-Unpaid xs),
    )
