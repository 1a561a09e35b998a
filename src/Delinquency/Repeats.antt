-- ===== src/Delinquency/Repeats.antt =====
-- Recalculations that follow each other at one time.
use loanapp.Delinquency.Recalculation.{
  StatusAfter, recalc_delinquency-Recalculated, should_move_settled, refresh_items_twice,
  compute_delinquency-refresh_item,
}
use loanapp.Loan.Roles.{Role}
use loanapp.Delinquency.Engine.{
  refresh_item, compute_delinquency, next_status, should_move, Delinquency, LoanState, LoanRows,
  recalc_delinquency,
}
use loanapp.Common.{
  Option-cases, inr, inl, sym, loan_not_found, err, Result, ◌∙◌, ap, none, refl, map, false, some,
  ◌≡◌, Text, Option, ℕ, ok,
}

recalc_delinquency-stays :
    (now : ℕ) (role : Role) (actor : Option Text) (b : LoanRows) {l : LoanState}
    → b.loan ≡ some l
    → should_move l.status (next_status (compute_delinquency now b.items).status) ≡ false
    → recalc_delinquency now role actor b
      ≡ ok (
        record {
          loan = some (record l {
            delinquency = compute_delinquency now b.items;
            calculated_at = some now;
          });
          items = map (refresh_item now) b.items;
          history = b.history;
        },
        compute_delinquency now b.items,
      )
unfolding recalc_delinquency
recalc_delinquency-stays now role actor b found h = rw (found, h, recalc_delinquency) refl

nothing_found :
    (now : ℕ) (role : Role) (actor : Option Text) (b : LoanRows) {r : LoanRows × Delinquency}
    → b.loan ≡ none
    → recalc_delinquency now role actor b ≡ ok r
    → ⊥
unfolding recalc_delinquency
nothing_found now role actor b {r} n e =
    let s : ◌≡◌ {A = Result (LoanRows × Delinquency)} (err loan_not_found) (ok r) =
      sym (rw (n, recalc_delinquency) refl) ∙ e in
    cc

-- A recalculation that has succeeded is not repeated in vain: another at the same time, by
-- whatever role, succeeds with the same figures and leaves every row as it is.
pub recalc_delinquency_twice :
    (now : ℕ) (role other : Role) (actor actor' : Option Text) (b : LoanRows) {b' : LoanRows}
    {d : Delinquency}
    → recalc_delinquency now role actor b ≡ ok (b', d)
    → recalc_delinquency now other actor' b' ≡ ok (b', d)
recalc_delinquency_twice now role other actor actor' b {b'} {d} e = elim (Option-cases b.loan) [
  | inl n ↦ absurd (nothing_found now role actor b n e)
  | inr (l, found) ↦
      let (after, same) = recalc_delinquency-Recalculated now role actor b found e in
      by_move l after.0 after.1 same
]
  where
    again :
        (l' : LoanState)
        → b'.items ≡ map (refresh_item now) b.items
        → d ≡ compute_delinquency now b.items
        → should_move l'.status (next_status (compute_delinquency now b.items).status) ≡ false
        → b'.loan ≡ some l'
        → record l' { delinquency = compute_delinquency now b.items; calculated_at = some now } ≡ l'
        → recalc_delinquency now other actor' b' ≡ ok (b', d)
    again l' items same stays held fixed =
        let figures : compute_delinquency now b'.items ≡ compute_delinquency now b.items =
          ap (compute_delinquency now) items ∙ compute_delinquency-refresh_item now b.items in
        let still : should_move l'.status (next_status (compute_delinquency now b'.items).status)
            ≡ false =
          ap (λ (x : Delinquency). should_move l'.status (next_status x.status)) figures ∙ stays in
        let rows : map (refresh_item now) b'.items ≡ b'.items =
          ap (map (refresh_item now)) items ∙ refresh_items_twice now b.items ∙ sym items in
        let loan : some (record l' {
          delinquency = compute_delinquency now b'.items;
          calculated_at = some now;
        })
            ≡ b'.loan =
          ap (λ (x : Delinquency). some (record l' { delinquency = x; calculated_at = some now }))
            figures
          ∙ ap some fixed
          ∙ sym held in
        let result : compute_delinquency now b'.items ≡ d = figures ∙ sym same in
        recalc_delinquency-stays now other actor' b' held still
        ∙ (λ t. ok (record { loan = loan t; items = rows t; history = b'.history }, result t))

    by_move :
        (l : LoanState)
        → b'.items ≡ map (refresh_item now) b.items
        → StatusAfter now actor b l b'
        → d ≡ compute_delinquency now b.items
        → recalc_delinquency now other actor' b' ≡ ok (b', d)
    by_move l items (inl (moves, held, _)) same =
        again _ items same
          (should_move_settled l.status (compute_delinquency now b.items).status moves) held refl
    by_move l items (inr (stays, held, _)) same = again _ items same stays held refl
