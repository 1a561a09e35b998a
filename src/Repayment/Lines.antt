-- ===== src/Repayment/Lines.antt =====
-- The ledger lines of a repayment, as the ledger reads them.
use Prim.Native.Nat.{zero}
use loanapp.Repayment.Conservation.{spent}
use loanapp.Repayment.Allocation.{Allocated}
use loanapp.Common.{
  refl, [], positive_part?-pos_of, suc, arith, ◌∷◌, ◌+◌, pos, ◌*◌, ok, ◌≡◌, ◌<◌, List, ℕ,
}
use loanapp.Ledger.Accounts.{
  debit, fees_receivable, interest_receivable, loan_principal_receivable, suspense, credit,
  Direction, Code,
}
use loanapp.Ledger.Entries.{units_per_cent, CheckedLine, Line, add_amount, total, check_lines}
use loanapp.Repayment.Posting.{receiving_account, credit_if, repayment_lines, Channel}

check_lines-pos :
    (code : Code) (d : Direction) (n : ℕ) (rest : List Line) {cs : List CheckedLine}
    → 0 < n
    → check_lines rest ≡ ok cs
    → check_lines (record { account = code; direction = d; amount = pos n } ∷ rest)
      ≡ ok (record { account = code; direction = d; amount = n } ∷ cs)
unfolding check_lines
check_lines-pos code d n rest h e = ground (arith, positive_part?-pos_of n h)

check_lines-credit_if :
    (code : Code) (n : ℕ) (rest : List Line) {cs : List CheckedLine}
    → check_lines rest ≡ ok cs
    → (ds : List CheckedLine) × (check_lines (credit_if code n rest) ≡ ok ds)
      × ((total ds).0 ≡ (total cs).0)
      × ((total ds).1 ≡ (total cs).1 + n * units_per_cent)
unfolding total add_amount
check_lines-credit_if code zero rest {cs} e = (cs, e, refl, omega arith)
check_lines-credit_if code (suc n) rest {cs} e = (
  record { account = code; direction = credit; amount = suc n * units_per_cent } ∷ cs,
  ground (arith, check_lines-pos code credit (suc n * units_per_cent) rest (omega arith) e),
  refl,
  refl,
)

-- The debit is what was posted, and the credits are what was spent and what is left.
pub repayment_lines-total :
    (channel : Channel) (posted : ℕ) (a : Allocated)
    → 0 < posted
    → (cs : List CheckedLine) × (check_lines (repayment_lines channel posted a) ≡ ok cs)
      × ((total cs).0 ≡ posted * units_per_cent)
      × ((total cs).1 ≡ (spent a + a.amount_left) * units_per_cent)
unfolding repayment_lines total add_amount
repayment_lines-total channel posted a h =
    let empty : check_lines [] ≡ ok [] = unfold check_lines in refl in
    let (ds1, e1, d1, c1) = check_lines-credit_if suspense a.amount_left [] empty in
    let (ds2, e2, d2, c2) = check_lines-credit_if loan_principal_receivable a.principal _ e1 in
    let (ds3, e3, d3, c3) = check_lines-credit_if interest_receivable a.interest _ e2 in
    let (ds4, e4, d4, c4) = check_lines-credit_if fees_receivable a.fees _ e3 in
    (
      record {
        account = receiving_account channel;
        direction = debit;
        amount = posted * units_per_cent;
      }
          ∷ ds4,
      check_lines-pos (receiving_account channel) debit (posted * units_per_cent) _ (omega arith)
          e4,
      omega arith,
      omega arith,
    )
