-- ===== src/Common/Ints.antt =====
-- Signed amounts, over the native numbers.
use Prim.Native.Nat.{ℕ, zero, suc, ◌<◌, ◌+◌, ◌-◌}
use mathlib.Core.Path.{◌≡◌, refl, ap, ◌∙◌}
use mathlib.Core.Option.{Option, none, some}
use native.Mathlib.Omega.{arith}
use mathlib.Core.Logic.{inl, inr}
use loanapp.Common.Tests.{Bool-cases, ltb, if◌then◌else◌}

-- `negsuc n` is -(n + 1).
pub data ℤ : Type 0 where
  pos : ℕ → ℤ
  negsuc : ℕ → ℤ

-- The size of an amount that is above zero.
unfoldable pub positive_part? : ℤ → Option ℕ
positive_part? (pos (suc n)) = some (suc n)
positive_part? _ = none

pub positive_part?-pos_of : (n : ℕ) → 0 < n → positive_part? (pos n) ≡ some n
unfolding positive_part?
positive_part?-pos_of zero h = elim h [ ]
positive_part?-pos_of (suc n) h = refl

-- The difference of two numbers.
unfoldable pub diff : ℕ → ℕ → ℤ
diff m n = if ltb m n then negsuc (n - m - 1) else pos (m - n)

infixl 65 ◌+ℤ◌
unfoldable pub ◌+ℤ◌ : ℤ → ℤ → ℤ
pos m +ℤ pos n = pos (m + n)
pos m +ℤ negsuc n = diff m (n + 1)
negsuc m +ℤ pos n = diff n (m + 1)
negsuc m +ℤ negsuc n = negsuc (m + n + 1)

unfoldable pub neg : ℤ → ℤ
neg (pos zero) = pos zero
neg (pos (suc n)) = negsuc n
neg (negsuc n) = pos (n + 1)

infixl 65 ◌-ℤ◌
abbrev pub ◌-ℤ◌ : ℤ → ℤ → ℤ
a -ℤ b = a +ℤ neg b

diff_above : (m n k : ℕ) → m ≡ n + k → diff m n ≡ pos k
unfolding diff
diff_above m n k h = ground arith

diff_below : (m n k : ℕ) → n ≡ m + k + 1 → diff m n ≡ negsuc k
unfolding diff
diff_below m n k h = ground arith

-- What is taken off an amount and put back.
pub add_back : (n : ℕ) (a : ℤ) → pos n +ℤ (a -ℤ pos n) ≡ a
unfolding ◌+ℤ◌ neg
add_back zero (pos k) = ground arith
add_back (suc m) (pos k) = elim (Bool-cases (ltb k (m + 1))) [
  | inl h ↦
      let d = diff_below k (m + 1) (m - k) (ground arith) in
      ap (λ x. pos (suc m) +ℤ x) d ∙ diff_above (suc m) (m - k + 1) k (ground arith)
  | inr h ↦
      let d = diff_above k (m + 1) (k - (m + 1)) (ground arith) in
      let e : suc m + (k - (m + 1)) ≡ k = ground arith in ap (λ x. pos (suc m) +ℤ x) d ∙ ap pos e
]
add_back zero (negsuc k) =
    let d = diff_below 0 (k + 1) k (omega arith) in
    ap (λ x. pos 0 +ℤ x) d ∙ diff_below 0 (k + 1) k (omega arith)
add_back (suc m) (negsuc k) = diff_below (suc m) (k + m + 1 + 1) k (omega arith)

pub add_zero : (a : ℤ) → a +ℤ pos 0 ≡ a
unfolding ◌+ℤ◌
add_zero (pos k) = ground arith
add_zero (negsuc k) = diff_below 0 (k + 1) k (omega arith)
