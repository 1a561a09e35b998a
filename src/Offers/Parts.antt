-- ===== src/Offers/Parts.antt =====
-- How totals are divided into parts, and the parts put together.
use native.Mathlib.Nat.{div-mul-le_self}
use Prim.Native.Nat.{zero}
use loanapp.Common.{
  refl, ap, [], arith, ◌∙◌, ◌+◌, suc, ◌-◌, ◌*◌, ◌∷◌, ◌/◌, ◌≡◌, sum_by, ◌<◌, replicate, length, ℕ,
  List,
}
use loanapp.Offers.Engine.{add_first, add_last, add_each, distribute}

abbrev pub sum : List ℕ → ℕ
sum xs = sum_by (λ x. x) xs

length-replicate : (n a : ℕ) → length (replicate n a) ≡ n
length-replicate zero a = refl
length-replicate (suc n) a = omega (arith, length-replicate n a)

sum-replicate : (n a : ℕ) → sum (replicate n a) ≡ a * n
sum-replicate zero a = omega arith
sum-replicate (suc n) a = omega (arith, sum-replicate n a)

pub length-add_last : (n : ℕ) (xs : List ℕ) → length (add_last n xs) ≡ length xs
unfolding add_last
length-add_last n [] = refl
length-add_last n (x ∷ []) = refl
length-add_last n (x ∷ y ∷ xs) = ap suc (length-add_last n (y ∷ xs))

pub sum-add_last : (n : ℕ) (xs : List ℕ) → 0 < length xs → sum (add_last n xs) ≡ sum xs + n
unfolding add_last
sum-add_last n [] h = omega arith
sum-add_last n (x ∷ []) h = omega arith
sum-add_last n (x ∷ y ∷ xs) h = let rest = sum-add_last n (y ∷ xs) (omega arith) in omega arith

pub length-add_first : (n : ℕ) (xs : List ℕ) → length (add_first n xs) ≡ length xs
unfolding add_first
length-add_first n [] = refl
length-add_first n (x ∷ xs) = refl

pub sum-add_first : (n : ℕ) (xs : List ℕ) → 0 < length xs → sum (add_first n xs) ≡ sum xs + n
unfolding add_first
sum-add_first n [] h = omega arith
sum-add_first n (x ∷ xs) h = omega arith

pub length-add_each : (xs ys : List ℕ) → length (add_each xs ys) ≡ length xs
unfolding add_each
length-add_each [] [] = refl
length-add_each [] (y ∷ ys) = refl
length-add_each (x ∷ xs) [] = refl
length-add_each (x ∷ xs) (y ∷ ys) = ap suc (length-add_each xs ys)

pub sum-add_each : (xs ys : List ℕ) → length xs ≡ length ys → sum (add_each xs ys) ≡ sum xs + sum ys
unfolding add_each
sum-add_each [] [] h = refl
sum-add_each [] (y ∷ ys) h = omega arith
sum-add_each (x ∷ xs) [] h = omega arith
sum-add_each (x ∷ xs) (y ∷ ys) h = let rest = sum-add_each xs ys (omega arith) in omega arith

pub length-distribute : (total count : ℕ) → length (distribute total count) ≡ count
unfolding distribute
length-distribute total count =
    length-add_last (total - total / count * count) (replicate count (total / count))
    ∙ length-replicate count (total / count)

-- The parts of a total add up to it.
pub sum-distribute : (total count : ℕ) → 0 < count → sum (distribute total count) ≡ total
unfolding distribute
sum-distribute total count h =
    let base = total / count in
    let size = length-replicate count base in
    let parts = sum-replicate count base in
    let whole = sum-add_last (total - base * count) (replicate count base) (omega arith) in
    let below = div-mul-le_self total count in omega arith
