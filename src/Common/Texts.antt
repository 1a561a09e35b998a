-- ===== src/Common/Texts.antt =====
-- Texts as lists of UTF-16 code units: equality, `trim`, `toUpperCase`. Identifiers, currencies and
-- idempotency keys are such texts.
use Prim.Native.Nat.{ℕ, ◌-◌}
use Prim.Native.Char.{code}
use Prim.Native.String.{String}
use mathlib.Core.Path.{sym, ◌∙◌, ap, ◌≡◌, refl}
use mathlib.Core.Logic.{◌↔◌, inl, inr}
use mathlib.Core.Bool.{false≢true, Bool, true, false, ◌&&◌, ◌||◌}
use mathlib.Core.Option.{Option, none, some}
use mathlib.Core.List.{reverse-append, List, [], ◌∷◌, ◌++◌, reverse}
use native.Mathlib.Omega.{arith}
use loanapp.Common.Tests.{Bool-cases, ◌==◌, leb, if◌then◌else◌}

abbrev pub Text : Type 0
Text = List ℕ

-- The code units of an ASCII literal.
abbrev pub codes : String → Text
codes String.[] = []
codes (String.◌∷◌ c s) = code c ∷ codes s

-- `a === b`
unfoldable pub text_eq : Text → Text → Bool
text_eq [] [] = true
text_eq (x ∷ xs) (y ∷ ys) = x == y && text_eq xs ys
text_eq _ _ = false

pub text_eq_refl : (s : Text) → text_eq s s ≡ true
unfolding text_eq
text_eq_refl [] = refl
text_eq_refl (x ∷ xs) = ground (arith, text_eq_refl xs)

text_eq_sound : (s t : Text) → text_eq s t ≡ true → s ≡ t
unfolding text_eq
text_eq_sound [] [] h = refl
text_eq_sound [] (y ∷ ys) h = cc
text_eq_sound (x ∷ xs) [] h = cc
text_eq_sound (x ∷ xs) (y ∷ ys) h = ground (arith, text_eq_sound xs ys)

pub text_eq_iff : (s t : Text) → (text_eq s t ≡ true) ↔ (s ≡ t)
text_eq_iff s t = (text_eq_sound s t, λ e. rw (← e) (text_eq_refl s))

pub text_eq_sym : (s t : Text) → text_eq s t ≡ false → text_eq t s ≡ false
text_eq_sym s t h = elim (Bool-cases (text_eq t s)) [
  | inl p ↦
      let same : t ≡ s = (text_eq_iff t s).0 p in
      absurd (false≢true (sym h ∙ rw same (text_eq_refl s)))
  | inr q ↦ q
]

-- `b.startsWith(a)`
unfoldable pub starts_with : Text → Text → Bool
starts_with [] _ = true
starts_with (x ∷ xs) (y ∷ ys) = x == y && starts_with xs ys
starts_with (x ∷ xs) [] = false

-- White space and line terminators of ECMAScript.
unfoldable pub is_space : ℕ → Bool
is_space c =
    (leb 9 c && leb c 13)
    || c == 32
    || c == 160
    || c == 0x1680
    || (leb 0x2000 c && leb c 0x200a)
    || c == 0x2028
    || c == 0x2029
    || c == 0x202f
    || c == 0x205f
    || c == 0x3000
    || c == 0xfeff

trim_start : Text → Text
trim_start [] = []
trim_start (c ∷ s) = if is_space c then trim_start s else c ∷ s

-- `s.trim()`
unfoldable pub trim : Text → Text
unfolding trim_start
trim s = reverse (trim_start (reverse (trim_start s)))

unfoldable pub is_empty : Text → Bool
is_empty [] = true
is_empty (c ∷ s) = false

-- `!s.trim()`
unfoldable pub is_blank : Text → Bool
unfolding is_empty trim
is_blank s = is_empty (trim s)

-- `s?.trim() || null`
unfoldable pub trimmed_or_null : Option Text → Option Text
unfolding is_blank
trimmed_or_null none = none
trimmed_or_null (some s) = if is_blank s then none else some (trim s)

-- `s.toUpperCase()` on ASCII, which currency codes are.
unfoldable pub to_upper : Text → Text
to_upper [] = []
to_upper (c ∷ s) = (if leb b'a' c && leb c b'z' then c - 32 else c) ∷ to_upper s

trim_start-snoc :
    (c : ℕ) (s : Text) → is_space c ≡ false → (t : Text) × (trim_start (s ++ c ∷ []) ≡ t ++ c ∷ [])
unfolding trim_start
trim_start-snoc c [] h = ([], rw h)
trim_start-snoc c (x ∷ s) h = elim (Bool-cases (is_space x)) [
  | inl p ↦ let (t, e) = trim_start-snoc c s h in (t, rw p e)
  | inr q ↦ (x ∷ s, rw q)
]

reverse-cons : (c : ℕ) (s : Text) → reverse (c ∷ s) ≡ reverse s ++ c ∷ []
reverse-cons c s = reverse-append (c ∷ []) s

pub is_blank-visible : (c : ℕ) (s : Text) → is_space c ≡ false → is_blank (c ∷ s) ≡ false
unfolding is_blank
is_blank-visible c s h =
    let (t, e) = trim_start-snoc c (reverse s) h in
    let inner : trim_start (reverse (c ∷ s)) ≡ t ++ c ∷ [] = ap trim_start (reverse-cons c s) ∙ e in
    let outer : trim (c ∷ s) ≡ reverse (t ++ c ∷ []) = rw h (ap reverse inner) in
    ap is_empty (outer ∙ reverse-append t (c ∷ []))
