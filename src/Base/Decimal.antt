-- ===== src/Base/Decimal.antt =====
-- `format!("{}", n)` of a number: its decimal digits, and that two numbers never share them.
use rust_dfs.Base.Lists.{All, All-append, length, length-append}
use rust_dfs.Base.Tests.{ltb, if◌then◌else◌}
use Prim.Native.Nat.{ℕ, zero, suc, ◌+◌, ◌-◌, ◌*◌, ◌/◌, ◌%◌, ◌≤◌, ◌<◌}
use mathlib.Core.Path.{◌≡◌, ap, sym, ◌∙◌}
use mathlib.Core.List.{List, [], ◌∷◌, ◌++◌, foldl, foldl-append}
use native.Mathlib.Omega.{arith}

-- The digits, most significant first. The fuel bounds their number.
digits : ℕ → ℕ → List ℕ
digits zero n = []
digits (suc f) n =
    let more = digits f (n / 10) in if ltb n 10 then (48 + n) ∷ [] else more ++ (48 + n % 10) ∷ []

unfoldable pub show_nat : ℕ → List ℕ
unfolding digits
show_nat n = digits (suc n) n

abbrev push_digit : ℕ → ℕ → ℕ
push_digit acc d = acc * 10 + (d - 48)

value : List ℕ → ℕ
value = foldl push_digit 0

value-append_digit : (ds : List ℕ) (d : ℕ) → value (ds ++ d ∷ []) ≡ value ds * 10 + (d - 48)
unfolding value
value-append_digit ds d = foldl-append push_digit 0 ds (d ∷ [])

value-digits : (f n : ℕ) → n < f → value (digits f n) ≡ n
unfolding digits value
value-digits zero n h = elim h [ ]
value-digits (suc f) n h =
    ground (arith, value-digits f (n / 10), value-append_digit (digits f (n / 10)) (48 + n % 10))

-- Two numbers with the same digits are equal.
pub show_nat-injective : (n m : ℕ) → show_nat n ≡ show_nat m → n ≡ m
unfolding show_nat
show_nat-injective n m e =
    sym (value-digits (suc n) n (omega arith)) ∙ ap value e ∙ value-digits (suc m) m (omega arith)

-- `0` to `9`.
abbrev pub IsDigit : ℕ → Type 0
IsDigit c = (48 ≤ c) × (c ≤ 57)

digits-IsDigit : (f n : ℕ) → All IsDigit (digits f n)
unfolding digits
digits-IsDigit zero n = tt
digits-IsDigit (suc f) n =
    ground (
      arith,
      All-append IsDigit (digits f (n / 10)) ((48 + n % 10) ∷ []) (digits-IsDigit f (n / 10)),
    )

pub show_nat-IsDigit : (n : ℕ) → All IsDigit (show_nat n)
unfolding show_nat
show_nat-IsDigit n = digits-IsDigit (suc n) n

pub show_nat_not_empty : (n : ℕ) → 1 ≤ length (show_nat n)
unfolding show_nat
show_nat_not_empty n = ground (arith, length-append (digits n (n / 10)) ((48 + n % 10) ∷ []))
