-- ===== src/Base/Sets.antt =====
-- `HashSet` of numbers: a list in which no number stands twice.
use Prim.Native.Nat.{ℕ, zero, suc, ◌+◌, ◌≤◌, ◌<◌}
use mathlib.Core.Path.{sym, ◌≡◌, refl, ap, subst, ◌∙◌}
use mathlib.Core.Bool.{Bool, true, false, ◌||◌}
use mathlib.Core.List.{List, [], ◌∷◌}
use mathlib.Core.Logic.{inl, inr}
use native.Mathlib.Decide.{dec_lt}
use native.Mathlib.Omega.{arith}
use rust_dfs.Base.Tests.{◌==◌, if◌then◌else◌, Bool-cases}
use rust_dfs.Base.Lists.{length, All, range_from}

-- `contains`
unfoldable pub contains : List ℕ → ℕ → Bool
contains [] a = false
contains (x ∷ xs) a = x == a || contains xs a

-- `insert`
unfoldable pub insert : ℕ → List ℕ → List ℕ
unfolding contains
insert a xs = if contains xs a then xs else a ∷ xs

abbrev pub Distinct : List ℕ → Type 0
Distinct [] = Unit
Distinct (x ∷ xs) = (contains xs x ≡ false) × Distinct xs

pub contains-insert : (a b : ℕ) (xs : List ℕ) → contains (insert a xs) b ≡ (a == b || contains xs b)
unfolding insert
contains-insert a b xs = ground arith

pub insert-Distinct : (a : ℕ) (xs : List ℕ) → Distinct xs → Distinct (insert a xs)
unfolding insert
insert-Distinct a xs h = elim (Bool-cases (contains xs a)) [
  | inl old ↦ rw old h
  | inr new ↦ rw new (new, h)
]

abbrev one_if : Bool → ℕ
one_if true = 1
one_if false = 0

-- How many numbers below `n` are in the set.
hits : ℕ → List ℕ → ℕ
hits zero xs = 0
hits (suc n) xs = one_if (contains xs n) + hits n xs

hits-nil : (n : ℕ) → hits n [] ≡ 0
unfolding hits contains
hits-nil zero = refl
hits-nil (suc n) = omega (arith, hits-nil n)

hits-cons_ge : (n x : ℕ) (xs : List ℕ) → n ≤ x → hits n (x ∷ xs) ≡ hits n xs
unfolding hits contains
hits-cons_ge zero x xs h = refl
hits-cons_ge (suc n) x xs h = ground (arith, hits-cons_ge n x xs)

hits-cons :
    (n x : ℕ) (xs : List ℕ) → x < n → contains xs x ≡ false → hits n (x ∷ xs) ≡ suc (hits n xs)
unfolding hits contains
hits-cons zero x xs h new = absurd (omega arith)
hits-cons (suc n) x xs h new = ground (arith, hits-cons n x xs, hits-cons_ge n x xs)

hits-eq-length : (n : ℕ) (xs : List ℕ) → Distinct xs → All (λ x. x < n) xs → hits n xs ≡ length xs
hits-eq-length n [] d h = hits-nil n
hits-eq-length n (x ∷ xs) d h = hits-cons n x xs h.0 d.0 ∙ ap suc (hits-eq-length n xs d.1 h.1)

hits-le : (n : ℕ) (xs : List ℕ) → hits n xs ≤ n
unfolding hits
hits-le zero xs = omega arith
hits-le (suc n) xs = ground (arith, hits-le n xs)

hits_full : (n : ℕ) (xs : List ℕ) → hits n xs ≡ n → (i : ℕ) → i < n → contains xs i ≡ true
unfolding hits
hits_full zero xs h i lt = absurd (omega arith)
hits_full (suc n) xs h i lt = elim (dec_lt i n) [
  | yes below ↦ hits_full n xs (ground (arith, hits-le n xs)) i below
  | no last ↦
      let e : n ≡ i = omega arith in
      subst (λ k. contains xs k ≡ true) e (ground (arith, hits-le n xs))
]

-- A set of `n` numbers below `n` has all of them.
pub contains-All :
    (n : ℕ) (xs : List ℕ)
    → Distinct xs
    → All (λ x. x < n) xs
    → length xs ≡ n
    → (i : ℕ) → i < n
    → contains xs i ≡ true
contains-All n xs d h len = hits_full n xs (hits-eq-length n xs d h ∙ len)

hits_all : (n : ℕ) (xs : List ℕ) → ((i : ℕ) → i < n → contains xs i ≡ true) → hits n xs ≡ n
unfolding hits
hits_all zero xs h = refl
hits_all (suc n) xs h = ground (arith, h n (omega arith), hits_all n xs (λ i lt. h i (omega arith)))

-- A set of numbers below `n` that has all of them has `n` numbers.
pub length-contains :
    (n : ℕ) (xs : List ℕ)
    → Distinct xs
    → All (λ x. x < n) xs
    → ((i : ℕ) → i < n → contains xs i ≡ true)
    → length xs ≡ n
length-contains n xs d h all = sym (hits-eq-length n xs d h) ∙ hits_all n xs all

-- What holds of all members holds along the list.
pub All-of_contains :
    (P : ℕ → Type 0) (xs : List ℕ) → ((a : ℕ) → contains xs a ≡ true → P a) → All P xs
unfolding contains
All-of_contains P [] h = tt
All-of_contains P (x ∷ xs) h =
    (h x (ground arith), All-of_contains P xs (λ a m. h a (ground arith)))

-- Another order of the same numbers.
pub record IsReordering (order : List ℕ → List ℕ) : Type 0 where
  pub same_members : (xs : List ℕ) (a : ℕ) → contains (order xs) a ≡ contains xs a
  pub still_distinct : (xs : List ℕ) → Distinct xs → Distinct (order xs)

pub contains-range_from : (i n a : ℕ) → contains (range_from i n) a ≡ true → (i ≤ a) × (a < i + n)
unfolding contains
contains-range_from i zero a h = cc
contains-range_from i (suc n) a h = ground (arith, contains-range_from (suc i) n a)

pub range_from-Distinct : (i n : ℕ) → Distinct (range_from i n)
unfolding contains
range_from-Distinct i zero = tt
range_from-Distinct i (suc n) =
    (ground (arith, contains-range_from (suc i) n i), range_from-Distinct (suc i) n)

pub range_from-contains : (i n a : ℕ) → i ≤ a → a < i + n → contains (range_from i n) a ≡ true
unfolding contains
range_from-contains i zero a h lt = absurd (omega arith)
range_from-contains i (suc n) a h lt = elim (dec_lt i a) [
  | yes later ↦ ground (arith, range_from-contains (suc i) n a (omega arith) (omega arith))
  | no here ↦ let e : i ≡ a = omega arith in ground (arith, e)
]
