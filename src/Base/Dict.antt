-- ===== src/Base/Dict.antt =====
-- `HashMap` with numbers as keys, an association list. The program never iterates over one of
-- its maps, so the order of the entries is not modelled.
use Prim.Native.Nat.{ℕ, ◌+◌}
use mathlib.Core.Path.{◌≡◌, refl}
use mathlib.Core.Logic.{◌≢◌}
use mathlib.Core.Option.{Option, none, some}
use mathlib.Core.List.{List, [], ◌∷◌}
use native.Mathlib.Omega.{arith}
use rust_dfs.Base.Tests.{◌==◌, if◌then◌else◌}

abbrev pub Dict {ℓ} : Type ℓ → Type ℓ
Dict V = List (ℕ × V)

module _ {ℓ} {V : Type ℓ} where
  -- `get`
  unfoldable pub lookup : ℕ → Dict V → Option V
  lookup k [] = none
  lookup k ((j, v) ∷ m) = if j == k then some v else lookup k m

  -- `insert`: the entry of a key that is present is replaced.
  unfoldable pub insert : ℕ → V → Dict V → Dict V
  insert k v [] = (k, v) ∷ []
  insert k v ((j, w) ∷ m) = let rest = insert k v m in if j == k then (k, v) ∷ m else (j, w) ∷ rest

  -- `remove`
  unfoldable pub erase : ℕ → Dict V → Dict V
  erase k [] = []
  erase k ((j, w) ∷ m) = let rest = erase k m in if j == k then m else (j, w) ∷ rest

  abbrev pub weight_of : (V → ℕ) → Option V → ℕ
  weight_of w none = 0
  weight_of w (some v) = w v

  -- The sum of a weight over the entries.
  unfoldable pub total : (V → ℕ) → Dict V → ℕ
  total w [] = 0
  total w ((j, v) ∷ m) = w v + total w m

  pub lookup-insert :
      (put asked : ℕ) (new : V) (entries : Dict V)
      → lookup asked (insert put new entries)
        ≡ (if put == asked then some new else lookup asked entries)
  unfolding lookup insert
  lookup-insert put asked new [] = refl
  lookup-insert put asked new (entry ∷ entries) =
      ground (arith, lookup-insert put asked new entries)

  pub lookup-erase_ne : (k j : ℕ) (m : Dict V) → k ≢ j → lookup j (erase k m) ≡ lookup j m
  unfolding lookup erase
  lookup-erase_ne k j [] h = refl
  lookup-erase_ne k j ((i, w) ∷ m) h = ground (arith, lookup-erase_ne k j m h)

  -- Nothing is lost or doubled by a replacement: the old entry's weight is given back.
  pub total-insert :
      (w : V → ℕ) (k : ℕ) (v : V) (m : Dict V)
      → total w (insert k v m) + weight_of w (lookup k m) ≡ total w m + w v
  unfolding lookup insert total
  total-insert w k v [] = omega arith
  total-insert w k v ((i, u) ∷ m) = ground (arith, total-insert w k v m)

  pub total-erase :
      (w : V → ℕ) (k : ℕ) (m : Dict V) → total w (erase k m) + weight_of w (lookup k m) ≡ total w m
  unfolding lookup erase total
  total-erase w k [] = omega arith
  total-erase w k ((i, u) ∷ m) = ground (arith, total-erase w k m)
