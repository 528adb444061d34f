-- ===== src/Tests/KeysTests.antt =====
-- File ids and keys.
use rust_dfs.Base.{ℕ, ◌^◌, ◌<◌, ◌≡◌, refl, [], ◌∷◌, arith}
use rust_dfs.Domain.Keys.{PublishedFileKey, to_u64, from_u64}
use rust_dfs.Domain.Keys.Numbers.{id_of_key}

abbrev some_key : PublishedFileKey
some_key = record { bytes = 0 ∷ 0 ∷ 0 ∷ 0 ∷ 0 ∷ 1 ∷ 2 ∷ 255 ∷ [] }

number_of_key : to_u64 some_key ≡ 66303
unfolding to_u64
number_of_key = refl

key_of_number : from_u64 66303 ≡ some_key
unfolding from_u64
key_of_number = refl

id_of_key_example :
    (to_u64 some_key ≡ 66303)
    × (from_u64 66303 ≡ some_key)
    × ((n : ℕ) → n < 2 ^ 64 → from_u64 n ≡ some_key → n ≡ 66303)
id_of_key_example = id_of_key 0 0 0 0 0 1 2 255 (
  omega arith,
  (
    omega arith,
    (omega arith, (omega arith, (omega arith, (omega arith, (omega arith, (omega arith, tt)))))),
  ),
)
