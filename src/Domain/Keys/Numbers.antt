-- ===== src/Domain/Keys/Numbers.antt =====
-- The keys and the 64-bit numbers are the same (`PublishedFileKey` of
-- src/app/file_store/domain.rs).
use std.Equiv.{IsEquiv, iso_to_equiv}
use mathlib.Core.HLevel.{Σ_prop_path}
use native.Mathlib.Bridge.{le_prop}
use native.Mathlib.Nat.{ℕ_set, pow-suc}
use rust_dfs.Base.{
  ℕ, ◌+◌, ◌*◌, ◌^◌, ◌≤◌, ◌<◌, ◌≡◌, refl, sym, ap, ◌∙◌, subst, [], ◌∷◌, arith, length, All,
}
use mathlib.Core.List.{foldl}
use rust_dfs.Base.Text.{Bytes}
use rust_dfs.Domain.Keys.{
  PublishedFileKey, push_byte, from_be_bytes, to_u64, from_u64, IsKey, to_u64-from_u64,
  from_u64-to_u64, from_u64-IsKey,
}

-- `u64`, and the arrays that are keys
abbrev pub U64 : Type 0
U64 = (n : ℕ) × (n < 2 ^ 64)

abbrev pub Key : Type 0
Key = (k : PublishedFileKey) × IsKey k

mul_mono : (a b p : ℕ) → a ≤ b → a * p ≤ b * p
mul_mono a b p h = grind arith

pushed-lt :
    (bs : Bytes) (acc : ℕ)
    → All (λ b. b < 256) bs
    → foldl push_byte acc bs + 1 ≤ (acc + 1) * 256 ^ length bs
pushed-lt [] acc h = omega arith
pushed-lt (b ∷ bs) acc h =
    let p : ℕ = 256 ^ length bs in
    let more : push_byte acc b + 1 ≤ (acc + 1) * 256 = omega (arith, h.0) in
    rw pow-suc (
      grind (
        arith,
        pushed-lt bs (push_byte acc b) h.1,
        mul_mono (push_byte acc b + 1) ((acc + 1) * 256) p more,
      ))

to_u64-lt : (k : PublishedFileKey) → IsKey k → to_u64 k < 2 ^ 64
unfolding to_u64 from_be_bytes
to_u64-lt k h =
    let small : foldl push_byte 0 k.bytes + 1 ≤ (0 + 1) * 256 ^ length k.bytes =
      pushed-lt k.bytes 0 h.bytes in
    let wide : foldl push_byte 0 k.bytes + 1 ≤ (0 + 1) * 256 ^ 8 =
      subst (λ n. foldl push_byte 0 k.bytes + 1 ≤ (0 + 1) * 256 ^ n) h.eight small in
    omega (arith, wide)

IsProp-All : (bs : Bytes) → IsProp (All (λ b. b < 256) bs)
IsProp-All [] = λ x y. refl
IsProp-All (b ∷ bs) = λ x y i. (le_prop x.0 y.0 i, IsProp-All bs x.1 y.1 i)

IsProp-IsKey : (k : PublishedFileKey) → IsProp (IsKey k)
IsProp-IsKey k = λ x y i. record {
  eight = ℕ_set (length k.bytes) 8 x.eight y.eight i;
  bytes = IsProp-All k.bytes x.bytes y.bytes i;
}

abbrev pub key_of : U64 → Key
key_of u = (from_u64 u.0, from_u64-IsKey u.0)

-- `From<u64>` makes of the 64-bit numbers exactly the keys of eight bytes: each key is that of one
-- number and of no other.
pub from_u64-IsEquiv : IsEquiv key_of
from_u64-IsEquiv =
    (iso_to_equiv record {
      fun = key_of;
      inv = λ k. (to_u64 k.0, to_u64-lt k.0 k.1);
      rinv = λ k. Σ_prop_path IsProp-IsKey (from_u64-to_u64 k.0 k.1);
      linv = λ u. Σ_prop_path (λ n. le_prop) (to_u64-from_u64 u.0 u.1);
    }).1

-- A file id and its key: the eight bytes of the key are the digits of the id to the base 256, the most
-- significant first, in both directions, and either of the two determines the other.
pub id_of_key :
    (a b c d e f g h : ℕ)
    → All (λ x. x < 256) (a ∷ b ∷ c ∷ d ∷ e ∷ f ∷ g ∷ h ∷ [])
    → let k : PublishedFileKey = record { bytes = a ∷ b ∷ c ∷ d ∷ e ∷ f ∷ g ∷ h ∷ [] } in
      let id : ℕ =
        a * 2 ^ 56
        + b * 2 ^ 48
        + c * 2 ^ 40
        + d * 2 ^ 32
        + e * 2 ^ 24
        + f * 2 ^ 16
        + g * 2 ^ 8
        + h in
      (to_u64 k ≡ id) × (from_u64 id ≡ k) × ((n : ℕ) → n < 2 ^ 64 → from_u64 n ≡ k → n ≡ id)
unfolding to_u64 from_be_bytes
id_of_key a b c d e f g h small =
    let k : PublishedFileKey = record { bytes = a ∷ b ∷ c ∷ d ∷ e ∷ f ∷ g ∷ h ∷ [] } in
    let number : to_u64 k
        ≡ a * 2 ^ 56
          + b * 2 ^ 48
          + c * 2 ^ 40
          + d * 2 ^ 32
          + e * 2 ^ 24
          + f * 2 ^ 16
          + g * 2 ^ 8
          + h =
      omega arith in
    (
      number,
      ap from_u64 (sym number) ∙ from_u64-to_u64 k (record { eight = refl; bytes = small }),
      λ n lt same. sym (to_u64-from_u64 n lt) ∙ ap to_u64 same ∙ number,
    )
