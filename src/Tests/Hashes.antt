-- ===== src/Tests/Hashes.antt =====
-- Hashes in memory: a text is its own hash, and the root of a tree lists the leaves, each behind its
-- length.
use rust_dfs.Base.{
  ℕ, zero, suc, ◌≡◌, ◌≢◌, refl, sym, ap, ◌∙◌, Bool, true, false, Option, none, some,
}
use rust_dfs.Base.{List, [], ◌∷◌, ◌++◌, arith, take, drop, length, get_elem?}
use rust_dfs.Base.{take_of_length, drop_of_length, text_eq, text_eq_iff, text_eq_refl}
use rust_dfs.Base.Text.{Bytes}
use rust_dfs.Processing.Merkle.{Merkle}
use rust_dfs.Processing.Merkle

abbrev pub encode : List Bytes → Bytes
encode [] = []
encode (b ∷ bs) = length b ∷ b ++ encode bs

abbrev leaf_at : ℕ → Bytes → Option Bytes
leaf_at i [] = none
leaf_at zero (n ∷ r) = some (take n r)
leaf_at (suc i) (n ∷ r) = leaf_at i (drop n r)

abbrev is_leaf : Option Bytes → Bytes → Bool
is_leaf none leaf = false
is_leaf (some b) leaf = text_eq b leaf

abbrev root_of : List Bytes → Option Bytes
root_of [] = none
root_of (b ∷ bs) = some (encode (b ∷ bs))

abbrev pub plain_merkle : Merkle
plain_merkle = record {
  Proof = Bytes;
  hash = λ b. b;
  root = root_of;
  proof = λ leaves i. i ∷ [];
  from_bytes = λ b. some b;
  verify = λ p r i leaf n. is_leaf (leaf_at i r) leaf;
}

leaf_at-encode : (leaves : List Bytes) (i : ℕ) → leaf_at i (encode leaves) ≡ get_elem? leaves i
leaf_at-encode [] zero = refl
leaf_at-encode [] (suc i) = refl
leaf_at-encode (b ∷ bs) zero = ap some (take_of_length (length b) b (encode bs) refl)
leaf_at-encode (b ∷ bs) (suc i) =
    ap (leaf_at i) (drop_of_length (length b) b (encode bs) refl) ∙ leaf_at-encode bs i

root-encode : (leaves : List Bytes) {r : Bytes} → root_of leaves ≡ some r → r ≡ encode leaves
root-encode [] e = cc
root-encode (b ∷ bs) e = ground arith

is_leaf_sound : (o : Option Bytes) (leaf : Bytes) → is_leaf o leaf ≡ true → o ≡ some leaf
is_leaf_sound none leaf e = cc
is_leaf_sound (some b) leaf e = ap some ((text_eq_iff b leaf).0 e)

root_some : (leaves : List Bytes) → leaves ≢ [] → (r : Bytes) × (root_of leaves ≡ some r)
root_some [] ne = absurd (ne refl)
root_some (b ∷ bs) ne = (encode (b ∷ bs), refl)

pub plain_merkle-IsLawful : Merkle.IsLawful plain_merkle
plain_merkle-IsLawful = record {
  root-nil = refl;
  root_some = root_some;
  complete = λ leaves i {r} {leaf} e found. (
    i ∷ [],
    refl,
    ap (λ o. is_leaf o leaf)
          (ap (leaf_at i) (root-encode leaves e) ∙ leaf_at-encode leaves i ∙ found)
        ∙ text_eq_refl leaf,
  );
  sound = λ leaves p i {r} {leaf} e passes.
      sym (ap (leaf_at i) (root-encode leaves e) ∙ leaf_at-encode leaves i)
      ∙ is_leaf_sound (leaf_at i r) leaf passes;
  hash-injective = λ a b e. e;
}
