-- ===== src/Download/Verify.antt =====
-- `verify_chunk` of src/app/utils.rs.
use mathlib.Core.Option.{some-injective}
use rust_dfs.Base.{ℕ, zero, suc, [], ◌∷◌, ◌≡◌, refl, Bool, true, none, some, List, map, arith}
use rust_dfs.Base.{length, length-map, get_elem?, get_elem?-map, ◌∙◌, Option-cases, inl, inr}
use rust_dfs.Base.Text.{Bytes, Text, text}
use rust_dfs.Base.{Result, ok, err}
use rust_dfs.Processing.Merkle.{Merkle}
use rust_dfs.Processing.Merkle

module _ (M : Merkle) where
  -- The `unwrap` of a proof that cannot be read is a panic, here an error.
  unfoldable pub verify_chunk : Bytes → ℕ → Bytes → Bytes → ℕ → Result Text Bool
  verify_chunk chunk index proof_bytes root total_leaves = elim (M.from_bytes proof_bytes) [
    | none ↦ err (text "panic")
    | some proof ↦ ok (M.verify proof root index (M.hash chunk) total_leaves)
  ]

-- `pieces` are the chunks of the file that was published with this root and number of chunks.
pub record IsTreeOf (M : Merkle) (root : Bytes) (total : ℕ) (pieces : List Bytes) : Type 0 where
  pub root_of : M.root (map M.hash pieces) ≡ some root
  pub total_of : length pieces ≡ total

module _ (M : Merkle) (L : Merkle.IsLawful M) where
  hash_at :
      (pieces : List Bytes) (i : ℕ) {h : Bytes}
      → get_elem? (map M.hash pieces) i ≡ some h
      → (c : Bytes) × (get_elem? pieces i ≡ some c) × (M.hash c ≡ h)
  hash_at [] i e = cc
  hash_at (p ∷ pieces) zero e = (p, refl, some-injective _ _ e)
  hash_at (p ∷ pieces) (suc i) e = hash_at pieces i e

  -- Whatever proof comes with it, a chunk passes the test against the root and the number of the
  -- published chunks only if it is the published chunk of its number.
  pub verify_chunk_sound :
      (pieces : List Bytes) (root : Bytes) (total : ℕ) (chunk proof : Bytes) (i : ℕ)
      → IsTreeOf M root total pieces
      → verify_chunk M chunk i proof root total ≡ ok true
      → get_elem? pieces i ≡ some chunk
  unfolding verify_chunk
  verify_chunk_sound pieces root total chunk proof i t e =
      elim (Option-cases (M.from_bytes proof)) [
        | inl bad ↦ absurd (ground arith)
        | inr (p, read) ↦
            let total' : length (map M.hash pieces) ≡ total =
              length-map M.hash pieces ∙ t.total_of in
            let at : get_elem? (map M.hash pieces) i ≡ some (M.hash chunk) =
              L.sound (map M.hash pieces) p i t.root_of (rw total' (ground arith)) in
            let (c, found, same) = hash_at pieces i at in
            rw (L.hash-injective c chunk same) at found
      ]

  -- The published chunk passes with the proof that was published for it.
  pub verify_chunk_complete :
      (pieces : List Bytes) (root : Bytes) (total : ℕ) (chunk : Bytes) (i : ℕ)
      → IsTreeOf M root total pieces
      → get_elem? pieces i ≡ some chunk
      → verify_chunk M chunk i (M.proof (map M.hash pieces) i) root total ≡ ok true
  unfolding verify_chunk
  verify_chunk_complete pieces root total chunk i t e =
      let total' : length (map M.hash pieces) ≡ total = length-map M.hash pieces ∙ t.total_of in
      let (p, read, passes) =
        L.complete (map M.hash pieces) i t.root_of (get_elem?-map M.hash pieces i e) in
      ground (arith, read, passes, total')
