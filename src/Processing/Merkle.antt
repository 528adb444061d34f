-- ===== src/Processing/Merkle.antt =====
-- The crate rs_merkle with SHA-256: hashes, roots and proofs of inclusion.
use rust_dfs.Base.{ℕ, ◌≡◌, ◌≢◌, Bool, true, Option, none, some, List, []}
use rust_dfs.Base.{length, get_elem?}
use rust_dfs.Base.Text.{Bytes}

pub record Merkle : Type 1 where
  pub Proof : Type 0
  -- `Sha256::hash`
  pub hash : Bytes → Bytes
  -- `MerkleTree::from_leaves(leaves).root()`
  pub root : List Bytes → Option Bytes
  -- `tree.proof(&[index]).to_bytes()`
  pub proof : List Bytes → ℕ → Bytes
  -- `MerkleProof::from_bytes`
  pub from_bytes : Bytes → Option Proof
  -- `proof.verify(root, &[index], &[leaf], total_leaves)`
  pub verify : Proof → Bytes → ℕ → Bytes → ℕ → Bool

-- A tree without leaves has no root, a proof that the tree gives is accepted, and, as long as no
-- two texts with one hash are found, no proof is accepted for anything that is not in the tree.
pub record IsLawful (M : Merkle) : Type 0 where
  pub root-nil : M.root [] ≡ none
  pub root_some : (leaves : List Bytes) → leaves ≢ [] → (r : Bytes) × (M.root leaves ≡ some r)
  pub complete :
      (leaves : List Bytes) (i : ℕ) {r leaf : Bytes}
      → M.root leaves ≡ some r
      → get_elem? leaves i ≡ some leaf
      → (p : M.Proof) × (M.from_bytes (M.proof leaves i) ≡ some p)
        × (M.verify p r i leaf (length leaves) ≡ true)
  pub sound :
      (leaves : List Bytes) (p : M.Proof) (i : ℕ) {r leaf : Bytes}
      → M.root leaves ≡ some r
      → M.verify p r i leaf (length leaves) ≡ true
      → get_elem? leaves i ≡ some leaf
  pub hash-injective : (a b : Bytes) → M.hash a ≡ M.hash b → a ≡ b
