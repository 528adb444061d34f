-- ===== src/Processing/Split/Chunks.antt =====
-- What the chunks of a file are, without the loops: consecutive pieces of one size.
use rust_dfs.Base.{ℕ, zero, suc, ◌≤◌, ◌<◌, ◌≡◌, refl, ap, ◌∙◌}
use rust_dfs.Base.{List, [], ◌∷◌, ◌++◌, length, take, drop, concat, take-append-drop}
use rust_dfs.Base.{length-drop, arith}
use rust_dfs.Base.Text.{Bytes}

unfoldable pub chunks : ℕ → ℕ → Bytes → List Bytes
chunks zero size bs = []
chunks (suc n) size [] = []
chunks (suc n) size (b ∷ bs) = take size (b ∷ bs) ∷ chunks n size (drop size (b ∷ bs))

-- Put together, the chunks are the file.
pub concat-chunks :
    (n size : ℕ) (bs : Bytes) → 0 < size → length bs ≤ n → concat (chunks n size bs) ≡ bs
unfolding chunks
concat-chunks zero size [] h fits = refl
concat-chunks zero size (b ∷ bs) h fits = absurd (omega arith)
concat-chunks (suc n) size [] h fits = refl
concat-chunks (suc n) size (b ∷ bs) h fits =
    ap (λ t. take size (b ∷ bs) ++ t)
      (concat-chunks n size (drop size (b ∷ bs)) h (omega (arith, length-drop size (b ∷ bs))))
    ∙ take-append-drop size (b ∷ bs)

pub chunks-nil : (n size : ℕ) (bs : Bytes) → take size bs ≡ [] → 0 < size → chunks n size bs ≡ []
unfolding chunks
chunks-nil zero size bs e h = refl
chunks-nil (suc n) size [] e h = refl
chunks-nil (suc n) (suc size) (b ∷ bs) e h = cc
chunks-nil (suc n) zero (b ∷ bs) e h = absurd (omega arith)

pub chunks-cons :
    (n size : ℕ) (bs : Bytes) {c : ℕ} {cs : Bytes}
    → take size bs ≡ c ∷ cs
    → chunks (suc n) size bs ≡ (c ∷ cs) ∷ chunks n size (drop size bs)
unfolding chunks
chunks-cons n (suc size) [] e = cc
chunks-cons n zero [] e = cc
chunks-cons n size (b ∷ bs) e = rw e
