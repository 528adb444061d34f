-- ===== src/Processing/Split/Names.antt =====
-- The names of the chunk files (src/app/file_processing/processing.rs) never clash.
use mathlib.Core.List.{append_cancel_right}
use rust_dfs.Base.{ℕ, ◌≤◌, ◌≡◌, ◌≢◌, sym, ap, List, [], ◌∷◌, ◌++◌, length, length-append, arith}
use rust_dfs.Base.{All, All-append}
use rust_dfs.Base.Text.{Text, text}
use rust_dfs.Base.Decimal.{
  show_nat, show_nat-injective, show_nat-IsDigit, show_nat_not_empty, IsDigit,
}
use rust_dfs.Base.Paths.{PathBuf, IsPlain, join, join-injective, dot}
use rust_dfs.Processing.Split.{chunk_name, chunk_path}

abbrev metadata_name : Text
metadata_name = text ".metadata"

All-map {ℓ κ μ} :
    {A : Type ℓ} {P : A → Type κ} {Q : A → Type μ} (xs : List A)
    → ((a : A) → P a → Q a)
    → All P xs
    → All Q xs
All-map [] f h = tt
All-map (x ∷ xs) f h = (f x h.0, All-map xs f h.1)

abbrev pub NoSlash : Text → Type 0
NoSlash = All (λ c. c ≢ b'/')

pub chunk_name-IsPlain :
    (i : ℕ) (extension : Text) → NoSlash extension → IsPlain (chunk_name i extension)
unfolding chunk_name
chunk_name-IsPlain i extension h =
    let long : 2 ≤ length (show_nat i ++ (dot ∷ extension)) =
      omega (arith, length-append (show_nat i) (dot ∷ extension), show_nat_not_empty i) in
    record {
      no_slash =
          All-append (λ c. c ≢ b'/') (show_nat i) (dot ∷ extension)
            (All-map (show_nat i) (λ (c : ℕ) (d : IsDigit c). λ e. omega arith)
              (show_nat-IsDigit i))
            (omega arith, h);
      not_empty = λ e. omega (arith, ap length e);
      not_dot = λ e. omega (arith, ap length e);
    }

-- Chunks of different numbers are different files.
pub chunk_path-injective :
    (dir : PathBuf) (i j : ℕ) (extension : Text)
    → NoSlash extension
    → chunk_path dir i extension ≡ chunk_path dir j extension
    → i ≡ j
unfolding chunk_path
chunk_path-injective dir i j extension h e = show_nat-injective i j (
    append_cancel_right _ _ (dot ∷ extension) (
      join-injective dir _ _ (chunk_name-IsPlain i extension h) (chunk_name-IsPlain j extension h)
        e))

abbrev first_of_text : Text → ℕ
first_of_text [] = 0
first_of_text (c ∷ cs) = c

digits_ne_dot : (ds t : Text) → All IsDigit ds → 1 ≤ length ds → ds ++ t ≢ metadata_name
digits_ne_dot [] t h l e = absurd (omega arith)
digits_ne_dot (d ∷ ds) t h l e = absurd (omega (arith, ap first_of_text e))

pub metadata_name-IsPlain : IsPlain metadata_name
metadata_name-IsPlain = record {
  no_slash = omega arith;
  not_empty = λ e. absurd (omega (arith, ap length e));
  not_dot = λ e. absurd (omega (arith, ap length e));
}

-- The metadata file is no chunk file.
pub metadata_ne_chunk :
    (dir : PathBuf) (i : ℕ) (extension : Text)
    → NoSlash extension
    → join dir metadata_name ≢ chunk_path dir i extension
unfolding chunk_path chunk_name
metadata_ne_chunk dir i extension h e =
    digits_ne_dot (show_nat i) (dot ∷ extension) (show_nat-IsDigit i) (show_nat_not_empty i)
      (sym (join-injective dir _ _ metadata_name-IsPlain (chunk_name-IsPlain i extension h) e))
