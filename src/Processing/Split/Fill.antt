-- ===== src/Processing/Split/Fill.antt =====
-- One chunk: the inner loop of `split` (src/app/file_processing/processing.rs), whatever sizes the
-- single reads have.
use mathlib.Core.List.{append_assoc, append-nil}
use rust_dfs.Base.{ℕ, zero, suc, ◌+◌, ◌-◌, ◌≤◌, ◌≡◌, refl, sym, ap, ◌∙◌, ◌⊎◌, inl, inr}
use rust_dfs.Base.{[], ◌∷◌, ◌++◌, length, take, drop, length-append, arith}
use rust_dfs.Base.{
  take_of_length, drop_of_length, take_of_le, drop_of_le, Result-cases, ok, Bool-cases, ltb,
}
use rust_dfs.Base.Text.{Bytes}
use rust_dfs.Processing.Fs.{Fs, IsReliable}
use rust_dfs.Processing.Fs
use rust_dfs.Processing.Split.{fill}

module _ (fs : Fs) (L : Fs.IsLawful fs) where
  -- Nothing is lost, and the buffer is full or the file at its end.
  abbrev Filled : ℕ → fs.Reader → Bytes → Bytes → fs.Reader → Type 0
  Filled size r filled out r' =
      (out ++ L.rest r' ≡ filled ++ L.rest r)
      × (length out ≤ size)
      × ((length out ≡ size) ⊎ (L.rest r' ≡ []))

  fill-Filled :
      (rounds size : ℕ) (r : fs.Reader) (filled out : Bytes) (r' : fs.Reader)
      → fill fs rounds size r filled ≡ ok (out, r')
      → length filled ≤ size
      → size ≤ length filled + rounds
      → Filled size r filled out r'
  unfolding fill
  fill-Filled zero size r filled out r' e fits full = ground arith
  fill-Filled (suc rounds) size r filled out r' e fits full =
      elim (Result-cases (fs.read_some r (size - length filled))) [
        | inl (([], r₁), got) ↦ ground (arith, L.read_some_next r (size - length filled) got)
        | inl ((b ∷ bs, r₁), got) ↦ ground (
          arith,
          L.read_some_next r (size - length filled) got,
          length-append filled (b ∷ bs),
          append_assoc filled (b ∷ bs) (L.rest r₁),
          fill-Filled rounds size r₁ (filled ++ b ∷ bs) out r',
        )
        | inr (_, failed) ↦ ground arith
      ]

  -- A chunk is the next `size` bytes, or what is left of the file.
  pub fill-take :
      (size : ℕ) (r : fs.Reader) (out : Bytes) (r' : fs.Reader)
      → fill fs size size r [] ≡ ok (out, r')
      → (out ≡ take size (L.rest r)) × (L.rest r' ≡ drop size (L.rest r))
  fill-take size r out r' e =
      let (parts, fits, full) = fill-Filled size size r [] out r' e (omega arith) (omega arith) in
      elim full [
        | inl n ↦ (
          sym (take_of_length size out (L.rest r') n) ∙ ap (take size) parts,
          sym (drop_of_length size out (L.rest r') n) ∙ ap (drop size) parts,
        )
        | inr done ↦
            let all : out ≡ L.rest r =
              sym (append-nil out) ∙ ap (λ t. out ++ t) (sym done) ∙ parts in
            let short : length (L.rest r) ≤ size = rw (← all) fits in
            (
              all ∙ sym (take_of_le size (L.rest r) short),
              done ∙ sym (drop_of_le size (L.rest r) short),
            )
      ]

module _ (fs : Fs) (R : IsReliable fs) where
  pub fill_ok :
      (rounds size : ℕ) (r : fs.Reader) (filled : Bytes)
      → (out : Bytes) × (r' : fs.Reader) × (fill fs rounds size r filled ≡ ok (out, r'))
  unfolding fill
  fill_ok zero size r filled = (filled, r, refl)
  fill_ok (suc rounds) size r filled =
      let (b, r', got) = R.read_some_ok r (size - length filled) in
      go b r' got (fill_ok rounds size r')
    where
      go :
          (b : Bytes) (r' : fs.Reader)
          → fs.read_some r (size - length filled) ≡ ok (b, r')
          → ((more : Bytes)
              → (out : Bytes) × (r₁ : fs.Reader) × (fill fs rounds size r' more ≡ ok (out, r₁)))
          → (out : Bytes) × (r₁ : fs.Reader) × (fill fs (suc rounds) size r filled ≡ ok (out, r₁))
      go [] r' got ih = elim (Bool-cases (ltb (length filled) size)) [
        | inl t ↦ (filled, r', rw (t, got))
        | inr t ↦ (filled, r, rw t)
      ]
      go (b ∷ bs) r' got ih = elim (Bool-cases (ltb (length filled) size)) [
        | inl t ↦ let (out, r₁, e) = ih (filled ++ b ∷ bs) in (out, r₁, rw (t, got) e)
        | inr t ↦ (filled, r, rw t)
      ]
