-- ===== src/Processing/Split.antt =====
-- `split` of src/app/file_processing/processing.rs: a file is read in chunks of one size, each
-- chunk is written to its own file and hashed.
mod Fill
pub mod Chunks
pub mod Names
pub mod Laws
use rust_dfs.Base.{ℕ, zero, suc, ◌-◌, ◌*◌, List, [], ◌∷◌, ◌++◌, length}
use rust_dfs.Base.{Result, ok, err, Exec}
use rust_dfs.Base.{ltb, if◌then◌else◌}
use rust_dfs.Base.Text.{Bytes, Text, text}
use rust_dfs.Base.Decimal.{show_nat}
use rust_dfs.Base.Paths.{PathBuf, join, dot}
use rust_dfs.Processing.Fs.{Fs}
use rust_dfs.Processing.Merkle.{Merkle}
use rust_dfs.Processing.Errors.{FileProcessingError, io, out_of_fuel}

-- `FILE_CHUNK_EXTENSION`
abbrev pub file_chunk_extension : Text
file_chunk_extension = text "chunk"

-- `CHUNK_SIZE`
unfoldable pub chunk_size : ℕ
chunk_size = 1024 * 1024

-- `format!("{}.{}", chunk, extension)`
unfoldable pub chunk_name : ℕ → Text → Text
chunk_name i extension = show_nat i ++ (dot ∷ extension)

-- The file of a chunk.
unfoldable pub chunk_path : PathBuf → ℕ → Text → PathBuf
unfolding chunk_name
chunk_path dir i extension = join dir (chunk_name i extension)

module _ (fs : Fs) where
  -- The inner loop: read until the buffer holds `size` bytes or nothing comes. Every round adds a
  -- byte at least, so `size` rounds are enough.
  pub fill : ℕ → ℕ → fs.Reader → Bytes → Result Text (Bytes × fs.Reader)
  fill zero size r filled = ok (filled, r)
  fill (suc rounds) size r filled =
      if ltb (length filled) size
      then (elim (fs.read_some r (size - length filled)) [
        | err e ↦ err e
        | ok ([], r') ↦ ok (filled, r')
        | ok (b ∷ bs, r') ↦ fill rounds size r' (filled ++ b ∷ bs)
      ])
      else ok (filled, r)

  module _ (M : Merkle) (size : ℕ) (pieces_dir : PathBuf) where
    -- The outer loop, with one round for each chunk and one for the end of the file.
    unfoldable pub split_loop :
        ℕ → fs.Reader → List Bytes → Exec fs.State FileProcessingError (List Bytes)
    unfolding fill
    split_loop zero r leaves s = (err out_of_fuel, s)
    split_loop (suc rounds) r leaves s = elim (fill size size r []) [
      | err e ↦ (err (io e), s)
      | ok ([], r') ↦ (ok leaves, s)
      | ok (b ∷ bs, r') ↦
          let (written, s') =
            fs.write (chunk_path pieces_dir (length leaves) file_chunk_extension) (b ∷ bs) s in
          elim written [
            | err e ↦ (err (io e), s')
            | ok _ ↦ split_loop rounds r' (leaves ++ M.hash (b ∷ bs) ∷ []) s'
          ]
    ]

  unfoldable pub split :
      Merkle → ℕ → fs.Reader → PathBuf → Exec fs.State FileProcessingError (List Bytes)
  unfolding split_loop chunk_size
  split M rounds r pieces_dir = split_loop M chunk_size pieces_dir rounds r []
