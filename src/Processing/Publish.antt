-- ===== src/Processing/Publish.antt =====
-- `process_file` of src/app/file_processing/processing.rs, and `save_metadata` of
-- src/app/utils.rs. Paths inside of error messages are left out.
pub mod Laws
pub mod Place
pub mod Ends
use rust_dfs.Base.{ℕ, Bool, true, false, Option, none, some, ◌++◌, map}
use rust_dfs.Base.{length, range, if◌then◌else◌}
use rust_dfs.Base.{Result, ok, err, map_err, Exec, pure, fail, query, lift, wrap_err, ◌>>=◌, ◌>>◌}
use rust_dfs.Base.Text.{Text, text, replace}
use rust_dfs.Base.Paths.{PathBuf, path_of, join, parent, file_name, dot}
use rust_dfs.Domain.{FileMetadata}
use rust_dfs.Store.Codec.{Cbor}
use rust_dfs.Processing.Fs.{Fs, FileKind, file, dir, special}
use rust_dfs.Processing.Merkle.{Merkle}
use rust_dfs.Processing.Errors.{FileProcessingError, file_access, io, merkle_tree_creation, cbor}
use rust_dfs.Processing.Split.{split, file_chunk_extension}

-- `METADATA_FILE_NAME`
abbrev pub metadata_file_name : Text
metadata_file_name = text ".metadata"

abbrev pub is_file : FileKind → Bool
is_file file = true
is_file dir = false
is_file special = false

abbrev pub is_dir : FileKind → Bool
is_dir file = false
is_dir dir = true
is_dir special = false

-- `option.ok_or(error)`
abbrev pub ok_or {ℓ} : {E A : Type ℓ} → E → Option A → Result E A
ok_or e none = err e
ok_or e (some a) = ok a

module _ (fs : Fs) (codec : Cbor FileMetadata) where
  -- The `BufWriter` is dropped with what it still holds: the flush goes unnoticed if it fails.
  drop_writer : fs.Writer → Exec fs.State FileProcessingError Unit
  drop_writer w s = (ok tt, (fs.flush w s).1)

  -- `save_blocking`, which `save_metadata` calls on a thread of its own
  unfoldable pub save_metadata : FileMetadata → Exec fs.State FileProcessingError FileMetadata
  unfolding drop_writer
  save_metadata result = do
    writer ← wrap_err io (fs.create (join result.chunks_dir metadata_file_name))
    bytes ← lift (map_err cbor (codec.to_vec result))
    written ← wrap_err cbor (fs.write_all writer bytes)
    drop_writer written
    pure result

  -- What follows the test that the path is a file. `rounds` bounds the chunks.
  unfoldable pub process_opened :
      Merkle → ℕ → PathBuf → fs.Reader → Bool → Exec fs.State FileProcessingError FileMetadata
  unfolding split save_metadata
  process_opened M rounds file_path reader public = do
    containing_dir ← lift (ok_or (file_access (text "cannot get parent dir")) (parent file_path))
    name ← lift (ok_or (file_access (text "cannot get file name")) (file_name file_path))
    let chunks_dir = join containing_dir (replace dot b'_' name ++ text "_chunks")
    wrap_err io (fs.create_dir_all chunks_dir)
    leaves ← split fs M rounds reader chunks_dir
    merkle_root ←
        lift (ok_or (merkle_tree_creation (text "cannot get merkle root")) (M.root leaves))
    save_metadata (record {
      original_file_name = name;
      total_chunks = length leaves;
      chunks_dir = chunks_dir;
      merkle_root = merkle_root;
      merkle_proofs = map (M.proof leaves) (range (length leaves));
      chunk_file_extension = file_chunk_extension;
      public = public;
    })

  -- `process_file`
  unfoldable pub process_file :
      Merkle → ℕ → Text → Bool → Exec fs.State FileProcessingError FileMetadata
  unfolding process_opened
  process_file M rounds file_path public = do
    kind ← query (λ s. map_err io (fs.metadata (path_of file_path) s))
    if is_file kind
        then (do
          reader ← query (λ s. map_err io (fs.open_file (path_of file_path) s))
          process_opened M rounds (path_of file_path) reader public)
        else fail (file_access (text "Not a file"))
