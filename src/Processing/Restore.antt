-- ===== src/Processing/Restore.antt =====
-- `restore_original_file` of src/app/file_processing/processing.rs. Paths inside of error messages
-- are left out.
pub mod Laws
use rust_dfs.Base.{ℕ, zero, suc, Bool, true, false, ◌++◌}
use rust_dfs.Base.{if◌then◌else◌}
use rust_dfs.Base.{Result, map_err, Exec, pure, fail, query, lift, wrap_err, ◌>>=◌, ◌>>◌}
use rust_dfs.Base.Text.{Text, text}
use rust_dfs.Base.Paths.{PathBuf, join, parent}
use rust_dfs.Domain.{FileMetadata, PendingDownloadRecord}
use rust_dfs.Store.Codec.{Cbor}
use rust_dfs.Processing.Fs.{Fs}
use rust_dfs.Processing.Errors.{FileProcessingError, file_access, io, cbor}
use rust_dfs.Processing.Split.{chunk_path}
use rust_dfs.Processing.Publish.{metadata_file_name, is_file, ok_or}

module _ (fs : Fs) (codec : Cbor FileMetadata) where
  -- The `.metadata` file of a directory.
  unfoldable pub read_metadata : PathBuf → Exec fs.State FileProcessingError FileMetadata
  read_metadata dir = do
    bytes ← query (λ s. map_err io (fs.read (join dir metadata_file_name) s))
    lift (map_err cbor (codec.from_slice bytes))

  -- The loop over `chunk`, with the number of rounds left.
  unfoldable pub copy_chunks :
      FileMetadata → ℕ → ℕ → fs.Writer → Exec fs.State FileProcessingError fs.Writer
  copy_chunks m zero chunk w = pure w
  copy_chunks m (suc left) chunk w = do
    chunk_bytes ←
        query λ s. map_err io (fs.read (chunk_path m.chunks_dir chunk m.chunk_file_extension) s)
    w' ← wrap_err io (fs.write_all w chunk_bytes)
    copy_chunks m left (suc chunk) w'

  -- The `.part` file is filled, and takes the place of the file.
  unfoldable pub write_original :
      FileMetadata → PathBuf → PathBuf → Exec fs.State FileProcessingError FileMetadata
  unfolding copy_chunks
  write_original m tmp_path file_path = do
    writer ← wrap_err io (fs.create tmp_path)
    buf_writer ← copy_chunks m m.total_chunks 0 writer
    wrap_err io (fs.flush buf_writer)
    wrap_err io (fs.rename tmp_path file_path)
    pure m

  -- `restore_original_file`
  unfoldable pub restore_original_file :
      PendingDownloadRecord → Exec fs.State FileProcessingError FileMetadata
  unfolding read_metadata write_original
  restore_original_file r = do
    m ← read_metadata r.chunks_dir
    parent_dir ← lift (ok_or (file_access (text "cannot get parent dir")) (parent m.chunks_dir))
    let file_path = join parent_dir m.original_file_name
    exists ← query (λ s. map_err io (fs.try_exists file_path s))
    if exists
        then (do
          kind ← query (λ s. map_err io (fs.metadata file_path s))
          if is_file kind
              then pure m
              else fail (file_access (text "already exists but not a file")))
        else write_original m (join parent_dir (m.original_file_name ++ text ".part")) file_path
