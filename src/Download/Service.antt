-- ===== src/Download/Service.antt =====
-- `process_completed` of src/app/file_download_service.rs: a download that has all its chunks
-- becomes a published file.
pub mod Download
pub mod Laws
use rust_dfs.Base.{Bool, true, false, if◌then◌else◌}
use rust_dfs.Base.{Result, ok, err, Exec, pure, fail, ◌>>=◌, ◌>>◌, map_err}
use rust_dfs.Domain.{FileMetadata, PendingDownloadRecord, PublishedFileRecord}
use rust_dfs.Store.Codec.{Cbor}
use rust_dfs.Store.Interface.{FileStore, StoreError}
use rust_dfs.Processing.Fs.{Fs}
use rust_dfs.Processing.Errors.{FileProcessingError}
use rust_dfs.Processing.Restore.{restore_original_file}

-- What the `anyhow::Error` holds.
pub data CompletionError : Type 0 where
  processing : FileProcessingError → CompletionError
  store : StoreError → CompletionError
  send_failed : CompletionError

module _ (fs : Fs) (S : FileStore) (codec : Cbor FileMetadata) where
  abbrev on_files :
      Exec fs.State FileProcessingError FileMetadata
      → Exec (fs.State × S.State) CompletionError FileMetadata
  on_files f (files, records) =
      let (r, files') = f files in (map_err processing r, (files', records))

  abbrev on_records : Exec S.State StoreError Unit → Exec (fs.State × S.State) CompletionError Unit
  on_records f (files, records) =
      let (r, records') = f records in (map_err store r, (files, records'))

  -- The record that `process_completed` publishes.
  unfoldable pub completed_record : PendingDownloadRecord → FileMetadata → PublishedFileRecord
  completed_record r m = record {
    key = r.key;
    original_file_name = r.original_file_name;
    chunks_dir = r.chunks_dir;
    public = m.public;
  }

  -- `process_completed`. The result is the metadata that is sent to be provided; `sent` says
  -- whether the command's channel is open.
  unfoldable pub process_completed :
      Bool → PendingDownloadRecord → Exec (fs.State × S.State) CompletionError FileMetadata
  unfolding completed_record
  process_completed sent r = do
    m ← on_files (restore_original_file fs codec r)
    on_records (S.put_published_file (completed_record r m))
    on_records (S.delete_pending_download r.key)
    if sent then pure m else fail send_failed
