-- ===== src/Grpc/Download.antt =====
-- `download_file` of src/app/grpc/server.rs.
pub mod Laws
use rust_dfs.Base.{ℕ, Bool, Option, none, some, ◌++◌}
use rust_dfs.Base.{Result, ok, err, map_err, Exec, pure, query, lift, ◌>>=◌, ◌>>◌}
use rust_dfs.Base.Text.{Text, text}
use rust_dfs.Base.Decimal.{show_nat}
use rust_dfs.Base.Paths.{PathBuf, path_of, join}
use rust_dfs.Domain.{
  FileMetadata, Sha256Hasher, key, get_chunks_dir_name_prefix, PendingDownloadRecord,
  new_pending_download, P2pCommand, request_metadata, provide_metadata,
}
use rust_dfs.Domain.Keys.{from_u64}
use rust_dfs.Store.Codec.{Cbor}
use rust_dfs.Store.Interface.{FileStore}
use rust_dfs.Processing.Fs.{Fs}
use rust_dfs.Processing.Publish.{ok_or, save_metadata}
use rust_dfs.Processing.Directory.{ensure_dir_exists_or_create}
use rust_dfs.Grpc.State.{
  Status, already_exists, internal, from_io, Display, Node, on_files, on_records, send, refuse_if,
}

-- What the channels do: are the two commands taken, and what comes back over the oneshot channel
-- (an error: its sender was dropped).
pub record Replies : Type 0 where
  pub request_sent : Bool
  pub answer : Result Text (Option FileMetadata)
  pub provide_sent : Bool

module _ (fs : Fs) (S : FileStore) (h : Sha256Hasher) (codec : Cbor FileMetadata)
    (show : Display) where
  -- The two tests at the start.
  unfoldable pub check_new : ℕ → Exec (Node fs S) Status Unit
  check_new file_id = do
    published ←
        on_records fs S (λ e. internal (show.store_error e))
          (query (S.published_file_exists (from_u64 file_id)))
    refuse_if fs S published
        (already_exists (text "file " ++ (show_nat file_id ++ text " is already provided")))
    pending ←
        on_records fs S (λ e. internal (show.store_error e))
          (query (S.pending_download_exists (from_u64 file_id)))
    refuse_if fs S pending
        (already_exists (text "file " ++ (show_nat file_id ++ text " is getting downloaded now")))

  -- From the directory of the download to the answer of the event loop.
  unfoldable pub receive_metadata : Replies → ℕ → ℕ → PathBuf → Exec (Node fs S) Status FileMetadata
  unfolding ensure_dir_exists_or_create
  receive_metadata r channel file_id download_path = do
    on_files fs S internal (ensure_dir_exists_or_create fs download_path)
    send fs S r.request_sent (request_metadata (record { file_id = file_id }) channel)
        (text "failed to send P2pCommand::RequestMetadata")
    received ← lift (map_err (λ _. internal (text "failed to receive metadata response")) r.answer)
    lift (ok_or (internal (text "missing metadata file")) received)

  -- The metadata with the directory that the chunks get here.
  unfoldable pub placed : PathBuf → FileMetadata → FileMetadata
  unfolding get_chunks_dir_name_prefix
  placed download_path m = record m {
    chunks_dir = join download_path (get_chunks_dir_name_prefix m ++ text "_chunks");
  }

  -- The record of a download that has no chunk yet.
  unfoldable pub pending_of : FileMetadata → PendingDownloadRecord
  unfolding key new_pending_download
  pending_of m = new_pending_download (key h m) m.original_file_name m.chunks_dir

  -- What is done with the metadata.
  unfoldable pub start_download : Bool → PathBuf → FileMetadata → Exec (Node fs S) Status Unit
  unfolding ensure_dir_exists_or_create save_metadata placed pending_of
  start_download provide_sent download_path m = do
    exists ← on_files fs S from_io (query (fs.try_exists (join download_path m.original_file_name)))
    refuse_if fs S exists (already_exists (show.path (join download_path m.original_file_name)))
    on_files fs S internal (ensure_dir_exists_or_create fs (placed download_path m).chunks_dir)
    on_files fs S (λ e. internal (show.processing_error e))
        (save_metadata fs codec (placed download_path m))
    send fs S provide_sent (provide_metadata (placed download_path m))
        (text "failed to provide metadata")
    on_records fs S (λ e. internal (show.store_error e))
        (S.put_pending_download (pending_of (placed download_path m)))

  -- `download_file`. `channel` is the oneshot channel for the metadata.
  unfoldable pub download_file : Replies → ℕ → ℕ → Text → Exec (Node fs S) Status Unit
  unfolding check_new receive_metadata start_download
  download_file r channel file_id download_path = do
    check_new file_id
    m ← receive_metadata r channel file_id (path_of download_path)
    start_download r.provide_sent (path_of download_path) m
