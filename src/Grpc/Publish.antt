-- ===== src/Grpc/Publish.antt =====
-- `publish_file` of src/app/grpc/server.rs.
pub mod Laws
use rust_dfs.Base.{ℕ, Bool, ◌++◌}
use rust_dfs.Base.{Result, ok, err, Exec, pure, ◌>>=◌, ◌>>◌}
use rust_dfs.Base.Text.{Text, text}
use rust_dfs.Domain.{FileMetadata, Sha256Hasher, key}
use rust_dfs.Domain.Keys.{to_u64}
use rust_dfs.Store.Codec.{Cbor}
use rust_dfs.Store.Interface.{FileStore}
use rust_dfs.Processing.Fs.{Fs}
use rust_dfs.Processing.Merkle.{Merkle}
use rust_dfs.Processing.Publish.{process_file}
use rust_dfs.Grpc.State.{Status, internal, Display, Node, on_files, on_records}

-- The answer is the id of the file. `rounds` bounds the chunks.
unfoldable pub publish_file :
    (fs : Fs) (S : FileStore)
    → Sha256Hasher
    → Cbor FileMetadata
    → Merkle
    → Display
    → ℕ
    → Text
    → Bool
    → Exec (Node fs S) Status ℕ
unfolding key to_u64
publish_file fs S h codec M show rounds file_path public = do
  m ←
      on_files fs S (λ e. internal (text "failed to split file: " ++ show.processing_error e))
        (process_file fs codec M rounds file_path public)
  on_records fs S (λ e. internal (show.store_error e)) (S.put_file_metadata m)
  pure (to_u64 (key h m))
