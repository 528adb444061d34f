-- ===== src/Download/Chunk.antt =====
-- One chunk: `download_file_chunk` and `verify_and_save_file_chunk` of
-- src/app/file_download_service.rs. What the command channel and the peer answer is given.
pub mod Laws
use rust_dfs.Base.{ℕ, Bool, true, false, Option, none, some, List, [], ◌∷◌, get_elem?}
use rust_dfs.Base.{if◌then◌else◌}
use rust_dfs.Base.{Result, ok, err, map_err, Exec, pure, fail, query, lift, wrap_err, ◌>>=◌, ◌>>◌}
use rust_dfs.Base.Text.{Bytes, Text, text}
use rust_dfs.Base.Paths.{join}
use rust_dfs.Domain.{FileMetadata, FileResponse, success, not_found, error, DownloadFileChunk}
use rust_dfs.Store.Codec.{Cbor}
use rust_dfs.Processing.Fs.{Fs}
use rust_dfs.Processing.Merkle.{Merkle}
use rust_dfs.Processing.Split.{chunk_path}
use rust_dfs.Processing.Publish.{metadata_file_name, ok_or}
use rust_dfs.Download.Verify.{verify_chunk}

-- Is the request sent, what comes back over the oneshot channel (an error: its sender was
-- dropped), and is the command to provide the chunk sent. A request that is never answered, since its
-- sender stays in the maps of the event loop, has no `Answers`: its task goes on waiting.
pub record Answers : Type 0 where
  pub request_sent : Bool
  pub answer : Result Text (Option FileResponse)
  pub provide_sent : Bool

module _ (fs : Fs) (codec : Cbor FileMetadata) (M : Merkle) where
  -- `verify_and_save_file_chunk`
  unfoldable pub verify_and_save_file_chunk : DownloadFileChunk → Bytes → Exec fs.State Text Unit
  verify_and_save_file_chunk d bytes = do
    raw ← query (fs.read (join d.target_dir metadata_file_name))
    m ← lift (codec.from_slice raw)
    proof ← lift (ok_or (text "chunk not found") (get_elem? m.merkle_proofs d.chunk_id))
    is_correct ← lift (verify_chunk M bytes d.chunk_id proof m.merkle_root m.total_chunks)
    if is_correct
        then fs.write (chunk_path d.target_dir d.chunk_id m.chunk_file_extension) bytes
        else fail (text "downloaded chunk is not correct")

  -- `download_file_chunk`: the number of the chunk if it is here and is being provided.
  unfoldable pub download_file_chunk : DownloadFileChunk → Answers → Exec fs.State Text (Option ℕ)
  unfolding verify_and_save_file_chunk
  download_file_chunk d a s =
      if a.request_sent
      then (elim a.answer [
        | err e ↦ (err e, s)
        | ok none ↦ (ok none, s)
        | ok (some (success bytes)) ↦
            (verify_and_save_file_chunk d bytes >>= λ _.
            pure (if a.provide_sent then some d.chunk_id else none))
              s
        | ok (some not_found) ↦ (ok none, s)
        | ok (some (error e)) ↦ (ok none, s)
      ])
      else (err (text "channel closed"), s)
