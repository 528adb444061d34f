-- ===== src/Download/Concurrent/Beside.antt =====
-- Two downloads (src/app/file_download_service.rs) that work in different directories.
use rust_dfs.Base.{ℕ, suc, ◌≡◌, ◌≢◌, sym, ap, ◌∙◌, List, arith}
use mathlib.Core.Option.{some-injective}
use rust_dfs.Base.Text.{Bytes, Text}
use rust_dfs.Base.Paths.{IsPlain, join, parent, parent-join}
use rust_dfs.Domain.{FileMetadata, DownloadFileChunk}
use rust_dfs.Store.Codec.{Cbor}
use rust_dfs.Store.Interface.{FileStore}
use rust_dfs.Processing.Fs.{Fs}
use rust_dfs.Processing.Fs
use rust_dfs.Processing.Merkle.{Merkle}
use rust_dfs.Processing.Merkle
use rust_dfs.Processing.Split.{chunk_path}
use rust_dfs.Processing.Split.Names.{NoSlash, chunk_name-IsPlain}
use rust_dfs.Download.Verify.{IsTreeOf}
use rust_dfs.Download.Chunk.{Answers, download_file_chunk}
use rust_dfs.Download.Chunk.Laws.{HasMetadata, download_file_chunk_keeps}
use rust_dfs.Download.Concurrent.{Tasks, Step, other}

module _ (fs : Fs) (F : Fs.IsLawful fs) (S : FileStore) (codec : Cbor FileMetadata) (M : Merkle)
    (ML : Merkle.IsLawful M) (m : FileMetadata) (pieces : List Bytes)
    (t : IsTreeOf M m.merkle_root m.total_chunks pieces) (plain : NoSlash m.chunk_file_extension)
    (d : DownloadFileChunk) (a : Answers) (u : Tasks fs S)
    (has_metadata : HasMetadata fs F codec M ML d.target_dir m u.progress.files)
    (elsewhere : d.target_dir ≢ u.progress.pending.chunks_dir) where
  abbrev files_after : fs.State
  files_after = (download_file_chunk fs codec M d a u.progress.files).1

  path_apart :
      (name : Text)
      → IsPlain name
      → join u.progress.pending.chunks_dir name
        ≢ chunk_path d.target_dir d.chunk_id m.chunk_file_extension
  unfolding chunk_path
  path_apart name h e = elsewhere (
      some-injective _ _ (
        sym
          (parent-join d.target_dir _ (chunk_name-IsPlain d.chunk_id m.chunk_file_extension plain))
        ∙ ap parent (sym e)
        ∙ parent-join u.progress.pending.chunks_dir name h))

  -- What the task of another download does, until it gives its permit back, is a step of the rest of
  -- the program for this one: it touches no file in this directory, whatever its peer answers. Its
  -- directory is another one, and holds the metadata of its own file.
  pub beside-Step :
      (left : ℕ)
      → u.elsewhere ≡ suc left
      → Step fs S codec M u (record u {
        permits = suc u.permits;
        elsewhere = left;
        progress = record u.progress { files = files_after };
      })
  beside-Step left held =
      other (suc u.permits) left files_after u.progress.records (omega (arith, held)) (λ name h.
        download_file_chunk_keeps fs F codec M ML m pieces t d a u.progress.files _ has_metadata
          (path_apart name h))
