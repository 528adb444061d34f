-- ===== src/Download/Concurrent/Restored.antt =====
-- From the tasks side by side to the file: `download` and `process_completed` of
-- src/app/file_download_service.rs.
use native.Mathlib.Nat.{zero-add}
use rust_dfs.Base.{ℕ, ◌≡◌, ap, ap₂, ◌∙◌, Bool, true, false, ◌++◌, ◌==◌, List, length, concat, ok}
use rust_dfs.Base.Text.{Bytes, Text, text}
use rust_dfs.Base.Paths.{PathBuf, join, IsPlain}
use rust_dfs.Domain.{FileMetadata, PendingDownloadRecord}
use rust_dfs.Store.Codec.{Cbor}
use rust_dfs.Store.Interface.{FileStore}
use rust_dfs.Processing.Fs.{Fs, IsReliable}
use rust_dfs.Processing.Fs
use rust_dfs.Processing.Merkle.{Merkle}
use rust_dfs.Processing.Merkle
use rust_dfs.Processing.Split.{chunk_path}
use rust_dfs.Processing.Split.Names.{NoSlash}
use rust_dfs.Processing.Restore.{restore_original_file}
use rust_dfs.Processing.Restore.Laws.{restore_original_file_lem}
use rust_dfs.Download.Verify.{IsTreeOf}
use rust_dfs.Download.Service.{process_completed}
use rust_dfs.Download.Service.Download.{outcome}
use rust_dfs.Download.Service.Laws.Run.{IsTrusted}
use rust_dfs.Download.Service.Laws.Complete.{files-process_completed}
use rust_dfs.Download.Concurrent.{Tasks, spawn_tasks, Reach}
use rust_dfs.Download.Concurrent.Complete.{sound, interleaved_complete}

module _ (fs : Fs) (F : Fs.IsLawful fs) (S : FileStore) (codec : Cbor FileMetadata) (M : Merkle)
    (ML : Merkle.IsLawful M) (m : FileMetadata) (pieces : List Bytes)
    (t : IsTreeOf M m.merkle_root m.total_chunks pieces) (plain : NoSlash m.chunk_file_extension)
    (r : PendingDownloadRecord) (permits elsewhere : ℕ) (files : fs.State) (records : S.State)
    (trusted : IsTrusted fs F S codec M ML m pieces t plain r files) (u : Tasks fs S)
    (reached : Reach fs S codec M
      (spawn_tasks fs S codec M r (length m.merkle_proofs) permits elsewhere files records)
      u)
    (proofs : length m.merkle_proofs ≡ m.total_chunks)
    (complete : outcome u.progress.first_error
        (length u.progress.pending.downloaded_chunks == length m.merkle_proofs)
      ≡ ok true)
    (R : IsReliable fs) (base : PathBuf) (sub : Text) (dir : r.chunks_dir ≡ join base sub)
    (own : m.chunks_dir ≡ r.chunks_dir) (plain_sub : IsPlain sub)
    (plain_part : IsPlain (m.original_file_name ++ text ".part"))
    (absent : fs.try_exists (join base m.original_file_name) u.progress.files ≡ ok false) where
  restored :
      ((restore_original_file fs codec u.progress.pending u.progress.files).0 ≡ ok m)
      × (fs.read
            (join base m.original_file_name)
            (restore_original_file fs codec u.progress.pending u.progress.files).1
          ≡ ok (concat pieces))
  restored =
      let good =
        sound fs F S codec M ML m pieces t plain r permits elsewhere files records trusted u
          reached in
      let (raw, stored, decoded) = good.inv.has_metadata in
      restore_original_file_lem fs F R codec u.progress.pending m base sub raw pieces
        u.progress.files stored decoded (own ∙ dir) plain_sub plain_part plain absent t.total_of
        λ j c e.
          ap₂ (λ p k. fs.read (chunk_path p k m.chunk_file_extension) u.progress.files) own
            (zero-add j)
          ∙ interleaved_complete fs F S codec M ML m pieces t plain r permits elsewhere files
              records trusted u reached proofs complete j c e

  -- When `download` says that the file is complete, however its tasks took turns with each other and
  -- with the rest of the program, `process_completed` leaves, beside the directory of the chunks, the
  -- very file that was published, and it does so even if the store or the channel fails then. Beyond
  -- what the download needs, no call that writes may fail, the directory must be the one that the
  -- metadata names and have a plain name, the name of the file followed by `.part` must be plain,
  -- and no such file may exist yet.
  pub interleaved_restores :
      (sent : Bool)
      → fs.read
          (join base m.original_file_name)
          (process_completed fs S codec sent u.progress.pending
            (u.progress.files, u.progress.records)).1.0
        ≡ ok (concat pieces)
  interleaved_restores sent =
      let (done, content) = restored in
      ap (fs.read (join base m.original_file_name)) (
        files-process_completed fs S codec sent u.progress.pending u.progress.files
          u.progress.records done)
      ∙ content
