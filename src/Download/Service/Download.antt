-- ===== src/Download/Service/Download.antt =====
-- `download` of src/app/file_download_service.rs. Its tasks run one after the other, in the order
-- in which they are joined; Download.Concurrent has them take turns. Every
-- request is answered here; there, a task whose request is not answered stays where it is. The semaphore is never closed, so
-- `acquire` does not fail.
use rust_dfs.Base.{ℕ, Bool, Option, none, some, List, [], ◌∷◌}
use rust_dfs.Base.{if◌then◌else◌, ◌==◌, length, range}
use rust_dfs.Base.{Result, ok, err}
use rust_dfs.Base.Text.{Text}
use rust_dfs.Base.Sets.{contains, insert}
use rust_dfs.Base.Paths.{join}
use rust_dfs.Domain.{FileMetadata, PendingDownloadRecord, DownloadFileChunk}
use rust_dfs.Domain.Keys.{to_u64}
use rust_dfs.Store.Codec.{Cbor}
use rust_dfs.Store.Interface.{FileStore}
use rust_dfs.Processing.Fs.{Fs}
use rust_dfs.Processing.Merkle.{Merkle}
use rust_dfs.Processing.Publish.{metadata_file_name}
use rust_dfs.Download.Chunk.{Answers, download_file_chunk}

-- The chunks that are not here yet: those for which a task is spawned.
unfoldable pub missing : PendingDownloadRecord → List ℕ → List ℕ
missing r [] = []
missing r (i ∷ is) =
    let rest = missing r is in if contains r.downloaded_chunks i then rest else i ∷ rest

-- The file system, the store and the record while the tasks are joined, with the first error.
pub record Progress (fs : Fs) (S : FileStore) : Type 0 where
  pub files : fs.State
  pub records : S.State
  pub pending : PendingDownloadRecord
  pub first_error : Option Text

-- `first_error.map(Err).unwrap_or(Ok(done))`
abbrev pub outcome : Option Text → Bool → Result Text Bool
outcome (some e) done = err e
outcome none done = ok done

module _ (fs : Fs) (S : FileStore) (codec : Cbor FileMetadata) (M : Merkle) where
  abbrev first : Option Text → Text → Option Text
  first none e = some e
  first (some old) e = some old

  -- One round of the loop over `join_next`, for the result of a task. A failed store write is
  -- only logged.
  unfoldable pub joined : Result Text (Option ℕ) → Progress fs S → Progress fs S
  joined (err e) p = record p { first_error = first p.first_error e }
  joined (ok none) p = p
  joined (ok (some i)) p =
      if contains p.pending.downloaded_chunks i
      then p
      else let pending = record p.pending {
        downloaded_chunks = insert i p.pending.downloaded_chunks;
      } in
        record p { pending = pending; records = (S.put_pending_download pending p.records).1 }

  unfoldable pub chunk_of : PendingDownloadRecord → ℕ → DownloadFileChunk
  chunk_of r i = record { file_id = to_u64 r.key; chunk_id = i; target_dir = r.chunks_dir }

  -- The task of a chunk, and what is done with its result.
  unfoldable pub run_task : (ℕ → Answers) → ℕ → Progress fs S → Progress fs S
  unfolding joined chunk_of
  run_task answers i p =
      let (result, files) =
        download_file_chunk fs codec M (chunk_of p.pending i) (answers i) p.files in
      joined result (record p { files = files })

  unfoldable pub run_tasks : (ℕ → Answers) → List ℕ → Progress fs S → Progress fs S
  run_tasks answers [] p = p
  run_tasks answers (i ∷ is) p = run_tasks answers is (run_task answers i p)

  -- `download`. `order` says in which order the tasks are joined.
  unfoldable pub download :
      (List ℕ → List ℕ)
      → (ℕ → Answers)
      → PendingDownloadRecord
      → fs.State
      → S.State
      → Result Text Bool × Progress fs S
  unfolding missing run_tasks
  download order answers r files records =
      let start : Progress fs S = record {
        files = files;
        records = records;
        pending = r;
        first_error = none;
      } in
      elim (fs.read (join r.chunks_dir metadata_file_name) files) [
        | err e ↦ (err e, start)
        | ok raw ↦ elim (codec.from_slice raw) [
          | err e ↦ (err e, start)
          | ok m ↦
              let p =
                run_tasks answers (order (missing r (range (length m.merkle_proofs)))) start in
              (
                outcome p.first_error
                    (length p.pending.downloaded_chunks == length m.merkle_proofs),
                p,
              )
        ]
      ]
