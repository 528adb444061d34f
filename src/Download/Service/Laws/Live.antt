-- ===== src/Download/Service/Laws/Live.antt =====
-- When `download` of src/app/file_download_service.rs says that a file is complete.
use rust_dfs.Base.{ℕ, ◌<◌, ◌≡◌, refl, sym, ap, ◌∙◌, true, false, inl, inr, none, some}
use rust_dfs.Base.{
  List, [], ◌∷◌, All, get_elem?, arith, length, map, range, Bool-cases, lt-get_elem?,
}
use rust_dfs.Base.{ok, ◌==◌, ◌||◌, ◌&&◌, not}
use rust_dfs.Base.Text.{Bytes}
use rust_dfs.Base.Sets.{
  contains, insert, contains-insert, Distinct, IsReordering, length-contains, All-of_contains,
  contains-range_from, range_from-Distinct, range_from-contains,
}
use rust_dfs.Domain.{FileMetadata, PendingDownloadRecord, DownloadFileChunk, success}
use rust_dfs.Store.Codec.{Cbor}
use rust_dfs.Store.Interface.{FileStore}
use rust_dfs.Processing.Fs.{Fs, IsReliable}
use rust_dfs.Processing.Fs
use rust_dfs.Processing.Merkle.{Merkle}
use rust_dfs.Processing.Merkle
use rust_dfs.Processing.Split.Names.{NoSlash}
use rust_dfs.Download.Verify.{IsTreeOf, verify_chunk_complete}
use rust_dfs.Download.Chunk.{Answers, verify_and_save_file_chunk, download_file_chunk}
use rust_dfs.Download.Chunk.Laws.{HasMetadata}
use rust_dfs.Download.Service.Download.{
  Progress, chunk_of, joined, run_task, run_tasks, download, missing,
}
use rust_dfs.Download.Service.Laws.Tasks.{Inv}
use rust_dfs.Download.Service.Laws.Run.{
  run_task-Inv, fresh_after, fresh_start, contains-missing, missing-Distinct, IsTrusted, ended,
  ended-Inv, download-ended,
}

module _ (fs : Fs) (F : Fs.IsLawful fs) (R : IsReliable fs) (S : FileStore)
    (codec : Cbor FileMetadata) (M : Merkle) (ML : Merkle.IsLawful M) (m : FileMetadata)
    (pieces : List Bytes) (t : IsTreeOf M m.merkle_root m.total_chunks pieces)
    (plain : NoSlash m.chunk_file_extension) where
  -- The metadata has the proof of each published chunk.
  abbrev pub HasProofs : Type 0
  HasProofs =
      (i : ℕ)
      → i < length pieces
      → get_elem? m.merkle_proofs i ≡ some (M.proof (map M.hash pieces) i)

  -- A provider of each chunk is found and sends it, and all channels are open.
  abbrev pub IsServed : (ℕ → Answers) → Type 0
  IsServed a =
      (i : ℕ)
      → i < length pieces
      → (c : Bytes) × (get_elem? pieces i ≡ some c)
        × (a i
            ≡ record { request_sent = true; answer = ok (some (success c)); provide_sent = true })

  module _ (proofs : HasProofs) (a : ℕ → Answers) (served : IsServed a) where
    saved :
        (d : DownloadFileChunk) (s : fs.State) (c : Bytes)
        → d.chunk_id < length pieces
        → get_elem? pieces d.chunk_id ≡ some c
        → HasMetadata fs F codec M ML d.target_dir m s
        → (verify_and_save_file_chunk fs codec M d c s).0 ≡ ok tt
    unfolding verify_and_save_file_chunk
    saved d s c lt published (raw, stored, decoded) =
        let passes =
          verify_chunk_complete M ML pieces m.merkle_root m.total_chunks c d.chunk_id t published in
        rw (stored, decoded, proofs d.chunk_id lt, passes) (R.write_ok _ c s)

    got :
        (i : ℕ) (p : Progress fs S)
        → i < length pieces
        → HasMetadata fs F codec M ML p.pending.chunks_dir m p.files
        → (download_file_chunk fs codec M (chunk_of fs S codec M p.pending i) (a i) p.files).0
          ≡ ok (some i)
    unfolding download_file_chunk chunk_of
    got i p lt h =
        let (c, published, answered) = served i lt in
        ground (arith, answered, saved (chunk_of fs S codec M p.pending i) p.files c lt published h)

    -- A task adds its number, and nothing else changes.
    task_adds :
        (i : ℕ) (p : Progress fs S)
        → i < length pieces
        → HasMetadata fs F codec M ML p.pending.chunks_dir m p.files
        → contains p.pending.downloaded_chunks i ≡ false
        → ((run_task fs S codec M a i p).first_error ≡ p.first_error)
          × ((run_task fs S codec M a i p).pending.downloaded_chunks
              ≡ insert i p.pending.downloaded_chunks)
    unfolding run_task joined
    task_adds i p lt h new = ground (arith, got i p lt h, new)

    -- All tasks succeed: no error is kept, what was there stays, and every task's number is added.
    tasks_add :
        (is : List ℕ) (p : Progress fs S)
        → Inv fs F S codec M ML m pieces t plain p
        → Distinct is
        → All (λ j. contains p.pending.downloaded_chunks j ≡ false) is
        → All (λ j. j < length pieces) is
        → ((run_tasks fs S codec M a is p).first_error ≡ p.first_error)
          × ((j : ℕ)
              → contains p.pending.downloaded_chunks j ≡ true
              → contains (run_tasks fs S codec M a is p).pending.downloaded_chunks j ≡ true)
          × ((j : ℕ)
              → contains is j ≡ true
              → contains (run_tasks fs S codec M a is p).pending.downloaded_chunks j ≡ true)
    unfolding run_tasks contains
    tasks_add [] p inv d new small = (refl, λ j old. old, λ j no. cc)
    tasks_add (i ∷ is) p inv d new small =
        let (quiet, added) = task_adds i p small.0 inv.has_metadata new.0 in
        let q : Progress fs S = run_task fs S codec M a i p in
        let inv' : Inv fs F S codec M ML m pieces t plain q =
          run_task-Inv fs F S codec M ML m pieces t plain a i p inv new.0 in
        let (still, keeps, adds) =
          tasks_add is q inv' d.1
            (fresh_after fs F S codec M ML m pieces t plain a i is p inv d.0 new.1) small.1 in
        let in_q : (j : ℕ)
            → contains q.pending.downloaded_chunks j
              ≡ (i == j || contains p.pending.downloaded_chunks j) =
          λ j. ap (λ xs. contains xs j) added ∙ contains-insert i j p.pending.downloaded_chunks in
        (
          still ∙ quiet,
          λ j old. keeps j (ground (arith, in_q j, old)),
          λ j member. elim (Bool-cases (i == j)) [
            | inl here ↦ keeps j (ground (arith, in_q j, here))
            | inr there ↦ adds j (ground (arith, there, member))
          ],
        )

    module _ (order : List ℕ → List ℕ) (reorders : IsReordering order) (r : PendingDownloadRecord)
        (files : fs.State) (records : S.State) (total : length m.merkle_proofs ≡ m.total_chunks)
        (trusted : IsTrusted fs F S codec M ML m pieces t plain r files) where
      abbrev tasks : List ℕ
      tasks = order (missing r (range (length m.merkle_proofs)))

      abbrev last : Progress fs S
      last = ended fs F S codec M ML m pieces t plain order reorders a r files records

      size : length m.merkle_proofs ≡ length pieces
      size = total ∙ sym t.total_of

      in_tasks :
          (j : ℕ)
          → contains tasks j
            ≡ (contains (range (length m.merkle_proofs)) j && not (contains r.downloaded_chunks j))
      in_tasks j =
          reorders.same_members (missing r (range (length m.merkle_proofs))) j
          ∙ contains-missing r (range (length m.merkle_proofs)) j

      in_range : (j : ℕ) → contains tasks j ≡ true → j < length pieces
      in_range j member =
          let (_, lt) =
            contains-range_from 0 (length m.merkle_proofs) j (ground (arith, in_tasks j, member)) in
          omega (arith, lt, size)

      all_add :
          (last.first_error ≡ none)
          × ((j : ℕ)
              → contains r.downloaded_chunks j ≡ true
              → contains last.pending.downloaded_chunks j ≡ true)
          × ((j : ℕ) → contains tasks j ≡ true → contains last.pending.downloaded_chunks j ≡ true)
      all_add =
          tasks_add tasks
            (record { files = files; records = records; pending = r; first_error = none })
            (record {
              has_metadata = trusted.has_metadata;
              distinct = trusted.distinct;
              held = trusted.held;
            })
            (reorders.still_distinct _ (missing-Distinct r _ (range_from-Distinct 0 _)))
            (fresh_start fs F S codec M ML m pieces t plain order reorders a r files records
              (length m.merkle_proofs))
            (All-of_contains (λ j. j < length pieces) tasks in_range)

      has_all : (j : ℕ) → j < length pieces → contains last.pending.downloaded_chunks j ≡ true
      has_all j lt =
          let (_, keeps, adds) = all_add in
          elim (Bool-cases (contains r.downloaded_chunks j)) [
            | inl old ↦ keeps j old
            | inr new ↦
                let listed : contains (range (length m.merkle_proofs)) j ≡ true =
                  range_from-contains 0 (length m.merkle_proofs) j (omega arith)
                    (omega (arith, lt, size)) in
                adds j (ground (arith, in_tasks j, listed, new))
          ]

      all_counted : length last.pending.downloaded_chunks ≡ length m.merkle_proofs
      all_counted =
          let inv : Inv fs F S codec M ML m pieces t plain last =
            ended-Inv fs F S codec M ML m pieces t plain order reorders a r files records trusted in
          length-contains (length pieces) last.pending.downloaded_chunks inv.distinct
            (All-of_contains (λ j. j < length pieces) last.pending.downloaded_chunks
              λ j member.
                let (_, published, _) = inv.held j member in lt-get_elem? pieces j published)
            has_all
          ∙ sym size

      -- If a provider of every chunk is found and sends it, all channels are open and no write fails,
      -- `download` says that the file is complete, in whatever order the tasks end and wherever an
      -- earlier run had stopped. The metadata in the directory has to be that of the published
      -- chunks, with their proofs and an extension without a slash, and each chunk that counts as
      -- downloaded has to be there.
      pub download_ends : (download fs S codec M order a r files records).0 ≡ ok true
      download_ends =
          ap (λ x. x.0)
            (download-ended fs F S codec M ML m pieces t plain order reorders a r files records
              trusted)
          ∙ ground (arith, all_add.0, all_counted)
