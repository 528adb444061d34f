-- ===== src/Download/Service/Laws/Run.antt =====
-- All tasks of a `download` (src/app/file_download_service.rs), in any order.
use rust_dfs.Base.{ℕ, ◌≡◌, ◌≢◌, refl, sym, ap, ◌∙◌, true, false, ◌&&◌, not}
use rust_dfs.Base.{Option, none, some, List, [], ◌∷◌, All, arith, length, range}
use rust_dfs.Base.{Result, Result-cases, ok, err, ◌==◌, inl, inr}
use rust_dfs.Base.Text.{Bytes, Text}
use rust_dfs.Base.Sets.{contains, Distinct, contains-insert, IsReordering}
use rust_dfs.Base.Sets.{range_from-Distinct, All-of_contains}
use rust_dfs.Domain.{FileMetadata, PendingDownloadRecord}
use rust_dfs.Store.Codec.{Cbor}
use rust_dfs.Store.Interface.{FileStore}
use rust_dfs.Processing.Fs.{Fs}
use rust_dfs.Processing.Fs
use rust_dfs.Processing.Merkle.{Merkle}
use rust_dfs.Processing.Merkle
use rust_dfs.Processing.Split.Names.{NoSlash}
use rust_dfs.Download.Verify.{IsTreeOf}
use rust_dfs.Download.Chunk.{Answers, download_file_chunk}
use rust_dfs.Download.Chunk.Laws.{HasMetadata, download_file_chunk_sound}
use rust_dfs.Download.Service.Download.{
  Progress, chunk_of, joined, run_task, run_tasks, missing, download, outcome,
}
use rust_dfs.Download.Service.Laws.Tasks.{IsHeld, Inv, worked-Inv, brought-IsHeld, joined-Inv}

pub contains-missing :
    (r : PendingDownloadRecord) (xs : List ℕ) (a : ℕ)
    → contains (missing r xs) a ≡ (contains xs a && not (contains r.downloaded_chunks a))
unfolding contains missing
contains-missing r [] a = refl
contains-missing r (x ∷ xs) a = ground (arith, contains-missing r xs a)

pub missing-Distinct :
    (r : PendingDownloadRecord) (xs : List ℕ) → Distinct xs → Distinct (missing r xs)
unfolding missing
missing-Distinct r [] d = tt
missing-Distinct r (x ∷ xs) d = ground (arith, missing-Distinct r xs d.1, contains-missing r xs x)

-- The directory of a record is never changed.
pub chunks_dir-joined :
    (fs : Fs) (S : FileStore) (codec : Cbor FileMetadata) (M : Merkle)
    (result : Result Text (Option ℕ)) (p : Progress fs S)
    → (joined fs S codec M result p).pending.chunks_dir ≡ p.pending.chunks_dir
unfolding joined
chunks_dir-joined fs S codec M (err e) p = refl
chunks_dir-joined fs S codec M (ok none) p = refl
chunks_dir-joined fs S codec M (ok (some i)) p = ground arith

pub chunks_dir-run_tasks :
    (fs : Fs) (S : FileStore) (codec : Cbor FileMetadata) (M : Merkle) (answers : ℕ → Answers)
    (is : List ℕ) (p : Progress fs S)
    → (run_tasks fs S codec M answers is p).pending.chunks_dir ≡ p.pending.chunks_dir
unfolding run_tasks run_task
chunks_dir-run_tasks fs S codec M answers [] p = refl
chunks_dir-run_tasks fs S codec M answers (i ∷ is) p =
    chunks_dir-run_tasks fs S codec M answers is _ ∙ chunks_dir-joined fs S codec M _ _

module _ (fs : Fs) (F : Fs.IsLawful fs) (S : FileStore) (codec : Cbor FileMetadata) (M : Merkle)
    (ML : Merkle.IsLawful M) (m : FileMetadata) (pieces : List Bytes)
    (t : IsTreeOf M m.merkle_root m.total_chunks pieces)
    (plain : NoSlash m.chunk_file_extension) where
  abbrev Good : Progress fs S → Type 0
  Good = Inv fs F S codec M ML m pieces t plain

  -- A task adds no number but its own.
  others_new :
      (a : ℕ → Answers) (i j : ℕ) (p : Progress fs S)
      → Good p
      → i ≢ j
      → contains p.pending.downloaded_chunks j ≡ false
      → contains (run_task fs S codec M a i p).pending.downloaded_chunks j ≡ false
  unfolding run_task joined
  others_new a i j p inv ne new =
      elim (Result-cases
        (download_file_chunk fs codec M (chunk_of fs S codec M p.pending i) (a i) p.files).0) [
          | inr (e, bad) ↦ ground (arith, bad)
          | inl (none, nothing) ↦ ground (arith, nothing)
          | inl (some k, done) ↦
              let (same, _, _, _) =
                download_file_chunk_sound fs F codec M ML m pieces t
                  (chunk_of fs S codec M p.pending i) (a i) p.files k inv.has_metadata done in
              ground (arith, done, contains-insert k j p.pending.downloaded_chunks, same)
        ]

  pub fresh_after :
      (a : ℕ → Answers) (i : ℕ) (is : List ℕ) (p : Progress fs S)
      → Good p
      → contains is i ≡ false
      → All (λ j. contains p.pending.downloaded_chunks j ≡ false) is
      → All (λ j. contains (run_task fs S codec M a i p).pending.downloaded_chunks j ≡ false) is
  unfolding contains
  fresh_after a i [] p inv apart new = tt
  fresh_after a i (j ∷ is) p inv apart new = (
    others_new a i j p inv (λ e. ground arith) new.0,
    fresh_after a i is p inv (ground arith) new.1,
  )

  pub run_task-Inv :
      (a : ℕ → Answers) (i : ℕ) (p : Progress fs S)
      → Good p
      → contains p.pending.downloaded_chunks i ≡ false
      → Good (run_task fs S codec M a i p)
  unfolding run_task
  run_task-Inv a i p inv new =
      joined-Inv fs F S codec M ML m pieces t plain _ _
        (worked-Inv fs F S codec M ML m pieces t plain (a i) i p inv new)
        (λ k done. (brought-IsHeld fs F S codec M ML m pieces t plain (a i) i p inv new k done).1)

  run_tasks-Inv :
      (a : ℕ → Answers) (is : List ℕ) (p : Progress fs S)
      → Good p
      → Distinct is
      → All (λ j. contains p.pending.downloaded_chunks j ≡ false) is
      → Good (run_tasks fs S codec M a is p)
  unfolding run_tasks
  run_tasks-Inv a [] p inv d new = inv
  run_tasks-Inv a (i ∷ is) p inv d new =
      run_tasks-Inv a is (run_task fs S codec M a i p) (run_task-Inv a i p inv new.0) d.1
        (fresh_after a i is p inv d.0 new.1)

  -- What a pending record may claim when `download` starts.
  pub record IsTrusted (r : PendingDownloadRecord) (s : fs.State) : Type 0 where
    pub has_metadata : HasMetadata fs F codec M ML r.chunks_dir m s
    pub distinct : Distinct r.downloaded_chunks
    pub held :
        (i : ℕ)
        → contains r.downloaded_chunks i ≡ true
        → IsHeld fs F S codec M ML m pieces t plain r.chunks_dir s i

  module _ (order : List ℕ → List ℕ) (reorders : IsReordering order) (a : ℕ → Answers)
      (r : PendingDownloadRecord) (files : fs.State) (records : S.State) where
    abbrev pub ended : Progress fs S
    ended =
        run_tasks fs S codec M a (order (missing r (range (length m.merkle_proofs))))
          (record { files = files; records = records; pending = r; first_error = none })

    pub fresh_start :
        (n : ℕ) → All (λ i. contains r.downloaded_chunks i ≡ false) (order (missing r (range n)))
    fresh_start n =
        All-of_contains (λ i. contains r.downloaded_chunks i ≡ false) (order (missing r (range n)))
          λ i member.
            ground
              (arith, reorders.same_members (missing r (range n)) i, contains-missing r (range n) i)

    pub ended-Inv : IsTrusted r files → Good ended
    ended-Inv h =
        run_tasks-Inv a (order (missing r (range (length m.merkle_proofs)))) _
          (record { has_metadata = h.has_metadata; distinct = h.distinct; held = h.held })
          (reorders.still_distinct _ (missing-Distinct r _ (range_from-Distinct 0 _)))
          (fresh_start (length m.merkle_proofs))

    pub download-ended :
        IsTrusted r files
        → download fs S codec M order a r files records ≡ (
          outcome ended.first_error
              (length ended.pending.downloaded_chunks == length m.merkle_proofs),
          ended,
        )
    unfolding download
    download-ended h = let (raw, stored, decoded) = h.has_metadata in rw (stored, download, decoded)

    pub counted :
        IsTrusted r files
        → (download fs S codec M order a r files records).0 ≡ ok true
        → length ended.pending.downloaded_chunks ≡ length m.merkle_proofs
    counted h e =
        let e' : outcome ended.first_error
              (length ended.pending.downloaded_chunks == length m.merkle_proofs)
            ≡ ok true =
          sym (ap (λ x. x.0) (download-ended h)) ∙ e in
        ground (arith, e')
