-- ===== src/Download/Service/Laws/Complete.antt =====
-- From the chunks to the file: `download` and `process_completed` of
-- src/app/file_download_service.rs together.
use rust_dfs.Base.{ℕ, ◌<◌, ◌≡◌, sym, ap, ap₂, subst, ◌∙◌, Bool, true, false, ◌++◌}
use mathlib.Core.Option.{some-injective}
use native.Mathlib.Nat.{zero-add}
use rust_dfs.Base.{none, some, List, get_elem?, arith, length, concat}
use rust_dfs.Base.{ok, lt-get_elem?}
use rust_dfs.Base.Text.{Bytes, Text, text}
use rust_dfs.Base.Sets.{contains, IsReordering, contains-All, All-of_contains}
use rust_dfs.Base.Paths.{PathBuf, join, IsPlain}
use rust_dfs.Domain.{FileMetadata, PendingDownloadRecord}
use rust_dfs.Store.Codec.{Cbor}
use rust_dfs.Store.Interface.{FileStore}
use rust_dfs.Store.Interface
use rust_dfs.Processing.Fs.{Fs, IsReliable}
use rust_dfs.Processing.Fs
use rust_dfs.Processing.Merkle.{Merkle}
use rust_dfs.Processing.Merkle
use rust_dfs.Processing.Split.{chunk_path}
use rust_dfs.Processing.Split.Names.{NoSlash}
use rust_dfs.Processing.Restore.{restore_original_file}
use rust_dfs.Processing.Restore.Laws.{restore_original_file_lem}
use rust_dfs.Download.Verify.{IsTreeOf}
use rust_dfs.Download.Chunk.{Answers}
use rust_dfs.Download.Service.{process_completed, completed_record}
use rust_dfs.Download.Service.Download.{Progress, download}
use rust_dfs.Download.Service.Laws.Tasks.{Inv}
use rust_dfs.Download.Service.Laws.Run.{
  IsTrusted, ended, ended-Inv, counted, download-ended, chunks_dir-run_tasks,
}

-- What follows the restored file works on the store alone.
pub files-process_completed :
    (fs : Fs) (S : FileStore) (codec : Cbor FileMetadata) (sent : Bool) (p : PendingDownloadRecord)
    (files : fs.State) (records : S.State) {m : FileMetadata}
    → (restore_original_file fs codec p files).0 ≡ ok m
    → (process_completed fs S codec sent p (files, records)).1.0
      ≡ (restore_original_file fs codec p files).1
unfolding process_completed
files-process_completed fs S codec sent p files records e = ground (arith, e)

module _ (fs : Fs) (F : Fs.IsLawful fs) (S : FileStore) (codec : Cbor FileMetadata) (M : Merkle)
    (ML : Merkle.IsLawful M) (m : FileMetadata) (pieces : List Bytes)
    (t : IsTreeOf M m.merkle_root m.total_chunks pieces) (plain : NoSlash m.chunk_file_extension)
    (order : List ℕ → List ℕ) (reorders : IsReordering order) (a : ℕ → Answers)
    (r : PendingDownloadRecord) (files : fs.State) (records : S.State)
    (trusted : IsTrusted fs F S codec M ML m pieces t plain r files)
    (proofs : length m.merkle_proofs ≡ m.total_chunks)
    (complete : (download fs S codec M order a r files records).0 ≡ ok true) where
  abbrev last : Progress fs S
  last = ended fs F S codec M ML m pieces t plain order reorders a r files records

  inv : Inv fs F S codec M ML m pieces t plain last
  inv = ended-Inv fs F S codec M ML m pieces t plain order reorders a r files records trusted

  all_counted : (i : ℕ) → i < length pieces → contains last.pending.downloaded_chunks i ≡ true
  all_counted i lt =
      contains-All (length pieces) last.pending.downloaded_chunks inv.distinct
        (All-of_contains (λ j. j < length pieces) last.pending.downloaded_chunks
          λ j member. let (b, published, _) = inv.held j member in lt-get_elem? pieces j published)
        (counted fs F S codec M ML m pieces t plain order reorders a r files records trusted
            complete
          ∙ proofs
          ∙ sym t.total_of)
        i lt

  last_lem : (download fs S codec M order a r files records).1 ≡ last
  last_lem =
      ap (λ x. x.1)
        (download-ended fs F S codec M ML m pieces t plain order reorders a r files records trusted)

  same_dir : last.pending.chunks_dir ≡ r.chunks_dir
  same_dir = chunks_dir-run_tasks fs S codec M a _ _

  -- When `download` says that the file is complete, every chunk that was published is on disk in its
  -- file, whatever the peers answered, in whatever order the tasks ended, and wherever an earlier
  -- run had stopped. The metadata in the directory is that of the published chunks, with a proof for
  -- each of them and an extension without a slash, and at the start each chunk that counts as
  -- downloaded is there.
  pub download_complete :
      (i : ℕ) (c : Bytes)
      → get_elem? pieces i ≡ some c
      → fs.read
          (chunk_path r.chunks_dir i m.chunk_file_extension)
          (download fs S codec M order a r files records).1.files
        ≡ ok c
  download_complete i c e =
      let (b, published, there) = inv.held i (all_counted i (lt-get_elem? pieces i e)) in
      ap₂ (λ (q : Progress fs S) dir. fs.read (chunk_path dir i m.chunk_file_extension) q.files)
        last_lem (sym same_dir)
      ∙ there
      ∙ ap ok (some-injective b c (sym published ∙ e))

  module _ (R : IsReliable fs) (base : PathBuf) (sub : Text) (dir : r.chunks_dir ≡ join base sub)
      (own : m.chunks_dir ≡ r.chunks_dir) (plain_sub : IsPlain sub)
      (plain_part : IsPlain (m.original_file_name ++ text ".part"))
      (absent : fs.try_exists
          (join base m.original_file_name)
          (download fs S codec M order a r files records).1.files
        ≡ ok false) where
    abbrev brought : Progress fs S
    brought = (download fs S codec M order a r files records).1

    brought_dir : brought.pending.chunks_dir ≡ r.chunks_dir
    brought_dir = ap (λ (q : Progress fs S). q.pending.chunks_dir) last_lem ∙ same_dir

    restored :
        ((restore_original_file fs codec brought.pending brought.files).0 ≡ ok m)
        × (fs.read
              (join base m.original_file_name)
              (restore_original_file fs codec brought.pending brought.files).1
            ≡ ok (concat pieces))
    restored =
        let good : Inv fs F S codec M ML m pieces t plain brought =
          subst (Inv fs F S codec M ML m pieces t plain) (sym last_lem) inv in
        let (raw, stored, decoded) = good.has_metadata in
        restore_original_file_lem fs F R codec brought.pending m base sub raw pieces brought.files
          stored decoded (own ∙ dir) plain_sub plain_part plain absent t.total_of
          λ j c e.
            ap₂ (λ p k. fs.read (chunk_path p k m.chunk_file_extension) brought.files) own
              (zero-add j)
            ∙ download_complete j c e

    -- After a complete download `process_completed` leaves, beside the directory of the chunks, the
    -- very file that was published, and it does so even if the store or the channel fails then. Beyond
    -- what the download needs, no call that writes may fail, the directory must be the one that the
    -- metadata names and have a plain name, the name of the file followed by `.part` must be plain,
    -- and no such file may exist yet.
    pub process_completed_restores :
        (sent : Bool)
        → fs.read
            (join base m.original_file_name)
            (process_completed fs S codec sent brought.pending (brought.files, brought.records)).1.0
          ≡ ok (concat pieces)
    process_completed_restores sent =
        let (done, content) = restored in
        ap (fs.read (join base m.original_file_name)) (
          files-process_completed fs S codec sent brought.pending brought.files brought.records
            done)
        ∙ content

module _ (fs : Fs) (S : FileStore) (L : Interface.IsLawful S) (codec : Cbor FileMetadata) where
  -- If `process_completed` succeeds over a lawful store, the download has moved from the pending to
  -- the published records.
  pub process_completed_moves :
      (p : PendingDownloadRecord) (files : fs.State) (records : S.State) (m : FileMetadata)
      → (process_completed fs S codec true p (files, records)).0 ≡ ok m
      → (S.get_published_file p.key (process_completed fs S codec true p (files, records)).1.1
          ≡ ok (some (completed_record fs S codec p m)))
        × (S.get_pending_download p.key (process_completed fs S codec true p (files, records)).1.1
            ≡ ok none)
  unfolding process_completed
  process_completed_moves p files records m e = ground (
    arith,
    L.published-put (completed_record fs S codec p m) records,
    L.pending-delete p.key (S.put_published_file (completed_record fs S codec p m) records).1,
    L.published-delete_pending p.key p.key
        (S.put_published_file (completed_record fs S codec p m) records).1,
  )
