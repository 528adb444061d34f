-- ===== src/Download/Concurrent/Stored.antt =====
-- The record of a download in the store while its tasks take turns
-- (src/app/file_download_service.rs): a later run starts from it.
use rust_dfs.Base.{
  ℕ, ◌≡◌, refl, sym, ap, ◌∙◌, List, length, some, none, ok, err, Result, Option, Bool-cases,
}
use rust_dfs.Base.{inl, inr, true}
use rust_dfs.Base.Text.{Bytes, Text}
use rust_dfs.Base.Sets.{contains, insert, IsReordering}
use rust_dfs.Domain.{FileMetadata, PendingDownloadRecord}
use rust_dfs.Domain.Keys.{PublishedFileKey}
use rust_dfs.Store.Codec.{Cbor}
use rust_dfs.Store.Interface.{FileStore}
use rust_dfs.Store.Interface
use rust_dfs.Processing.Fs.{Fs, IsReliable}
use rust_dfs.Processing.Fs
use rust_dfs.Processing.Merkle.{Merkle}
use rust_dfs.Processing.Merkle
use rust_dfs.Processing.Split.Names.{NoSlash}
use rust_dfs.Download.Verify.{IsTreeOf}
use rust_dfs.Download.Service.Download.{Progress, joined, download}
use rust_dfs.Download.Chunk.{Answers}
use rust_dfs.Download.Service.Laws.Run.{IsTrusted}
use rust_dfs.Download.Service.Laws.Live.{HasProofs, IsServed, download_ends}
use rust_dfs.Download.Concurrent.{
  Tasks, spawn_tasks, work, acquired, worked, taken, own, other, Reach, here, next,
}
use rust_dfs.Download.Concurrent.Complete.{progress-IsTrusted}

-- The rest of the program leaves the record of this download alone.
unfoldable pub SparesRecord :
    {fs : Fs} {S : FileStore} {codec : Cbor FileMetadata} {M : Merkle} {t u : Tasks fs S}
    → Reach fs S codec M t u
    → Type 0
SparesRecord here = Unit
SparesRecord (next r (own step)) = SparesRecord r
SparesRecord {S = S} (next {u = u} r (other permits elsewhere files records same apart)) =
    SparesRecord r
    × (S.get_pending_download u.progress.pending.key records
        ≡ S.get_pending_download u.progress.pending.key u.progress.records)

-- The store takes the record of the download, whatever chunks it counts.
abbrev pub TakesRecord : FileStore → PendingDownloadRecord → Type 0
TakesRecord S r =
    (chunks : List ℕ) (s : S.State)
    → (S.put_pending_download (record r { downloaded_chunks = chunks }) s).0 ≡ ok tt

module _ (fs : Fs) (S : FileStore) (L : Interface.IsLawful S) (codec : Cbor FileMetadata)
    (M : Merkle) where
  -- What the store has under the key is what the run counts.
  record IsStored (k : PublishedFileKey) (p : Progress fs S) : Type 0 where
    pub takes : TakesRecord S p.pending
    pub same_key : p.pending.key ≡ k
    pub there : S.get_pending_download k p.records ≡ ok (some p.pending)

  module _ (k : PublishedFileKey) where
    joined-IsStored :
        (result : Result Text (Option ℕ)) (p : Progress fs S)
        → IsStored k p
        → IsStored k (joined fs S codec M result p)
    unfolding joined
    joined-IsStored (err e) p h = record { takes = h.takes; same_key = h.same_key; there = h.there }
    joined-IsStored (ok none) p h = h
    joined-IsStored (ok (some i)) p h = elim (Bool-cases (contains p.pending.downloaded_chunks i)) [
      | inl old ↦ rw old h
      | inr new ↦
          let counted : PendingDownloadRecord = record p.pending {
            downloaded_chunks = insert i p.pending.downloaded_chunks;
          } in
          let after : S.State = (S.put_pending_download counted p.records).1 in
          rw new (record {
            takes = h.takes;
            same_key = h.same_key;
            there =
                ap (λ j. S.get_pending_download j after) (sym h.same_key)
                ∙ L.pending-put counted p.records (h.takes counted.downloaded_chunks p.records);
          })
    ]

    Reach-IsStored :
        {t u : Tasks fs S} (reached : Reach fs S codec M t u)
        → SparesRecord reached
        → IsStored k t.progress
        → IsStored k u.progress
    unfolding SparesRecord work
    Reach-IsStored here spared h = h
    Reach-IsStored (next r (own (acquired i e free))) spared h = Reach-IsStored r spared h
    Reach-IsStored (next r (own (worked i a e))) spared h =
        let before = Reach-IsStored r spared h in
        record { takes = before.takes; same_key = before.same_key; there = before.there }
    Reach-IsStored (next r (own (taken i result e))) spared h =
        joined-IsStored result _ (Reach-IsStored r spared h)
    Reach-IsStored (next {u = u} r (other permits elsewhere files records same apart)) spared h =
        let before = Reach-IsStored r spared.0 h in
        record {
          takes = before.takes;
          same_key = before.same_key;
          there =
              ap (λ j. S.get_pending_download j records) (sym before.same_key)
              ∙ spared.1
              ∙ ap (λ j. S.get_pending_download j u.progress.records) before.same_key
              ∙ before.there;
        }

module _ (fs : Fs) (F : Fs.IsLawful fs) (S : FileStore) (L : Interface.IsLawful S)
    (codec : Cbor FileMetadata) (M : Merkle) (ML : Merkle.IsLawful M) (m : FileMetadata)
    (pieces : List Bytes) (t : IsTreeOf M m.merkle_root m.total_chunks pieces)
    (plain : NoSlash m.chunk_file_extension) (r : PendingDownloadRecord) (permits elsewhere : ℕ)
    (files : fs.State) (records : S.State) (u : Tasks fs S)
    (reached : Reach fs S codec M
      (spawn_tasks fs S codec M r (length m.merkle_proofs) permits elsewhere files records)
      u)
    (trusted : IsTrusted fs F S codec M ML m pieces t plain r files)
    (stored : S.get_pending_download r.key records ≡ ok (some r)) (takes : TakesRecord S r)
    (spared : SparesRecord reached) where
  -- However the tasks of a download take turns, with each other and with the rest of the program, and
  -- whatever peers answer, the run can be cut off at any moment and resumed: the record in the store
  -- is the one that the run has then, each chunk that it counts is on disk, and none counts twice. At
  -- the start the directory has to hold the metadata of the published chunks, the chunks that count
  -- have to be there, and the record has to be stored; the store is lawful and takes the record
  -- whenever it is put, and the rest of the program may not write into the directory or change the
  -- record.
  pub interleaved_resumable :
      (S.get_pending_download r.key u.progress.records ≡ ok (some u.progress.pending))
      × IsTrusted fs F S codec M ML m pieces t plain u.progress.pending u.progress.files
  unfolding spawn_tasks
  interleaved_resumable =
      let h =
        Reach-IsStored fs S L codec M r.key reached spared
          (record { takes = takes; same_key = refl; there = stored }) in
      (
        h.there,
        progress-IsTrusted fs F S codec M ML m pieces t plain r permits elsewhere files records
            trusted u reached,
      )

  -- A download that was cut off at any moment of such a run completes when it is started again from
  -- the record in the store: if then every chunk is found and sent, the channels are open and no
  -- write fails, `download` says that the file is complete, in whatever order its tasks end. The
  -- conditions are those under which the run can be resumed, and the metadata has the proof of each
  -- published chunk, and no other.
  pub cut_off_completes :
      (R : IsReliable fs)
      → HasProofs fs F R S codec M ML m pieces t plain
      → (a : ℕ → Answers) → IsServed fs F R S codec M ML m pieces t plain a
      → (order : List ℕ → List ℕ) → IsReordering order
      → length m.merkle_proofs ≡ m.total_chunks
      → (r' : PendingDownloadRecord) × (S.get_pending_download r.key u.progress.records
          ≡ ok (some r'))
        × ((download fs S codec M order a r' u.progress.files u.progress.records).0 ≡ ok true)
  cut_off_completes R proofs a served order reorders each =
      let (there, still_trusted) = interleaved_resumable in
      (
        u.progress.pending,
        there,
        download_ends fs F R S codec M ML m pieces t plain proofs a served order reorders
            u.progress.pending u.progress.files u.progress.records each still_trusted,
      )
