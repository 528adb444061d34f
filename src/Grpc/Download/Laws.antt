-- ===== src/Grpc/Download/Laws.antt =====
-- What `download_file` of src/app/grpc/server.rs registers.
use rust_dfs.Base.{ℕ, ◌≡◌, refl, sym, ap, subst, ◌∙◌, Bool, true, false, inl, inr, arith}
use rust_dfs.Base.{
  none, some, List, ◌∷◌, Result, ok, Result-cases, Bool-cases, continue, continue-ok,
}
use rust_dfs.Base.Text.{Bytes, Text}
use rust_dfs.Base.Paths.{PathBuf, path_of, join}
use rust_dfs.Domain.{
  FileMetadata, Sha256Hasher, key, PendingDownloadRecord, P2pCommand, request_metadata,
  provide_metadata,
}
use rust_dfs.Domain.Keys.{from_u64}
use rust_dfs.Store.Codec.{Cbor, ReadsBack}
use rust_dfs.Store.Interface.{FileStore}
use rust_dfs.Store.Interface
use rust_dfs.Processing.Fs.{Fs, IsReliable}
use rust_dfs.Processing.Fs
use rust_dfs.Processing.Publish.{save_metadata, metadata_file_name}
use rust_dfs.Processing.Publish.Laws.{saved_there}
use rust_dfs.Processing.Directory.{ensure_dir_exists_or_create}
use rust_dfs.Grpc.State.{Status, Display, Node}
use rust_dfs.Grpc.Download.{
  Replies, check_new, receive_metadata, placed, pending_of, start_download, download_file,
}

module _ (fs : Fs) (S : FileStore) (h : Sha256Hasher) (codec : Cbor FileMetadata)
    (show : Display) where
  -- A request passes the tests only for a file that the store knows nothing of, and they change
  -- nothing.
  check_new-ok :
      (file_id : ℕ) (n : Node fs S)
      → (check_new fs S h codec show file_id n).0 ≡ ok tt
      → ((check_new fs S h codec show file_id n).1 ≡ n)
        × (S.published_file_exists (from_u64 file_id) n.records ≡ ok false)
        × (S.pending_download_exists (from_u64 file_id) n.records ≡ ok false)
  unfolding check_new
  check_new-ok file_id n e =
      elim (Result-cases (S.published_file_exists (from_u64 file_id) n.records)) [
        | inr (_, bad) ↦ absurd (ground (arith, bad))
        | inl (true, there) ↦ absurd (ground (arith, there))
        | inl (false, new) ↦
            elim (Result-cases (S.pending_download_exists (from_u64 file_id) n.records)) [
              | inr (_, bad) ↦ absurd (ground (arith, new, bad))
              | inl (true, there) ↦ absurd (ground (arith, new, there))
              | inl (false, free) ↦ (rw (new, free), new, free)
            ]
      ]

  received :
      (r : Replies) (channel file_id : ℕ) (path : PathBuf) (n : Node fs S) (m : FileMetadata)
      → (receive_metadata fs S h codec show r channel file_id path n).0 ≡ ok m
      → (r.answer ≡ ok (some m))
        × ((receive_metadata fs S h codec show r channel file_id path n).1.records ≡ n.records)
        × ((receive_metadata fs S h codec show r channel file_id path n).1.sent
            ≡ request_metadata (record { file_id = file_id }) channel ∷ n.sent)
  unfolding receive_metadata
  received r channel file_id path n m e =
      elim (Result-cases (ensure_dir_exists_or_create fs path n.files).0) [
        | inr (_, bad) ↦ absurd (ground (arith, bad))
        | inl (_, made) ↦ elim (Bool-cases r.request_sent) [
          | inr closed ↦ absurd (ground (arith, made, closed))
          | inl taken ↦ elim (Result-cases r.answer) [
            | inr (_, dropped) ↦ absurd (ground (arith, made, taken, dropped))
            | inl (none, nobody) ↦ absurd (ground (arith, made, taken, nobody))
            | inl (some m', got) ↦ (
              rw got (ground (arith, made, taken, got)),
              rw (made, taken, got),
              rw (made, taken, got),
            )
          ]
        ]
      ]

  -- The metadata file is there, the record of the download was put into the store, and the metadata is
  -- provided.
  pub record IsStarted (m : FileMetadata) (before : List (P2pCommand ℕ)) (old : S.State)
      (n' : Node fs S) : Type 0 where
    pub put : n'.records ≡ (S.put_pending_download (pending_of fs S h codec show m) old).1
    pub stored :
        S.get_pending_download (key h m) n'.records ≡ ok (some (pending_of fs S h codec show m))
    pub raw : Bytes
    pub has_raw : fs.read (join m.chunks_dir metadata_file_name) n'.files ≡ ok raw
    pub decoded : codec.from_slice raw ≡ ok m
    pub provided : n'.sent ≡ provide_metadata m ∷ before

  module _ (F : Fs.IsLawful fs) (R : IsReliable fs) (C : ReadsBack codec)
      (L : Interface.IsLawful S) where
    started :
        (sent : Bool) (path : PathBuf) (m : FileMetadata) (n : Node fs S)
        → (start_download fs S h codec show sent path m n).0 ≡ ok tt
        → IsStarted
            (placed fs S h codec show path m)
            n.sent
            n.records
            (start_download fs S h codec show sent path m n).1
    unfolding start_download
    started sent path m n e =
        let here : FileMetadata = placed fs S h codec show path m in
        let pending : PendingDownloadRecord = pending_of fs S h codec show here in
        elim (Result-cases (fs.try_exists (join path m.original_file_name) n.files)) [
          | inr (_, bad) ↦ absurd (ground (arith, bad))
          | inl (true, there) ↦ absurd (ground (arith, there))
          | inl (false, absent) ↦
              elim (Result-cases (ensure_dir_exists_or_create fs here.chunks_dir n.files).0) [
                | inr (_, bad) ↦ absurd (ground (arith, absent, bad))
                | inl (_, made) ↦
                    let s : fs.State = (ensure_dir_exists_or_create fs here.chunks_dir n.files).1 in
                    elim (Result-cases (save_metadata fs codec here s).0) [
                      | inr (_, bad) ↦ absurd (ground (arith, absent, made, bad))
                      | inl (m', saved) ↦ elim (Bool-cases sent) [
                        | inr closed ↦ absurd (ground (arith, absent, made, saved, closed))
                        | inl taken ↦
                            elim (Result-cases (S.put_pending_download pending n.records).0) [
                              | inr (_, bad) ↦
                                  absurd (ground (arith, absent, made, saved, taken, bad))
                              | inl (_, put) ↦
                                  let (raw, coded, there) =
                                    saved_there fs F R codec here m' s saved in
                                  record {
                                    put = rw (absent, made, saved, taken) refl;
                                    stored =
                                        rw (absent, made, saved, taken)
                                          (unfold pending_of in
                                            L.pending-put pending n.records put);
                                    raw = raw;
                                    has_raw = rw (absent, made, saved, taken) there;
                                    decoded = C.reads_back here coded;
                                    provided = rw (absent, made, saved, taken) refl;
                                  }
                            ]
                      ]
                    ]
              ]
        ]

    -- A request that succeeds concerned a file that was neither published nor pending, and it has
    -- registered the download of the metadata that came back: with the directory of the chunks put in,
    -- that metadata stands in its file, its record without chunks is stored under its own key and nothing else is, and
    -- the two commands were sent. No call that writes may fail, the store must be lawful, and what was
    -- encoded must read back.
    pub download_file-IsStarted :
        (r : Replies) (channel file_id : ℕ) (path : Text) (n : Node fs S)
        → (download_file fs S h codec show r channel file_id path n).0 ≡ ok tt
        → (S.published_file_exists (from_u64 file_id) n.records ≡ ok false)
          × (S.pending_download_exists (from_u64 file_id) n.records ≡ ok false)
          × (m : FileMetadata) × (r.answer ≡ ok (some m))
          × IsStarted
              (placed fs S h codec show (path_of path) m)
              (request_metadata (record { file_id = file_id }) channel ∷ n.sent)
              n.records
              (download_file fs S h codec show r channel file_id path n).1
    unfolding download_file
    download_file-IsStarted r channel file_id path n e =
        let (_, checked, same₁) = continue-ok (check_new fs S h codec show file_id n) _ e in
        let (unchanged, new, free) = check_new-ok file_id n checked in
        let fetch : Node fs S → Result Status FileMetadata × Node fs S =
          receive_metadata fs S h codec show r channel file_id (path_of path) in
        let start : FileMetadata → Node fs S → Result Status Unit × Node fs S =
          start_download fs S h codec show r.provide_sent (path_of path) in
        let whole : Result Status Unit × Node fs S =
          download_file fs S h codec show r channel file_id path n in
        let tail : whole ≡ continue (fetch n) start =
          same₁ ∙ ap (λ k. continue (fetch k) start) unchanged in
        let (m, got, same₂) = continue-ok (fetch n) start (ap (λ x. x.0) (sym tail) ∙ e) in
        let (answered, old, sent) = received r channel file_id (path_of path) n m got in
        let all : whole ≡ start m (fetch n).1 = tail ∙ same₂ in
        let here : FileMetadata = placed fs S h codec show (path_of path) m in
        let done =
          started r.provide_sent (path_of path) m (fetch n).1 (ap (λ x. x.0) (sym all) ∙ e) in
        (
          new,
          free,
          m,
          answered,
          subst (λ before. IsStarted here before n.records whole.1) sent
              (subst (λ records. IsStarted here (fetch n).1.sent records whole.1) old
                (subst
                  (λ (x : Result Status Unit × Node fs S).
                    IsStarted here (fetch n).1.sent (fetch n).1.records x.1)
                  (sym all) done)),
        )
