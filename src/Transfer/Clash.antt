-- ===== src/Transfer/Clash.antt =====
-- Two downloads (src/app/grpc/server.rs) whose files have one name: the directory of the chunks is
-- named by the file's name alone.
use rust_dfs.Base.{ℕ, ◌≡◌, ◌≢◌, refl, sym, ap, subst, ◌∙◌, some, ok, ok-injective, ◌++◌}
use mathlib.Core.Option.{some-injective}
use rust_dfs.Base.Text.{Bytes, Text, text}
use rust_dfs.Base.Paths.{PathBuf, path_of, join}
use rust_dfs.Domain.{
  FileMetadata, PendingDownloadRecord, Sha256Hasher, hash, key, get_chunks_dir_name_prefix,
  new_pending_download,
}
use rust_dfs.Store.Codec.{Cbor, ReadsBack}
use rust_dfs.Store.Interface.{FileStore}
use rust_dfs.Store.Interface
use rust_dfs.Processing.Fs.{Fs, IsReliable}
use rust_dfs.Processing.Fs
use rust_dfs.Processing.Publish.{metadata_file_name}
use rust_dfs.Grpc.State.{Display, Node}
use rust_dfs.Grpc.Download.{Replies, placed, pending_of, download_file}
use rust_dfs.Grpc.Download.Laws.{download_file-IsStarted}

module _ (fs : Fs) (F : Fs.IsLawful fs) (R : IsReliable fs) (S : FileStore)
    (L : Interface.IsLawful S) (h : Sha256Hasher) (codec : Cbor FileMetadata) (C : ReadsBack codec)
    (show : Display) where
  one_directory :
      (path : PathBuf) (first second : FileMetadata)
      → get_chunks_dir_name_prefix first ≡ get_chunks_dir_name_prefix second
      → (pending_of fs S h codec show (placed fs S h codec show path first)).chunks_dir
        ≡ (placed fs S h codec show path second).chunks_dir
  unfolding pending_of placed
  one_directory path first second same =
      ap (λ (prefix : Text). join path (prefix ++ text "_chunks")) same

  key-placed :
      (path : PathBuf) (m : FileMetadata) → key h (placed fs S h codec show path m) ≡ key h m
  unfolding placed key hash
  key-placed path m = refl

  -- Two downloads, one after the other, of files with the same name, or with names that differ in dots
  -- and underscores only, are both accepted for one path, and then the record of the first one is still
  -- stored as it was, but the metadata in the directory that it names is that of the second one. The
  -- answers had the metadata of the two files, whose keys differ; no call that writes may fail, the
  -- store must be lawful, and what was encoded must read back.
  pub download_file_clashes :
      (r₁ r₂ : Replies) (channel₁ channel₂ file_id₁ file_id₂ : ℕ) (path : Text) (n : Node fs S)
      (first second : FileMetadata)
      → let n₁ : Node fs S = (download_file fs S h codec show r₁ channel₁ file_id₁ path n).1 in
        let n₂ : Node fs S = (download_file fs S h codec show r₂ channel₂ file_id₂ path n₁).1 in
        let pending : PendingDownloadRecord =
          pending_of fs S h codec show (placed fs S h codec show (path_of path) first) in
        (download_file fs S h codec show r₁ channel₁ file_id₁ path n).0 ≡ ok tt
        → (download_file fs S h codec show r₂ channel₂ file_id₂ path n₁).0 ≡ ok tt
        → r₁.answer ≡ ok (some first)
        → r₂.answer ≡ ok (some second)
        → get_chunks_dir_name_prefix first ≡ get_chunks_dir_name_prefix second
        → key h first ≢ key h second
        → (S.get_pending_download (key h first) n₂.records ≡ ok (some pending))
          × (raw : Bytes) × (fs.read (join pending.chunks_dir metadata_file_name) n₂.files ≡ ok raw)
          × (codec.from_slice raw ≡ ok (placed fs S h codec show (path_of path) second))
  unfolding pending_of new_pending_download
  download_file_clashes r₁ r₂ channel₁ channel₂ file_id₁ file_id₂ path n first second accepted₁
        accepted₂ answered₁ answered₂ same differ =
      let (_, _, m₁, came₁, s₁) =
        download_file-IsStarted fs S h codec show F R C L r₁ channel₁ file_id₁ path n accepted₁ in
      let n₁ : Node fs S = (download_file fs S h codec show r₁ channel₁ file_id₁ path n).1 in
      let (_, _, m₂, came₂, s₂) =
        download_file-IsStarted fs S h codec show F R C L r₂ channel₂ file_id₂ path n₁ accepted₂ in
      let n₂ : Node fs S = (download_file fs S h codec show r₂ channel₂ file_id₂ path n₁).1 in
      let is_first : m₁ ≡ first = some-injective _ _ (ok-injective (sym came₁ ∙ answered₁)) in
      let is_second : m₂ ≡ second = some-injective _ _ (ok-injective (sym came₂ ∙ answered₂)) in
      let here : FileMetadata → FileMetadata = placed fs S h codec show (path_of path) in
      let stored : S.get_pending_download (key h (here first)) n₁.records
          ≡ ok (some (pending_of fs S h codec show (here first))) =
        subst
          (λ m.
            S.get_pending_download (key h (here m)) n₁.records
            ≡ ok (some (pending_of fs S h codec show (here m))))
          is_first s₁.stored in
      let apart : key h (here first) ≢ key h (here m₂) = λ e. differ (
        sym (key-placed (path_of path) first)
        ∙ e
        ∙ key-placed (path_of path) m₂
        ∙ ap (key h) is_second) in
      (
        ap (λ k. S.get_pending_download k n₂.records) (sym (key-placed (path_of path) first))
            ∙ ap (S.get_pending_download (key h (here first))) s₂.put
            ∙ L.pending-put_ne (pending_of fs S h codec show (here m₂)) (key h (here first))
                n₁.records apart
            ∙ stored,
        s₂.raw,
        ap (λ d. fs.read (join d metadata_file_name) n₂.files)
              (one_directory (path_of path) first second same
                ∙ ap (λ m. (here m).chunks_dir) (sym is_second))
            ∙ s₂.has_raw,
        s₂.decoded ∙ ap (λ m. ok (here m)) is_second,
      )
