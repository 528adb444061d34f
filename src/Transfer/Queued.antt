-- ===== src/Transfer/Queued.antt =====
-- From the request to the task: `download_file` of src/app/grpc/server.rs, the store, and
-- `work_on_pending_downloads` of src/app/file_download_service.rs.
use rust_dfs.Base.{ℕ, ◌≡◌, ◌≢◌, true, some, ok, refl}
use rust_dfs.Base.Text.{Text}
use rust_dfs.Base.Paths.{path_of}
use rust_dfs.Domain.{FileMetadata, Sha256Hasher, key}
use rust_dfs.Store.Codec.{Cbor, ReadsBack}
use rust_dfs.Store.Db.{NeverFails}
use rust_dfs.Store.Interface.{FileStore}
use rust_dfs.Store.Interface
use rust_dfs.Processing.Fs.{Fs, IsReliable}
use rust_dfs.Processing.Fs
use rust_dfs.Grpc.State.{Display, Node}
use rust_dfs.Grpc.Download.{Replies, placed, pending_of, download_file}
use rust_dfs.Grpc.Download.Laws.{download_file-IsStarted}
use rust_dfs.Download.Scheduler.{Downloads, new, has_key, work_on_pending_downloads, Reach}
use rust_dfs.Download.Scheduler.Laws.{keys, work_on_pending_downloads_starts}

module _ (fs : Fs) (F : Fs.IsLawful fs) (R : IsReliable fs) (S : FileStore)
    (L : Interface.IsLawful S) (h : Sha256Hasher) (codec : Cbor FileMetadata) (C : ReadsBack codec)
    (show : Display) where
  key-pending_of : (m : FileMetadata) → (pending_of fs S h codec show m).key ≡ key h m
  unfolding pending_of
  key-pending_of m = refl

  -- A download that `download_file` has accepted gets a task in the next round of the service,
  -- or has one already, as long as permits are left and the stream of pending downloads meets no
  -- error: the answer had metadata, and a task works under its key. No call that writes may fail,
  -- the store must be lawful, and what was encoded must read back.
  pub download_file_starts :
      (r : Replies) (channel file_id : ℕ) (path : Text) (n : Node fs S) {d : Downloads}
      (permits : ℕ → ℕ)
      → (download_file fs S h codec show r channel file_id path n).0 ≡ ok tt
      → NeverFails (
          S.stream_pending_downloads
            (download_file fs S h codec show r channel file_id path n).1.records)
      → Reach new d
      → ((i : ℕ) → permits i ≢ 0)
      → (m : FileMetadata) × (r.answer ≡ ok (some m))
        × (has_key
              (keys
                (work_on_pending_downloads permits
                  (S.stream_pending_downloads
                    (download_file fs S h codec show r channel file_id path n).1.records)
                  d).running)
              (key h (placed fs S h codec show (path_of path) m))
            ≡ true)
  download_file_starts r channel file_id path n permits accepted sound reached free =
      let (_, _, m, answered, started) =
        download_file-IsStarted fs S h codec show F R C L r channel file_id path n accepted in
      let here : FileMetadata = placed fs S h codec show (path_of path) m in
      let (j, at) = L.pending-stream (key h here) _ _ sound started.stored in
      (
        m,
        answered,
        rw (← key-pending_of here)
            (work_on_pending_downloads_starts permits _ j _ reached free at).0,
      )
