-- ===== src/Tests/QueuedTests.antt =====
-- A download that was asked for gets its task.
use native.Mathlib.Decide.{ℕ_discrete}
use rust_dfs.Base.{ℕ, ◌≡◌, true, some, ok}
use rust_dfs.Base.Text.{text}
use rust_dfs.Base.Decimal.{show_nat}
use rust_dfs.Base.Paths.{path_of, join}
use rust_dfs.Domain.{FileMetadata, key}
use rust_dfs.Domain.Keys.{from_u64}
use rust_dfs.Store.Db.{NeverFails}
use rust_dfs.Store.Rocksdb.{rocksdb_store}
use rust_dfs.Grpc.Download.{placed, download_file}
use rust_dfs.Download.Scheduler.{new, has_key, work_on_pending_downloads, here}
use rust_dfs.Download.Scheduler.Laws.{keys}
use rust_dfs.Transfer.Queued.{download_file_starts}
use rust_dfs.Tests.Files.{memory_fs, memory_fs-IsLawful, memory_fs-IsReliable, PathBuf-discrete}
use rust_dfs.Tests.StoreTests.{
  memory_store, memory_store-IsLawful, no_rows, sample_codecs, sample_codecs-IsLawful, hasher,
  FileMetadata-discrete, PendingDownloadRecord-discrete,
}
use rust_dfs.Tests.GrpcTests.{answered, client, plain_text, downloading}

abbrev asked : memory_store.State
asked =
    (download_file memory_fs memory_store hasher sample_codecs.metadata plain_text answered 3 7
      (text "/d") client).1.records

sound : NeverFails (memory_store.stream_pending_downloads asked)
unfolding download_file path_of join PathBuf-discrete ℕ_discrete show_nat rocksdb_store no_rows key
    from_u64 FileMetadata-discrete PendingDownloadRecord-discrete placed
sound ℕ.zero e at = cc at
sound (ℕ.suc j) e at = cc at

download_file_starts_example :
    (m : FileMetadata) × (answered.answer ≡ ok (some m))
    × (has_key
          (keys
            (work_on_pending_downloads
              (λ i. 5)
              (memory_store.stream_pending_downloads asked)
              new).running)
          (key hasher (
            placed memory_fs memory_store hasher sample_codecs.metadata plain_text
              (path_of (text "/d"))
              m))
        ≡ true)
download_file_starts_example =
    download_file_starts memory_fs memory_fs-IsLawful memory_fs-IsReliable memory_store
      memory_store-IsLawful hasher sample_codecs.metadata sample_codecs-IsLawful.metadata plain_text
      answered 3 7 (text "/d") client (λ i. 5) downloading sound here (λ i e. cc)
