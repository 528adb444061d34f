-- ===== src/Tests/InterleavedTests.antt =====
-- The download of a file of five bytes, whose task takes a permit while another download has one.
use native.Mathlib.Decide.{ℕ_discrete}
use rust_dfs.Base.{◌≡◌, refl, true, false, arith, ok, length, ◌==◌}
use rust_dfs.Base.Text.{text, replace}
use rust_dfs.Base.Paths.{path_of, join}
use rust_dfs.Base.Sets.{contains, insert}
use rust_dfs.Base.Decimal.{show_nat}
use rust_dfs.Domain.{key}
use rust_dfs.Domain.Keys.{from_u64}
use rust_dfs.Store.Rocksdb.{rocksdb_store}
use rust_dfs.Processing.Split.{chunk_path}
use rust_dfs.Download.Verify.{verify_chunk}
use rust_dfs.Download.Chunk.{download_file_chunk}
use rust_dfs.Download.Service.{process_completed}
use rust_dfs.Download.Service.Download.{joined, chunk_of, outcome}
use rust_dfs.Download.Concurrent.{
  Tasks, spawned, spawn_tasks, work, acquired, worked, taken, own, other, Reach, here, next,
}
use rust_dfs.Grpc.Download.{download_file, placed, pending_of}
use rust_dfs.Transfer.Interleaved.{tasks_of, interleaved_transfer}
use rust_dfs.Tests.Files.{memory_fs, memory_fs-IsLawful, memory_fs-IsReliable, PathBuf-discrete}
use rust_dfs.Tests.Hashes.{plain_merkle, plain_merkle-IsLawful}
use rust_dfs.Tests.StoreTests.{
  memory_store, memory_store-IsLawful, no_rows, sample_codecs, sample_codecs-IsLawful,
  sample_metadata, hasher, hello, FileMetadata-discrete, PendingDownloadRecord-discrete,
}
use rust_dfs.Tests.DownloadTests.{answers, IsPlain-part}
use rust_dfs.Tests.PublishTests.{original, opened}
use rust_dfs.Tests.GrpcTests.{plain_text, answered, client, downloading}
use rust_dfs.Tests.TransferTests.{processed, sub-IsPlain}

abbrev World : Type 0
World = Tasks memory_fs memory_store

abbrev spawned_now : World
spawned_now =
    tasks_of memory_fs memory_fs-IsLawful memory_fs-IsReliable memory_store hasher
      sample_codecs.metadata plain_text plain_merkle plain_merkle-IsLawful sample_metadata answered
      3 7 (text "/d") client 1 1

abbrev Run : World → Type 0
Run u = Reach memory_fs memory_store sample_codecs.metadata plain_merkle spawned_now u

abbrev fetching : (u : World) × Run u
unfolding spawn_tasks spawned contains pending_of placed
fetching = (_, next here (own (acquired 0 refl (omega arith))))

-- While the chunk is fetched, the other download ends its task.
abbrev alone : (u : World) × Run u
unfolding fetching spawn_tasks
alone = (
  _,
  next fetching.1 (
      other 1 0 fetching.0.progress.files fetching.0.progress.records (omega arith)
        (λ name _. refl)),
)

abbrev fetched : (u : World) × Run u
unfolding alone fetching spawn_tasks spawned contains work pending_of placed
fetched = (_, next (next alone.1 (own (worked 0 (answers 0) refl))) (own (taken 0 _ refl)))

all_counted :
    outcome fetched.0.progress.first_error
      (length fetched.0.progress.pending.downloaded_chunks == 1)
    ≡ ok true
unfolding joined download_file_chunk PathBuf-discrete ℕ_discrete chunk_path join show_nat
    verify_chunk contains insert chunk_of spawn_tasks work fetched alone fetching download_file
    path_of rocksdb_store no_rows key from_u64 FileMetadata-discrete PendingDownloadRecord-discrete
    placed pending_of replace
all_counted = refl

absent :
    memory_fs.try_exists (join (path_of (text "/d")) (text "f")) fetched.0.progress.files ≡ ok false
unfolding joined download_file_chunk PathBuf-discrete ℕ_discrete chunk_path join show_nat
    verify_chunk contains insert chunk_of spawn_tasks work fetched alone fetching download_file
    path_of rocksdb_store no_rows key from_u64 FileMetadata-discrete PendingDownloadRecord-discrete
    placed pending_of replace
absent = refl

interleaved_transfer_example :
    memory_fs.read
      (join (path_of (text "/d")) (text "f"))
      (process_completed memory_fs memory_store sample_codecs.metadata false
        fetched.0.progress.pending
        (fetched.0.progress.files, fetched.0.progress.records)).1.0
    ≡ memory_fs.read (path_of (text "/d/f")) original
interleaved_transfer_example =
    interleaved_transfer memory_fs memory_fs-IsLawful memory_fs-IsReliable memory_store hasher
      sample_codecs.metadata plain_text plain_merkle plain_merkle-IsLawful sample_metadata answered
      3 7 (text "/d") client 9 (text "/d/f") true original hello 1 1 fetched.0
      sample_codecs-IsLawful.metadata memory_store-IsLawful opened (omega arith) processed refl
      downloading fetched.1 all_counted sub-IsPlain IsPlain-part absent false
