-- ===== src/Tests/ConcurrentTests.antt =====
-- The download of one chunk, whose task takes a permit while another download has one.
use native.Mathlib.Decide.{ℕ_discrete}
use rust_dfs.Base.{ℕ, ◌+◌, ◌*◌, ◌<◌, ◌≤◌, ◌≡◌, ◌⊎◌, refl, arith, ok, true, false, [], length, ◌==◌}
use rust_dfs.Base.Text.{text}
use rust_dfs.Base.Sets.{contains, insert}
use rust_dfs.Base.Paths.{join}
use rust_dfs.Base.Decimal.{show_nat}
use rust_dfs.Processing.Split.{chunk_path}
use rust_dfs.Download.Verify.{verify_chunk}
use rust_dfs.Download.Chunk.{download_file_chunk}
use rust_dfs.Download.Service.Download.{joined, chunk_of, download, outcome}
use rust_dfs.Download.Concurrent.{
  gone, Tasks, spawned, spawn_tasks, work, Own, acquired, worked, taken, own, other, Reach, here,
  next, running,
}
use rust_dfs.Download.Concurrent.Total.{total, held_by, left_of}
use rust_dfs.Download.Concurrent.Permits.{running_bounded}
use rust_dfs.Download.Concurrent.Complete.{interleaved_complete}
use rust_dfs.Download.Concurrent.Restored.{interleaved_restores}
use rust_dfs.Download.Service.{process_completed}
use rust_dfs.Download.Concurrent.Live.{only_answers_awaited}
use rust_dfs.Download.Concurrent.Schedule.{download_schedule}
use rust_dfs.Tests.Files.{memory_fs, PathBuf-discrete, memory_fs-IsLawful, memory_fs-IsReliable}
use rust_dfs.Tests.Hashes.{plain_merkle, plain_merkle-IsLawful}
use rust_dfs.Tests.StoreTests.{
  memory_store, no_rows, sample_pending, sample_metadata, chunks_dir, downloads_dir, hello,
}
use rust_dfs.Tests.DownloadTests.{
  one_codec, started, answers, pieces, tree, chunk_extension, trusted, below, IsPlain-sub,
  IsPlain-part, in_order-IsReordering,
}

abbrev World : Type 0
World = Tasks memory_fs memory_store

abbrev spawned_now : World
spawned_now =
    spawn_tasks memory_fs memory_store one_codec plain_merkle sample_pending 1 1 1 started no_rows

abbrev Run : World → Type 0
Run u = Reach memory_fs memory_store one_codec plain_merkle spawned_now u

abbrev fetching : (u : World) × Run u
unfolding spawn_tasks spawned contains
fetching = (_, next here (own (acquired 0 refl (omega arith))))

-- While the chunk is fetched, the other download ends its task.
abbrev alone : (u : World) × Run u
unfolding fetching spawn_tasks
alone = (_, next fetching.1 (other 1 0 started no_rows (omega arith) (λ name _. refl)))

abbrev fetched : (u : World) × Run u
unfolding alone fetching spawn_tasks spawned contains work
fetched = (_, next (next alone.1 (own (worked 0 (answers 0) refl))) (own (taken 0 _ refl)))

all_counted :
    outcome fetched.0.progress.first_error
      (length fetched.0.progress.pending.downloaded_chunks == 1)
    ≡ ok true
unfolding joined download_file_chunk PathBuf-discrete ℕ_discrete chunk_path join show_nat
    verify_chunk contains insert chunk_of spawn_tasks work fetched alone fetching
all_counted = refl

running_bounded_example :
    (total held_by 1 fetching.0.task + fetching.0.elsewhere ≤ 1 + 1)
    × ((i : ℕ) → fetching.0.task i ≡ running → i < 1)
running_bounded_example =
    running_bounded memory_fs memory_store one_codec plain_merkle sample_pending 1 1 1 started
      no_rows fetching.0 fetching.1

interleaved_complete_example :
    memory_fs.read (chunk_path chunks_dir 0 (text "chunk")) fetched.0.progress.files ≡ ok hello
interleaved_complete_example =
    interleaved_complete memory_fs memory_fs-IsLawful memory_store one_codec plain_merkle
      plain_merkle-IsLawful sample_metadata pieces tree chunk_extension sample_pending 1 1 started
      no_rows trusted fetched.0 fetched.1 refl all_counted 0 hello refl

absent : memory_fs.try_exists (join downloads_dir (text "f")) fetched.0.progress.files ≡ ok false
unfolding joined download_file_chunk PathBuf-discrete ℕ_discrete chunk_path join show_nat
    verify_chunk contains insert chunk_of spawn_tasks work fetched alone fetching
absent = refl

interleaved_restores_example :
    memory_fs.read
      (join downloads_dir (text "f"))
      (process_completed memory_fs memory_store one_codec false fetched.0.progress.pending
        (fetched.0.progress.files, fetched.0.progress.records)).1.0
    ≡ ok hello
interleaved_restores_example =
    interleaved_restores memory_fs memory_fs-IsLawful memory_store one_codec plain_merkle
      plain_merkle-IsLawful sample_metadata pieces tree chunk_extension sample_pending 1 1 started
      no_rows trusted fetched.0 fetched.1 refl all_counted memory_fs-IsReliable downloads_dir
      (text "f_chunks") below refl IsPlain-sub IsPlain-part absent false

only_answers_awaited_example :
    (total left_of 1 alone.0.task ≤ 3 * 1)
    × ((v : World)
        → Own memory_fs memory_store one_codec plain_merkle alone.0 v
        → total left_of 1 v.task + 1 ≡ total left_of 1 alone.0.task)
    × (((i : ℕ) → alone.0.task i ≡ gone)
        ⊎ ((j : ℕ) × (alone.0.task j ≡ running))
        ⊎ ((v : World) × Own memory_fs memory_store one_codec plain_merkle alone.0 v))
unfolding alone
only_answers_awaited_example =
    only_answers_awaited memory_fs memory_store one_codec plain_merkle sample_pending 1 1 1 started
      no_rows alone.0 alone.1 (omega arith) refl

download_schedule_example :
    (u : World) × Run u
    × ((i : ℕ) → u.task i ≡ gone)
    × (download memory_fs memory_store one_codec plain_merkle
          (λ xs. xs)
          answers
          sample_pending
          started
          no_rows
        ≡ (
          outcome u.progress.first_error (length u.progress.pending.downloaded_chunks == 1),
          u.progress,
        ))
unfolding join PathBuf-discrete ℕ_discrete
download_schedule_example =
    download_schedule memory_fs memory_store one_codec plain_merkle (λ xs. xs) in_order-IsReordering
      answers sample_pending 1 1 started no_rows sample_metadata [] refl refl (omega arith)
