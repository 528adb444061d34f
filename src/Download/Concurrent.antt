-- ===== src/Download/Concurrent.antt =====
-- The tasks of `download` (src/app/file_download_service.rs) side by side: each waits for a permit
-- of the semaphore that all downloads share, fetches its chunk while it holds the permit, and its
-- result is taken by `join_next` in any order. What happens between the permit's two ends is one
-- step: of the files, a task reads the metadata, which no task writes, and writes its own chunk.
pub mod Total
pub mod Permits
pub mod Sound
pub mod Complete
pub mod Stored
pub mod Live
pub mod Schedule
pub mod Beside
pub mod Restored
use rust_dfs.Base.{ℕ, suc, ◌+◌, ◌-◌, ◌<◌, ◌≡◌, Option, some, none, if◌then◌else◌, ◌==◌, ltb, length}
use rust_dfs.Base.{Result, ok}
use rust_dfs.Base.Text.{Text}
use rust_dfs.Base.Sets.{contains}
use rust_dfs.Base.Paths.{IsPlain, join}
use rust_dfs.Domain.{FileMetadata, PendingDownloadRecord}
use rust_dfs.Store.Codec.{Cbor}
use rust_dfs.Store.Interface.{FileStore}
use rust_dfs.Processing.Fs.{Fs}
use rust_dfs.Processing.Merkle.{Merkle}
use rust_dfs.Download.Chunk.{Answers, download_file_chunk}
use rust_dfs.Download.Service.Download.{Progress, chunk_of, joined}

-- Where the task of a chunk stands.
pub data Task : Type 0 where
  gone : Task  -- not spawned, or its result was taken
  waiting : Task  -- in `acquire`
  running : Task  -- it holds a permit
  ended : (result : Result Text (Option ℕ)) → Task  -- it gave the permit back

-- The tasks by chunk, and the permits: those that are free and those that other downloads hold.
pub record Tasks (fs : Fs) (S : FileStore) : Type 0 where
  pub task : ℕ → Task
  pub permits : ℕ
  pub elsewhere : ℕ
  pub progress : Progress fs S

abbrev pub set : ℕ → Task → (ℕ → Task) → ℕ → Task
set i t tasks j = if i == j then t else tasks j

-- The loop that spawns: a task for every chunk, of `n`, that is not here yet.
unfoldable pub spawned : PendingDownloadRecord → ℕ → ℕ → Task
spawned r n i = if ltb i n then (if contains r.downloaded_chunks i then gone else waiting) else gone

module _ (fs : Fs) (S : FileStore) (codec : Cbor FileMetadata) (M : Merkle) where
  unfoldable pub work : ℕ → Answers → Tasks fs S → Tasks fs S
  unfolding chunk_of
  work i a t =
      let (result, files) =
        download_file_chunk fs codec M (chunk_of fs S codec M t.progress.pending i) a
          t.progress.files in
      record t {
        task = set i (ended result) t.task;
        permits = suc t.permits;
        progress = record t.progress { files = files };
      }

  -- A step of a task, or of the loop over `join_next`. A task that holds its permit goes on only when
  -- its request is answered, which need not happen.
  pub data Own (t : Tasks fs S) : Tasks fs S → Type 0 where
    acquired :
        (i : ℕ)
        → t.task i ≡ waiting
        → 0 < t.permits
        → Own t (record t { task = set i running t.task; permits = t.permits - 1 })
    worked : (i : ℕ) (a : Answers) → t.task i ≡ running → Own t (work i a t)
    taken :
        (i : ℕ) (result : Result Text (Option ℕ))
        → t.task i ≡ ended result
        → Own t (record t {
          task = set i gone t.task;
          progress = joined fs S codec M result t.progress;
        })

  -- Meanwhile the rest of the program takes permits and gives them back, and it changes the store,
  -- and the disk outside of the directory of this download. A program that does otherwise, as a second
  -- download does that gets the same directory (Transfer.Clash), is left out here.
  pub data Step (t : Tasks fs S) : Tasks fs S → Type 0 where
    own : {u : Tasks fs S} → Own t u → Step t u
    other :
        (permits elsewhere : ℕ) (files : fs.State) (records : S.State)
        → permits + elsewhere ≡ t.permits + t.elsewhere
        → ((name : Text)
            → IsPlain name
            → fs.read (join t.progress.pending.chunks_dir name) files
              ≡ fs.read (join t.progress.pending.chunks_dir name) t.progress.files)
        → Step t (record t {
          permits = permits;
          elsewhere = elsewhere;
          progress = record t.progress { files = files; records = records };
        })

  -- The tasks when they have been spawned, for a file of `n` chunks.
  unfoldable pub spawn_tasks : PendingDownloadRecord → ℕ → ℕ → ℕ → fs.State → S.State → Tasks fs S
  unfolding spawned
  spawn_tasks r n permits elsewhere files records = record {
    task = spawned r n;
    permits = permits;
    elsewhere = elsewhere;
    progress = record { files = files; records = records; pending = r; first_error = none };
  }

  pub data Reach (t : Tasks fs S) : Tasks fs S → Type 0 where
    here : Reach t t
    next : {u v : Tasks fs S} → Reach t u → Step u v → Reach t v
