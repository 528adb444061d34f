-- ===== src/Tests/PublishTests.antt =====
-- A publication, and a request for a chunk of the published file.
use native.Mathlib.Decide.{ℕ_discrete}
use rust_dfs.Base.{◌≡◌, refl, true, some, [], ok, ◌⊎◌}
use rust_dfs.Base.{arith, none, ◌∷◌, []}
use rust_dfs.Base.Paths.{path_of, parent, file_name}
use rust_dfs.Base.Text.{replace}
use rust_dfs.Processing.Publish.{process_file}
use rust_dfs.Processing.Publish.Laws.{Describes, process_file-Describes}
use rust_dfs.Processing.Split.{chunk_size}
use rust_dfs.Processing.Split.Chunks.{chunks}
use rust_dfs.Tests.Files.{Disk, update, memory_fs-IsLawful, memory_fs-IsReliable}
use rust_dfs.Tests.Hashes.{plain_merkle}
use rust_dfs.Base.Text.{text}
use rust_dfs.Base.Sets.{contains}
use rust_dfs.Base.Paths.{join}
use rust_dfs.Base.Decimal.{show_nat}
use rust_dfs.Domain.{published_record, key, PublishedFileRecord, PendingDownloadRecord, success}
use rust_dfs.Domain.Keys.{from_u64}
use rust_dfs.Store.Rocksdb.{rocksdb_store}
use rust_dfs.Processing.Split.{chunk_path}
use rust_dfs.Events.State.{new}
use rust_dfs.Events.Commands.{provide_all}
use rust_dfs.Events.Serving.{answer_file_request}
use rust_dfs.Events.Serving.Laws.{IsChunkOf, answer_file_request-success}
use rust_dfs.Events.Publishing.{Node}
use rust_dfs.Tests.Files.{memory_fs, PathBuf-discrete}
use rust_dfs.Tests.StoreTests.{
  memory_store, no_rows, sample_codecs, sample_metadata, hasher, hello,
  PublishedFileRecord-discrete,
}
use rust_dfs.Tests.DownloadTests.{one_codec}
use rust_dfs.Tests.RestoreTests.{fetched}
use rust_dfs.Tests.EventsTests.{quiet_net}

abbrev before : Node quiet_net hasher sample_codecs memory_store
before = record { world = record { service = new; log = [] }; records = no_rows }

abbrev after : Node quiet_net hasher sample_codecs memory_store
after = record {
  world = (provide_all quiet_net hasher sample_codecs sample_metadata before.world).1;
  records =
      (memory_store.delete_file_metadata (key hasher sample_metadata)
        (memory_store.put_published_file (published_record hasher sample_metadata) no_rows).1).1;
}

served :
    answer_file_request memory_fs memory_store one_codec
      (λ e. text "store")
      fetched
      after.records
      (record { file_id = 7; chunk_id = 0 })
    ≡ success hello
unfolding answer_file_request from_u64 key ℕ_discrete rocksdb_store no_rows published_record
    PublishedFileRecord-discrete PathBuf-discrete chunk_path join show_nat
served = refl

answer_file_request-success_example :
    ((r : PublishedFileRecord) × (memory_store.get_published_file (from_u64 7) after.records
        ≡ ok (some r))
      × IsChunkOf memory_fs memory_store one_codec
          (λ e. text "store")
          fetched
          after.records
          r.chunks_dir
          0
          hello)
    ⊎ ((r : PendingDownloadRecord) × (memory_store.get_pending_download (from_u64 7) after.records
          ≡ ok (some r))
        × (contains r.downloaded_chunks 0 ≡ true)
        × IsChunkOf memory_fs memory_store one_codec
            (λ e. text "store")
            fetched
            after.records
            r.chunks_dir
            0
            hello)
answer_file_request-success_example =
    answer_file_request-success memory_fs memory_store one_codec (λ e. text "store") fetched
      after.records (record { file_id = 7; chunk_id = 0 }) hello served

abbrev pub original : Disk
original =
    update (λ p. none) (record { absolute = true; components = text "d" ∷ text "f" ∷ [] })
      (some hello)

pub opened : memory_fs.open_file (path_of (text "/d/f")) original ≡ ok hello
unfolding path_of PathBuf-discrete ℕ_discrete
opened = refl

processed :
    (process_file memory_fs one_codec plain_merkle 9 (text "/d/f") true original).0
    ≡ ok sample_metadata
unfolding process_file path_of parent file_name join PathBuf-discrete ℕ_discrete chunk_path show_nat
    replace
processed = refl

process_file-Describes_example :
    Describes memory_fs memory_fs-IsLawful memory_fs-IsReliable one_codec plain_merkle
      sample_metadata
      (chunks 9 chunk_size hello)
process_file-Describes_example =
    process_file-Describes memory_fs memory_fs-IsLawful memory_fs-IsReliable one_codec plain_merkle
      9 (text "/d/f") true original hello sample_metadata opened (omega arith) processed
