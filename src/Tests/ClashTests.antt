-- ===== src/Tests/ClashTests.antt =====
-- Two files of one name, downloaded into one directory.
use native.Mathlib.Decide.{ℕ_discrete}
use rust_dfs.Base.{◌≡◌, ◌≢◌, refl, true, none, some, ok, []}
use rust_dfs.Base.Text.{Bytes, text, replace}
use rust_dfs.Base.Decimal.{show_nat}
use rust_dfs.Base.Paths.{path_of, join}
use rust_dfs.Domain.{
  PendingDownloadRecord, key, hash, get_chunks_dir_name_prefix, new_pending_download,
}
use rust_dfs.Domain.Keys.{from_u64, to_be_bytes}
use rust_dfs.Processing.Publish.{metadata_file_name}
use rust_dfs.Store.Codec.{Codecs}
use rust_dfs.Store.Codec
use rust_dfs.Store.Interface.{FileStore}
use rust_dfs.Store.Interface
use rust_dfs.Store.Rocksdb.{rocksdb_store}
use rust_dfs.Store.Rocksdb.Laws.{rocksdb_store-IsLawful}
use rust_dfs.Grpc.State.{Node}
use rust_dfs.Grpc.Download.{Replies, placed, pending_of, download_file}
use rust_dfs.Transfer.Clash.{download_file_clashes}
use rust_dfs.Tests.Files.{memory_fs, memory_fs-IsLawful, memory_fs-IsReliable, PathBuf-discrete}
use rust_dfs.Tests.Database.{memory_db, memory_db-IsLawful, two_values, two_values-ReadsBack}
use rust_dfs.Tests.StoreTests.{
  sample_codecs, sample_codecs-IsLawful, sample_metadata, chunks_dir, FileMetadata-discrete,
  PendingDownloadRecord-discrete,
}
use rust_dfs.Tests.GrpcTests.{answered, plain_text}
use rust_dfs.Tests.RepublishedTests.{draft_metadata, by_root, both, both-ReadsBack}

abbrev first_pending : PendingDownloadRecord
unfolding new_pending_download key hash to_be_bytes
first_pending = new_pending_download (key by_root sample_metadata) (text "f") chunks_dir

abbrev second_pending : PendingDownloadRecord
unfolding new_pending_download key hash to_be_bytes
second_pending = new_pending_download (key by_root draft_metadata) (text "f") chunks_dir

abbrev codecs : Codecs
codecs = record sample_codecs {
  metadata = both;
  pending = two_values PendingDownloadRecord-discrete first_pending second_pending;
}

codecs-IsLawful : Codec.IsLawful codecs
codecs-IsLawful = record {
  metadata = both-ReadsBack;
  published = sample_codecs-IsLawful.published;
  pending = two_values-ReadsBack PendingDownloadRecord-discrete first_pending second_pending;
  published_file = sample_codecs-IsLawful.published_file;
  chunk_request = sample_codecs-IsLawful.chunk_request;
  search_request = sample_codecs-IsLawful.search_request;
}

abbrev store : FileStore
store = rocksdb_store by_root codecs memory_db

store-IsLawful : Interface.IsLawful store
store-IsLawful = rocksdb_store-IsLawful by_root codecs memory_db codecs-IsLawful memory_db-IsLawful

empty_rows : store.State
unfolding rocksdb_store
empty_rows = []

abbrev node : Node memory_fs store
node = record { files = λ p. none; records = empty_rows; sent = [] }

abbrev namesake : Replies
namesake = record { request_sent = true; answer = ok (some draft_metadata); provide_sent = true }

-- The node after the first download, and after the second one.
abbrev once : Node memory_fs store
once = (download_file memory_fs store by_root both plain_text answered 3 6 (text "/d") node).1

abbrev twice : Node memory_fs store
twice = (download_file memory_fs store by_root both plain_text namesake 4 3 (text "/d") once).1

accepted_first :
    (download_file memory_fs store by_root both plain_text answered 3 6 (text "/d") node).0 ≡ ok tt
unfolding download_file path_of join PathBuf-discrete ℕ_discrete show_nat rocksdb_store empty_rows
    key hash to_be_bytes from_u64 FileMetadata-discrete PendingDownloadRecord-discrete placed
    pending_of replace first_pending second_pending
accepted_first = refl

accepted_second :
    (download_file memory_fs store by_root both plain_text namesake 4 3 (text "/d") once).0 ≡ ok tt
unfolding download_file path_of join PathBuf-discrete ℕ_discrete show_nat rocksdb_store empty_rows
    key hash to_be_bytes from_u64 FileMetadata-discrete PendingDownloadRecord-discrete placed
    pending_of replace first_pending second_pending
accepted_second = refl

keys_apart : key by_root sample_metadata ≢ key by_root draft_metadata
unfolding key hash to_be_bytes
keys_apart e = cc e

download_file_clashes_example :
    (store.get_pending_download (key by_root sample_metadata) twice.records
      ≡ ok (
          some (
            pending_of memory_fs store by_root both plain_text (
              placed memory_fs store by_root both plain_text
                (path_of (text "/d"))
                sample_metadata))))
    × (raw : Bytes) × (memory_fs.read
          (join
            (pending_of memory_fs store by_root both plain_text (
              placed memory_fs store by_root both plain_text
                (path_of (text "/d"))
                sample_metadata)).chunks_dir
            metadata_file_name)
          twice.files
        ≡ ok raw)
    × (both.from_slice raw
        ≡ ok (placed memory_fs store by_root both plain_text (path_of (text "/d")) draft_metadata))
unfolding get_chunks_dir_name_prefix
download_file_clashes_example =
    download_file_clashes memory_fs memory_fs-IsLawful memory_fs-IsReliable store store-IsLawful
      by_root both both-ReadsBack plain_text answered namesake 3 4 6 3 (text "/d") node
      sample_metadata draft_metadata accepted_first accepted_second refl refl refl keys_apart
