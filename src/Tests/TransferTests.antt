-- ===== src/Tests/TransferTests.antt =====
-- A file of five bytes on its way.
use native.Mathlib.Decide.{ℕ_discrete}
use rust_dfs.Base.{ℕ, ◌≡◌, refl, true, some, arith, ok, get_elem?, ◌++◌}
use rust_dfs.Base.Text.{Bytes, text, replace}
use rust_dfs.Base.Paths.{path_of, join, parent, file_name, IsPlain}
use rust_dfs.Base.Decimal.{show_nat}
use rust_dfs.Domain.{success, key, get_chunks_dir_name_prefix}
use rust_dfs.Domain.Keys.{from_u64}
use rust_dfs.Store.Rocksdb.{rocksdb_store}
use rust_dfs.Processing.Split.{chunk_path, chunk_size}
use rust_dfs.Processing.Split.Chunks.{chunks}
use rust_dfs.Processing.Publish.{process_file}
use rust_dfs.Domain.{published_record}
use rust_dfs.Events.Serving.{answer_file_request, answer_metadata_request}
use rust_dfs.Transfer.Serving.{publication_served}
use rust_dfs.Tests.EndsTests.{regular, above, named}
use rust_dfs.Tests.StoreTests.{downloads_dir, PublishedFileRecord-discrete}
use rust_dfs.Tests.Files.{memory_fs, memory_fs-IsLawful, memory_fs-IsReliable, PathBuf-discrete}
use rust_dfs.Tests.Hashes.{plain_merkle, plain_merkle-IsLawful}
use rust_dfs.Tests.StoreTests.{
  memory_store, no_rows, sample_codecs, sample_codecs-IsLawful, sample_metadata, hasher, hello,
  FileMetadata-discrete,
}
use rust_dfs.Tests.DownloadTests.{IsPlain-sub}
use rust_dfs.Tests.PublishTests.{original, opened}

pub processed :
    (process_file memory_fs sample_codecs.metadata plain_merkle 9 (text "/d/f") true original).0
    ≡ ok sample_metadata
unfolding process_file path_of parent file_name join PathBuf-discrete ℕ_discrete chunk_path show_nat
    replace FileMetadata-discrete
processed = refl

pub sub-IsPlain : IsPlain (get_chunks_dir_name_prefix sample_metadata ++ text "_chunks")
unfolding get_chunks_dir_name_prefix replace
sub-IsPlain = IsPlain-sub

abbrev pub published_rows : memory_store.State
published_rows =
    (memory_store.put_published_file (published_record hasher sample_metadata) no_rows).1

pub row_there :
    memory_store.get_published_file (key hasher sample_metadata) published_rows
    ≡ ok (some (published_record hasher sample_metadata))
unfolding rocksdb_store no_rows published_record key PublishedFileRecord-discrete PathBuf-discrete
    ℕ_discrete
row_there = refl

pub same_id : from_u64 7 ≡ key hasher sample_metadata
unfolding from_u64 key
same_id = refl

publication_served_example :
    ((i : ℕ) (c : Bytes)
      → get_elem? (chunks 9 chunk_size hello) i ≡ some c
      → answer_file_request memory_fs memory_store sample_codecs.metadata
          (λ e. text "store")
          (process_file memory_fs sample_codecs.metadata plain_merkle 9
            (text "/d/f")
            true
            original).1
          published_rows
          (record { file_id = 7; chunk_id = i })
        ≡ success c)
    × (raw : Bytes) × (answer_metadata_request memory_fs memory_store sample_codecs.metadata
          (λ e. text "store")
          (process_file memory_fs sample_codecs.metadata plain_merkle 9
            (text "/d/f")
            true
            original).1
          published_rows
          (record { file_id = 7 })
        ≡ success raw)
    × (sample_codecs.metadata.from_slice raw ≡ ok sample_metadata)
publication_served_example =
    publication_served memory_fs memory_fs-IsLawful memory_fs-IsReliable memory_store hasher
      sample_codecs.metadata sample_codecs-IsLawful.metadata (λ e. text "store") plain_merkle
      plain_merkle-IsLawful 9 (text "/d/f") downloads_dir (text "f") hello true original
      sample_metadata published_rows 7 regular opened above named (omega arith) (λ e. cc) processed
      row_there same_id
