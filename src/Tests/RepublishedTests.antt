-- ===== src/Tests/RepublishedTests.antt =====
-- A file of two bytes that is changed to five bytes and published again.
use native.Mathlib.Decide.{ℕ_discrete}
use rust_dfs.Base.{ℕ, ◌≡◌, refl, true, none, some, List, [], ◌∷◌, arith, ok, length, get_elem?}
use rust_dfs.Base.Text.{Bytes, text, replace}
use rust_dfs.Base.Paths.{path_of, join, parent, file_name}
use rust_dfs.Base.Decimal.{show_nat}
use rust_dfs.Domain.{
  FileMetadata, Sha256Hasher, HashWrite, array, key, hash, published_record, success,
}
use rust_dfs.Domain.Keys.{from_u64, to_be_bytes}
use rust_dfs.Store.Codec.{Cbor, ReadsBack}
use rust_dfs.Store.Interface.{FileStore}
use rust_dfs.Store.Rocksdb.{rocksdb_store}
use rust_dfs.Processing.Split.{chunk_path, chunk_size}
use rust_dfs.Processing.Split.Chunks.{chunks}
use rust_dfs.Processing.Publish.{process_file}
use rust_dfs.Events.Serving.{answer_file_request, answer_metadata_request}
use rust_dfs.Transfer.Serving.{republished_served}
use rust_dfs.Tests.Files.{
  memory_fs, memory_fs-IsLawful, memory_fs-IsReliable, Disk, update, PathBuf-discrete,
}
use rust_dfs.Tests.Hashes.{plain_merkle, plain_merkle-IsLawful, encode}
use rust_dfs.Tests.Database.{memory_db, one_value, two_values, two_values-ReadsBack}
use rust_dfs.Tests.StoreTests.{
  sample_codecs, sample_metadata, hello, downloads_dir, FileMetadata-discrete,
  PublishedFileRecord-discrete,
}
use rust_dfs.Tests.PublishTests.{original, opened}
use rust_dfs.Tests.EndsTests.{regular, above, named}

-- The file before its change.
abbrev draft : Disk
draft =
    update (λ p. none) (record { absolute = true; components = text "d" ∷ text "f" ∷ [] })
      (some (text "hi"))

abbrev pub draft_metadata : FileMetadata
draft_metadata = record sample_metadata { merkle_root = encode (text "hi" ∷ []) }

-- The id of a file is the length of its root.
abbrev root_length : List HashWrite → ℕ
root_length [] = 0
root_length (array root ∷ more) = length root
root_length (_ ∷ more) = root_length more

abbrev pub by_root : Sha256Hasher
by_root = record { finish = root_length }

abbrev pub both : Cbor FileMetadata
both = two_values FileMetadata-discrete sample_metadata draft_metadata

pub both-ReadsBack : ReadsBack both
both-ReadsBack = two_values-ReadsBack FileMetadata-discrete sample_metadata draft_metadata

abbrev store : FileStore
store =
    rocksdb_store by_root
      (record sample_codecs {
        published =
            one_value PublishedFileRecord-discrete (published_record by_root draft_metadata);
      })
      memory_db

empty_rows : store.State
unfolding rocksdb_store
empty_rows = []

-- The record of the draft is still stored.
abbrev rows : store.State
rows = (store.put_published_file (published_record by_root draft_metadata) empty_rows).1

drafted :
    (process_file memory_fs both plain_merkle 9 (text "/d/f") true draft).0 ≡ ok draft_metadata
unfolding process_file path_of parent file_name join PathBuf-discrete ℕ_discrete chunk_path show_nat
    replace FileMetadata-discrete
drafted = refl

changed :
    (process_file memory_fs both plain_merkle 9 (text "/d/f") true original).0 ≡ ok sample_metadata
unfolding process_file path_of parent file_name join PathBuf-discrete ℕ_discrete chunk_path show_nat
    replace FileMetadata-discrete
changed = refl

draft_there :
    store.get_published_file (key by_root draft_metadata) rows
    ≡ ok (some (published_record by_root draft_metadata))
unfolding rocksdb_store empty_rows published_record key hash to_be_bytes
    PublishedFileRecord-discrete PathBuf-discrete ℕ_discrete
draft_there = refl

draft_id : from_u64 3 ≡ key by_root draft_metadata
unfolding from_u64 key hash to_be_bytes
draft_id = refl

republished_served_example :
    ((i : ℕ) (c : Bytes)
      → get_elem? (chunks 9 chunk_size hello) i ≡ some c
      → answer_file_request memory_fs store both
          (λ e. text "store")
          (process_file memory_fs both plain_merkle 9 (text "/d/f") true original).1
          rows
          (record { file_id = 3; chunk_id = i })
        ≡ success c)
    × (raw : Bytes) × (answer_metadata_request memory_fs store both
          (λ e. text "store")
          (process_file memory_fs both plain_merkle 9 (text "/d/f") true original).1
          rows
          (record { file_id = 3 })
        ≡ success raw)
    × (both.from_slice raw ≡ ok sample_metadata)
republished_served_example =
    republished_served memory_fs memory_fs-IsLawful memory_fs-IsReliable store by_root both
      both-ReadsBack (λ e. text "store") plain_merkle plain_merkle-IsLawful 9 (text "/d/f")
      downloads_dir (text "f") hello true original sample_metadata draft_metadata rows 3 9 true
      draft regular opened above named (omega arith) (λ e. cc) drafted changed draft_there draft_id
