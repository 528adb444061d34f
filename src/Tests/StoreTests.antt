-- ===== src/Tests/StoreTests.antt =====
-- The store over a database in memory.
use native.Mathlib.Decide.{ℕ_discrete}
use rust_dfs.Base.{true, [], ◌∷◌}
use rust_dfs.Base.Text.{Bytes, text}
use rust_dfs.Base.Paths.{PathBuf}
use rust_dfs.Domain.{
  FileMetadata, PendingDownloadRecord, PublishedFileRecord, PublishedFile, FileChunkRequest,
  FileSearchRequest, Sha256Hasher,
}
use rust_dfs.Domain.Keys.{PublishedFileKey}
use rust_dfs.Store.Interface
use rust_dfs.Store.Interface.{FileStore, StoreError, cf_missing}
use rust_dfs.Store.Codec.{Cbor, Codecs}
use rust_dfs.Store.Codec
use rust_dfs.Store.Rocksdb.{rocksdb_store}
use rust_dfs.Store.Rocksdb.Laws.{rocksdb_store-IsLawful}
use rust_dfs.Tests.Files.{PathBuf-discrete}
use rust_dfs.Tests.Hashes.{encode}
use rust_dfs.Tests.Database.{memory_db, memory_db-IsLawful, one_value, one_value-ReadsBack}

abbrev pub hello : Bytes
hello = text "hello"

abbrev pub downloads_dir : PathBuf
downloads_dir = record { absolute = true; components = text "d" ∷ [] }

abbrev pub chunks_dir : PathBuf
chunks_dir = record { absolute = true; components = text "d" ∷ text "f_chunks" ∷ [] }

abbrev pub sample_metadata : FileMetadata
sample_metadata = record {
  original_file_name = text "f";
  total_chunks = 1;
  chunks_dir = chunks_dir;
  merkle_root = encode (hello ∷ []);
  merkle_proofs = (0 ∷ []) ∷ [];
  chunk_file_extension = text "chunk";
  public = true;
}

abbrev pub sample_key : PublishedFileKey
sample_key = record { bytes = 0 ∷ 0 ∷ 0 ∷ 0 ∷ 0 ∷ 0 ∷ 0 ∷ 7 ∷ [] }

abbrev pub sample_published : PublishedFileRecord
sample_published = record {
  key = sample_key;
  original_file_name = text "f";
  chunks_dir = chunks_dir;
  public = true;
}

abbrev pub sample_pending : PendingDownloadRecord
sample_pending = record {
  key = sample_key;
  original_file_name = text "f";
  chunks_dir = chunks_dir;
  downloaded_chunks = [];
}

unfoldable pub FileMetadata-discrete : Discrete FileMetadata
FileMetadata-discrete = hlevel (ℕ_discrete, PathBuf-discrete)

unfoldable pub PublishedFileRecord-discrete : Discrete PublishedFileRecord
PublishedFileRecord-discrete = hlevel (ℕ_discrete, PathBuf-discrete)

unfoldable pub PendingDownloadRecord-discrete : Discrete PendingDownloadRecord
PendingDownloadRecord-discrete = hlevel (ℕ_discrete, PathBuf-discrete)

unfoldable pub PublishedFile-discrete : Discrete PublishedFile
PublishedFile-discrete = hlevel ℕ_discrete

unfoldable pub FileChunkRequest-discrete : Discrete FileChunkRequest
FileChunkRequest-discrete = hlevel ℕ_discrete

unfoldable pub FileSearchRequest-discrete : Discrete FileSearchRequest
FileSearchRequest-discrete = hlevel ℕ_discrete

abbrev pub sample_codecs : Codecs
sample_codecs = record {
  metadata = one_value FileMetadata-discrete sample_metadata;
  published = one_value PublishedFileRecord-discrete sample_published;
  pending = one_value PendingDownloadRecord-discrete sample_pending;
  published_file =
      one_value PublishedFile-discrete
        (record { total_chunks = 1; merkle_root = encode (hello ∷ []) });
  chunk_request = one_value FileChunkRequest-discrete (record { file_id = 7; chunk_id = 0 });
  search_request =
      one_value FileSearchRequest-discrete
        (record { session_id = text "f"; search_value = text "f" });
}

pub sample_codecs-IsLawful : Codec.IsLawful sample_codecs
sample_codecs-IsLawful = record {
  metadata = one_value-ReadsBack FileMetadata-discrete sample_metadata;
  published = one_value-ReadsBack PublishedFileRecord-discrete sample_published;
  pending = one_value-ReadsBack PendingDownloadRecord-discrete sample_pending;
  published_file = one_value-ReadsBack PublishedFile-discrete _;
  chunk_request = one_value-ReadsBack FileChunkRequest-discrete _;
  search_request = one_value-ReadsBack FileSearchRequest-discrete _;
}

-- Every file has the key of number 7.
abbrev pub hasher : Sha256Hasher
hasher = record { finish = λ writes. 7 }

abbrev pub memory_store : FileStore
memory_store = rocksdb_store hasher sample_codecs memory_db

unfoldable pub no_rows : memory_store.State
unfolding rocksdb_store
no_rows = []

pub memory_store-IsLawful : Interface.IsLawful memory_store
memory_store-IsLawful =
    rocksdb_store-IsLawful hasher sample_codecs memory_db sample_codecs-IsLawful memory_db-IsLawful
