-- ===== src/Domain.antt =====
-- The records that the components share: src/app/file_store/domain.rs, src/app/p2p/domain.rs and
-- `FileMetadata` of src/app/file_processing/processing.rs.
pub mod Keys
use rust_dfs.Base.{ℕ, Bool, List, [], ◌∷◌}
use rust_dfs.Base.Text.{Bytes, Text, replace}
use rust_dfs.Base.Paths.{PathBuf, dot}
use Keys.{PublishedFileKey, to_be_bytes}

-- `FileMetadata`
pub record FileMetadata : Type 0 where
  pub original_file_name : Text
  pub total_chunks : ℕ
  pub chunks_dir : PathBuf
  pub merkle_root : Bytes
  pub merkle_proofs : List Bytes
  pub chunk_file_extension : Text
  pub public : Bool

-- `PublishedFileRecord`
pub record PublishedFileRecord : Type 0 where
  pub key : PublishedFileKey
  pub original_file_name : Text
  pub chunks_dir : PathBuf
  pub public : Bool

-- `PendingDownloadRecord`; the `HashSet` of chunk numbers is a list with no number twice.
pub record PendingDownloadRecord : Type 0 where
  pub key : PublishedFileKey
  pub original_file_name : Text
  pub chunks_dir : PathBuf
  pub downloaded_chunks : List ℕ

-- `PendingDownloadRecord::new`
unfoldable pub new_pending_download : PublishedFileKey → Text → PathBuf → PendingDownloadRecord
new_pending_download key original_file_name chunks_dir = record {
  key = key;
  original_file_name = original_file_name;
  chunks_dir = chunks_dir;
  downloaded_chunks = [];
}

-- What `Hash for FileMetadata` feeds to its hasher.
pub data HashWrite : Type 0 where
  str : Text → HashWrite
  usize : ℕ → HashWrite
  array : Bytes → HashWrite
  bool : Bool → HashWrite

-- The crate rs_sha256: `finish` after some writes to a fresh hasher.
pub record Sha256Hasher : Type 0 where
  pub finish : List HashWrite → ℕ

-- `Hash for FileMetadata`: the directory, the proofs and the extension are not hashed.
unfoldable pub hash : FileMetadata → List HashWrite
hash m = str m.original_file_name ∷ usize m.total_chunks ∷ array m.merkle_root ∷ bool m.public ∷ []

-- `FileMetadata::key`
unfoldable pub key : Sha256Hasher → FileMetadata → PublishedFileKey
unfolding hash to_be_bytes
key h m = record { bytes = to_be_bytes (h.finish (hash m)) }

-- `FileMetadata::get_chunks_dir_name_prefix`
unfoldable pub get_chunks_dir_name_prefix : FileMetadata → Text
unfolding replace
get_chunks_dir_name_prefix m = replace dot b'_' m.original_file_name

-- `From<FileMetadata> for PublishedFileRecord`
unfoldable pub published_record : Sha256Hasher → FileMetadata → PublishedFileRecord
unfolding key
published_record h m = record {
  key = key h m;
  original_file_name = m.original_file_name;
  chunks_dir = m.chunks_dir;
  public = m.public;
}

-- The requests and answers between peers.
pub record MetadataFileRequest : Type 0 where
  pub file_id : ℕ

pub record FileChunkRequest : Type 0 where
  pub file_id : ℕ
  pub chunk_id : ℕ

pub data FileResponse : Type 0 where
  success : Bytes → FileResponse
  not_found : FileResponse
  error : Text → FileResponse

pub record FileFound : Type 0 where
  pub file_id : ℕ
  pub file_name : Text

pub record FileSearchResult : Type 0 where
  pub session_id : Text
  pub file_found : FileFound

pub record FileSearchRequest : Type 0 where
  pub session_id : Text
  pub search_value : Text

pub record PublishedFile : Type 0 where
  pub total_chunks : ℕ
  pub merkle_root : Bytes

pub record DownloadFileChunk : Type 0 where
  pub file_id : ℕ
  pub chunk_id : ℕ
  pub target_dir : PathBuf

-- `P2pCommand`. A channel's sender is a number.
pub data P2pCommand (PeerId : Type 0) : Type 0 where
  request_metadata : MetadataFileRequest → ℕ → P2pCommand PeerId
  request_file_chunk : FileChunkRequest → ℕ → P2pCommand PeerId
  provide_metadata : FileMetadata → P2pCommand PeerId
  provide_file_chunk : FileChunkRequest → P2pCommand PeerId
  file_search : FileSearchRequest → ℕ → P2pCommand PeerId
  file_search_result : PeerId → FileSearchResult → P2pCommand PeerId
  file_search_abort : Text → P2pCommand PeerId
