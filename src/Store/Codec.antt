-- ===== src/Store/Codec.antt =====
-- The crate serde_cbor, for each type that the program writes or reads. A set of numbers is taken
-- to come back as the same list.
use rust_dfs.Base.{◌≡◌, Result, ok}
use rust_dfs.Base.Text.{Bytes, Text}
use rust_dfs.Domain.{FileMetadata, PublishedFileRecord, PendingDownloadRecord, PublishedFile}
use rust_dfs.Domain.{FileChunkRequest, FileSearchRequest}

pub record Cbor (A : Type 0) : Type 0 where
  pub to_vec : A → Result Text Bytes
  pub from_slice : Bytes → Result Text A

-- What was written reads back.
pub record ReadsBack {A : Type 0} (c : Cbor A) : Type 0 where
  pub reads_back : (a : A) {b : Bytes} → c.to_vec a ≡ ok b → c.from_slice b ≡ ok a

pub record Codecs : Type 0 where
  pub metadata : Cbor FileMetadata
  pub published : Cbor PublishedFileRecord
  pub pending : Cbor PendingDownloadRecord
  pub published_file : Cbor PublishedFile
  pub chunk_request : Cbor FileChunkRequest
  pub search_request : Cbor FileSearchRequest

pub record IsLawful (c : Codecs) : Type 0 where
  pub metadata : ReadsBack c.metadata
  pub published : ReadsBack c.published
  pub pending : ReadsBack c.pending
  pub published_file : ReadsBack c.published_file
  pub chunk_request : ReadsBack c.chunk_request
  pub search_request : ReadsBack c.search_request
