-- ===== src/Events/Serving.antt =====
-- Requests of other peers and the answers to the node's own: `metadata_download`, `file_download`
-- and what they call in src/app/p2p/events.rs. Every answer to a peer goes through
-- `send_file_response`.
pub mod Laws
use rust_dfs.Base.{ℕ, Bool, true, false, Option, none, some, List, [], ◌∷◌, if◌then◌else◌, leb}
use rust_dfs.Base.{Result, ok, err}
use rust_dfs.Base.Text.{Bytes, Text, text}
use rust_dfs.Base.Dict.{lookup, erase}
use rust_dfs.Base.Sets.{contains}
use rust_dfs.Base.Paths.{PathBuf, join}
use rust_dfs.Domain.{
  FileMetadata, FileResponse, success, not_found, error, MetadataFileRequest, FileChunkRequest,
  PublishedFileRecord, PendingDownloadRecord,
}
use rust_dfs.Domain.Keys.{from_u64}
use rust_dfs.Store.Codec.{Cbor}
use rust_dfs.Store.Interface.{FileStore, StoreError}
use rust_dfs.Processing.Fs.{Fs}
use rust_dfs.Processing.Split.{chunk_path}
use rust_dfs.Processing.Publish.{metadata_file_name}
use rust_dfs.Events.State.{Effect, send_response, reply_metadata, reply_chunk, World, did}

-- `request_response::Event`: a request with the channel for its answer, an answer, or any other
-- event, such as a failure.
pub data RequestEvent (Req : Type 0) : Type 0 where
  request : ℕ → Req → RequestEvent Req
  response : ℕ → FileResponse → RequestEvent Req
  other : RequestEvent Req

-- `handle_metadata_download_response`
unfoldable pub handle_metadata_download_response :
    Cbor FileMetadata → FileResponse → ℕ → World → World
handle_metadata_download_response codec (success bytes) channel w = elim (codec.from_slice bytes) [
  | ok m ↦ did (reply_metadata channel (some m)) w
  | err e ↦ did (reply_metadata channel none) w
]
handle_metadata_download_response codec not_found channel w = did (reply_metadata channel none) w
handle_metadata_download_response codec (error e) channel w = did (reply_metadata channel none) w

-- `handle_file_download_response`
unfoldable pub handle_file_download_response : FileResponse → ℕ → World → World
handle_file_download_response answer channel = did (reply_chunk channel (some answer))

module _ (fs : Fs) (S : FileStore) (codec : Cbor FileMetadata) (show_error : StoreError → Text)
    (files : fs.State) (records : S.State) where
  abbrev file_or_error : Result Text Bytes → FileResponse
  file_or_error (ok bytes) = success bytes
  file_or_error (err e) = error e

  -- `read_chunk`
  unfoldable pub read_chunk : ℕ → PathBuf → Text → FileResponse
  read_chunk chunk_id target_dir extension =
      file_or_error (fs.read (chunk_path target_dir chunk_id extension) files)

  -- The end of `get_from_chunks`: the number is checked, and the chunk is read where the metadata
  -- says.
  abbrev chunk_of_metadata : ℕ → FileMetadata → FileResponse
  chunk_of_metadata chunk_id m =
      if leb m.total_chunks chunk_id
      then error (text "incorrect chunk number")
      else read_chunk chunk_id m.chunks_dir m.chunk_file_extension

  -- `get_from_chunks`
  unfoldable pub get_from_chunks : ℕ → PathBuf → FileResponse
  unfolding read_chunk
  get_from_chunks chunk_id target_dir = elim (fs.read (join target_dir metadata_file_name) files) [
    | err e ↦ error e
    | ok bytes ↦ elim (codec.from_slice bytes) [
      | err e ↦ error e
      | ok m ↦ chunk_of_metadata chunk_id m
    ]
  ]

  -- `try_from_pending_downloads`
  unfoldable pub try_from_pending_downloads : ℕ → ℕ → FileResponse
  unfolding get_from_chunks
  try_from_pending_downloads file_id chunk_id =
      elim (S.get_pending_download (from_u64 file_id) records) [
        | ok none ↦ not_found
        | ok (some r) ↦
            if contains r.downloaded_chunks chunk_id
            then get_from_chunks chunk_id r.chunks_dir
            else not_found
        | err e ↦ error (show_error e)
      ]

  -- What a request for a chunk is answered.
  unfoldable pub answer_file_request : FileChunkRequest → FileResponse
  unfolding try_from_pending_downloads get_from_chunks
  answer_file_request q = elim (S.get_published_file (from_u64 q.file_id) records) [
    | ok none ↦ try_from_pending_downloads q.file_id q.chunk_id
    | ok (some r) ↦ get_from_chunks q.chunk_id r.chunks_dir
    | err e ↦ error (show_error e)
  ]

  -- What a request for metadata is answered: the metadata file of a published file.
  unfoldable pub answer_metadata_request : MetadataFileRequest → FileResponse
  answer_metadata_request q = elim (S.get_published_file (from_u64 q.file_id) records) [
    | ok none ↦ not_found
    | ok (some r) ↦ file_or_error (fs.read (join r.chunks_dir metadata_file_name) files)
    | err e ↦ error (show_error e)
  ]

  -- `metadata_download`
  unfoldable pub metadata_download : RequestEvent MetadataFileRequest → World → World
  unfolding answer_metadata_request handle_metadata_download_response
  metadata_download (request channel q) w =
      did (send_response channel (answer_metadata_request q)) w
  metadata_download (response request_id answer) w =
      let s = w.service in
      elim (lookup request_id s.metadata_download_requests) [
        | none ↦ w
        | some channel ↦ handle_metadata_download_response codec answer channel (record w {
          service = record s {
            metadata_download_requests = erase request_id s.metadata_download_requests;
          };
        })
      ]
  metadata_download other w = w

  -- `file_download`
  unfoldable pub file_download : RequestEvent FileChunkRequest → World → World
  unfolding answer_file_request handle_file_download_response
  file_download (request channel q) w = did (send_response channel (answer_file_request q)) w
  file_download (response request_id answer) w =
      let s = w.service in
      elim (lookup request_id s.file_download_requests) [
        | none ↦ w
        | some channel ↦ handle_file_download_response answer channel (record w {
          service = record s { file_download_requests = erase request_id s.file_download_requests };
        })
      ]
  file_download other w = w
