-- ===== src/Events/Serving/Laws.antt =====
-- Which chunks a node hands out (src/app/p2p/events.rs).
use rust_dfs.Base.{ℕ, ◌<◌, ◌≡◌, ◌⊎◌, inl, inr, true, none, some, arith}
use rust_dfs.Base.{Result-cases, ok, Bool-cases}
use rust_dfs.Base.Text.{Bytes, Text}
use rust_dfs.Base.Sets.{contains}
use rust_dfs.Base.Paths.{PathBuf, join}
use rust_dfs.Domain.{FileMetadata, success}
use rust_dfs.Domain.{FileChunkRequest, PublishedFileRecord, PendingDownloadRecord}
use rust_dfs.Domain.Keys.{from_u64}
use rust_dfs.Store.Codec.{Cbor}
use rust_dfs.Store.Interface.{FileStore, StoreError}
use rust_dfs.Processing.Fs.{Fs}
use rust_dfs.Processing.Split.{chunk_path}
use rust_dfs.Processing.Publish.{metadata_file_name}
use rust_dfs.Events.Serving.{get_from_chunks, answer_file_request}

module _ (fs : Fs) (S : FileStore) (codec : Cbor FileMetadata) (show_error : StoreError → Text)
    (files : fs.State) (records : S.State) where
  -- The bytes are those of the chunk's file, in the directory that the metadata in `dir` names, and
  -- the number is in range.
  pub record IsChunkOf (dir : PathBuf) (i : ℕ) (bytes : Bytes) : Type 0 where
    pub raw : Bytes
    pub metadata : FileMetadata
    pub stored : fs.read (join dir metadata_file_name) files ≡ ok raw
    pub decoded : codec.from_slice raw ≡ ok metadata
    pub in_range : i < metadata.total_chunks
    pub content :
        fs.read (chunk_path metadata.chunks_dir i metadata.chunk_file_extension) files ≡ ok bytes

  get_from_chunks-success :
      (i : ℕ) (dir : PathBuf) (bytes : Bytes)
      → get_from_chunks fs S codec show_error files records i dir ≡ success bytes
      → IsChunkOf dir i bytes
  unfolding get_from_chunks
  get_from_chunks-success i dir bytes h =
      elim (Result-cases (fs.read (join dir metadata_file_name) files)) [
        | inr (_, bad) ↦ absurd (ground (arith, bad))
        | inl (raw, stored) ↦ elim (Result-cases (codec.from_slice raw)) [
          | inr (_, bad) ↦ absurd (ground (arith, stored, bad))
          | inl (m, decoded) ↦ record {
            raw = raw;
            metadata = m;
            stored = stored;
            decoded = decoded;
            in_range = ground (arith, stored, decoded);
            content = ground (arith, stored, decoded);
          }
        ]
      ]

  -- A request for a chunk is answered with bytes only if they are the content of the chunk's file,
  -- the number is in range, and either the file is published or, while it is still being
  -- downloaded, this very chunk counts as downloaded.
  pub answer_file_request-success :
      (q : FileChunkRequest) (bytes : Bytes)
      → answer_file_request fs S codec show_error files records q ≡ success bytes
      → ((r : PublishedFileRecord) × (S.get_published_file (from_u64 q.file_id) records
            ≡ ok (some r))
          × IsChunkOf r.chunks_dir q.chunk_id bytes)
        ⊎ ((r : PendingDownloadRecord) × (S.get_pending_download (from_u64 q.file_id) records
              ≡ ok (some r))
            × (contains r.downloaded_chunks q.chunk_id ≡ true)
            × IsChunkOf r.chunks_dir q.chunk_id bytes)
  unfolding answer_file_request
  answer_file_request-success q bytes h =
      elim (Result-cases (S.get_published_file (from_u64 q.file_id) records)) [
        | inr (_, bad) ↦ absurd (ground (arith, bad))
        | inl (some r, there) ↦ inl (
          r,
          there,
          get_from_chunks-success q.chunk_id r.chunks_dir bytes (ground (arith, there)),
        )
        | inl (none, gone) ↦
            elim (Result-cases (S.get_pending_download (from_u64 q.file_id) records)) [
              | inr (_, bad) ↦ absurd (ground (arith, gone, bad))
              | inl (none, nowhere) ↦ absurd (ground (arith, gone, nowhere))
              | inl (some r, there) ↦ elim (Bool-cases (contains r.downloaded_chunks q.chunk_id)) [
                | inr absent ↦ absurd (ground (arith, gone, there, absent))
                | inl here ↦ inr (
                  r,
                  there,
                  here,
                  get_from_chunks-success q.chunk_id r.chunks_dir bytes
                      (ground (arith, gone, there, here)),
                )
              ]
            ]
      ]
