-- ===== src/Transfer/Serving.antt =====
-- What the node of the author answers: `process_file`, and `file_download` and `metadata_download` of
-- src/app/p2p/events.rs.
use rust_dfs.Base.{ℕ, ◌<◌, ◌≡◌, ◌≢◌, sym, ap, ◌∙◌, Bool, false, some, List, [], arith}
use rust_dfs.Base.{length, get_elem?, lt-get_elem?, ok, leb}
use rust_dfs.Base.Text.{Bytes, Text}
use rust_dfs.Base.Paths.{PathBuf, path_of, join, parent, file_name}
use rust_dfs.Domain.{
  FileMetadata, Sha256Hasher, key, published_record, success, FileChunkRequest, MetadataFileRequest,
}
use rust_dfs.Domain.Keys.{from_u64}
use rust_dfs.Store.Codec.{Cbor, ReadsBack}
use rust_dfs.Store.Interface.{FileStore, StoreError}
use rust_dfs.Processing.Fs.{Fs, file, IsReliable}
use rust_dfs.Processing.Fs
use rust_dfs.Processing.Merkle.{Merkle}
use rust_dfs.Processing.Merkle
use rust_dfs.Processing.Split.{chunk_size}
use rust_dfs.Processing.Split.Chunks.{chunks}
use rust_dfs.Processing.Publish.{metadata_file_name, process_file}
use rust_dfs.Processing.Publish.Laws.{process_file-Describes}
use rust_dfs.Processing.Publish.Place.{process_file-dir}
use rust_dfs.Processing.Publish.Ends.{IsOnDisk, process_file-IsOnDisk}
use rust_dfs.Events.Serving.{
  get_from_chunks, read_chunk, answer_file_request, answer_metadata_request,
}

module _ (fs : Fs) (F : Fs.IsLawful fs) (R : IsReliable fs) (S : FileStore) (h : Sha256Hasher)
    (codec : Cbor FileMetadata) (C : ReadsBack codec) (show_error : StoreError → Text) (M : Merkle)
    (ML : Merkle.IsLawful M) where
  chunk_served :
      (m : FileMetadata) (pieces : List Bytes) (files : fs.State) (records : S.State) (i : ℕ)
      (c : Bytes)
      → IsOnDisk fs F R codec M ML m pieces files
      → length pieces ≡ m.total_chunks
      → get_elem? pieces i ≡ some c
      → get_from_chunks fs S codec show_error files records i m.chunks_dir ≡ success c
  unfolding get_from_chunks read_chunk
  chunk_served m pieces files records i c d total found =
      let in_range : leb m.total_chunks i ≡ false =
        ground (arith, total, lt-get_elem? pieces i found) in
      ground (arith, d.metadata_there, C.reads_back m d.encoded, in_range, d.chunk_there i c found)

  module _ (m : FileMetadata) (pieces : List Bytes) (files : fs.State) (records : S.State)
      (d : IsOnDisk fs F R codec M ML m pieces files) (total : length pieces ≡ m.total_chunks)
      (old : FileMetadata) (same_dir : old.chunks_dir ≡ m.chunks_dir)
      (stored : S.get_published_file (key h old) records ≡ ok (some (published_record h old))) where
    file_request_served :
        (q : FileChunkRequest) (c : Bytes)
        → from_u64 q.file_id ≡ key h old
        → get_elem? pieces q.chunk_id ≡ some c
        → answer_file_request fs S codec show_error files records q ≡ success c
    unfolding answer_file_request published_record
    file_request_served q c same found =
        rw (ap (λ k. S.get_published_file k records) same ∙ stored, answer_file_request, same_dir)
          (chunk_served m pieces files records q.chunk_id c d total found)

    metadata_request_served :
        (q : MetadataFileRequest)
        → from_u64 q.file_id ≡ key h old
        → answer_metadata_request fs S codec show_error files records q ≡ success d.raw
    unfolding answer_metadata_request published_record
    metadata_request_served q same =
        let there : fs.read (join old.chunks_dir metadata_file_name) files ≡ ok d.raw =
          rw same_dir d.metadata_there in
        ground (arith, ap (λ k. S.get_published_file k records) same ∙ stored, there)

  module _ (rounds : ℕ) (path : Text) (base : PathBuf) (name : Text) (reader : fs.Reader)
      (public : Bool) (s : fs.State) where
    abbrev pub pieces_read : List Bytes
    pieces_read = chunks rounds chunk_size (F.rest reader)

    -- A file that is published again, after it was changed say, takes the place of what was published
    -- from that path before: under the id of the earlier publication, whose record is still stored,
    -- every request for a piece is answered with the new piece, and a request for the metadata with
    -- bytes that decode to the new metadata. The path must be a regular file with a byte, a parent and
    -- a name, no call that writes or reads may fail, what was encoded must read back, and there is a
    -- round more than bytes.
    pub republished_served :
        (m old : FileMetadata) (records : S.State) (file_id rounds' : ℕ) (public' : Bool)
        (before : fs.State)
        → fs.metadata (path_of path) s ≡ ok file
        → fs.open_file (path_of path) s ≡ ok reader
        → parent (path_of path) ≡ some base
        → file_name (path_of path) ≡ some name
        → length (F.rest reader) < rounds
        → F.rest reader ≢ []
        → (process_file fs codec M rounds' path public' before).0 ≡ ok old
        → (process_file fs codec M rounds path public s).0 ≡ ok m
        → S.get_published_file (key h old) records ≡ ok (some (published_record h old))
        → from_u64 file_id ≡ key h old
        → ((i : ℕ) (c : Bytes)
            → get_elem? pieces_read i ≡ some c
            → answer_file_request fs S codec show_error
                (process_file fs codec M rounds path public s).1
                records
                (record { file_id = file_id; chunk_id = i })
              ≡ success c)
          × (raw : Bytes) × (answer_metadata_request fs S codec show_error
                (process_file fs codec M rounds path public s).1
                records
                (record { file_id = file_id })
              ≡ success raw)
          × (codec.from_slice raw ≡ ok m)
    republished_served m old records file_id rounds' public' before regular opened above named fits
          more first made stored same =
        let d =
          process_file-IsOnDisk fs F R codec M ML rounds path base name reader public s m regular
            opened above named fits more made in
        let told =
          process_file-Describes fs F R codec M rounds path public s reader m opened fits made in
        let same_dir : old.chunks_dir ≡ m.chunks_dir =
          process_file-dir fs codec M rounds' path base name public' before old above named first
          ∙ sym (process_file-dir fs codec M rounds path base name public s m above named made) in
        (
          λ i c found.
              file_request_served m pieces_read _ records d told.total_of old same_dir stored
                (record { file_id = file_id; chunk_id = i }) c same found,
          d.raw,
          metadata_request_served m pieces_read _ records d told.total_of old same_dir stored
              (record { file_id = file_id }) same,
          C.reads_back m d.encoded,
        )

    -- What `process_file` has published is served whole: once the record of the file is stored, every
    -- request for one of its pieces is answered with that piece, and a request for its metadata with
    -- bytes that decode to it. The path must be a regular file with a byte, a parent and a name, no call
    -- that writes or reads may fail, what was encoded must read back, there is a round more than bytes,
    -- and the id that is asked for must be that of the metadata.
    pub publication_served :
        (m : FileMetadata) (records : S.State) (file_id : ℕ)
        → fs.metadata (path_of path) s ≡ ok file
        → fs.open_file (path_of path) s ≡ ok reader
        → parent (path_of path) ≡ some base
        → file_name (path_of path) ≡ some name
        → length (F.rest reader) < rounds
        → F.rest reader ≢ []
        → (process_file fs codec M rounds path public s).0 ≡ ok m
        → S.get_published_file (key h m) records ≡ ok (some (published_record h m))
        → from_u64 file_id ≡ key h m
        → ((i : ℕ) (c : Bytes)
            → get_elem? pieces_read i ≡ some c
            → answer_file_request fs S codec show_error
                (process_file fs codec M rounds path public s).1
                records
                (record { file_id = file_id; chunk_id = i })
              ≡ success c)
          × (raw : Bytes) × (answer_metadata_request fs S codec show_error
                (process_file fs codec M rounds path public s).1
                records
                (record { file_id = file_id })
              ≡ success raw)
          × (codec.from_slice raw ≡ ok m)
    publication_served m records file_id regular opened above named fits more made stored same =
        republished_served m m records file_id rounds public s regular opened above named fits more
          made made stored same
