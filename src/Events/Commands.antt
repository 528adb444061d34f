-- ===== src/Events/Commands.antt =====
-- `handle_command` of src/app/p2p/events.rs, and what it calls to provide records.
use rust_dfs.Base.{ℕ, zero, suc, Option, none, some, []}
use rust_dfs.Base.{ok, err, Exec, pure, lift, ◌>>=◌, ◌>>◌}
use rust_dfs.Base.Text.{Bytes, Text}
use rust_dfs.Base.Dict.{insert}
use rust_dfs.Domain.{
  FileMetadata, MetadataFileRequest, FileChunkRequest, Sha256Hasher, key, P2pCommand,
  request_metadata, request_file_chunk, provide_metadata, provide_file_chunk, file_search,
  file_search_result, file_search_abort,
}
use rust_dfs.Domain.Keys.{from_u64, to_u64}
use rust_dfs.Store.Codec.{Codecs}
use rust_dfs.Events.State.{
  get_providers, put_record, start_providing, publish, send_search_result, reply_chunk, Net, World,
  did, insert_session, erase_session,
}

module _ (net : Net) where
  -- `put_record` with a quorum, and `start_providing`: the answer to the call just logged
  abbrev pub put_then_provide : Bytes → Bytes → Exec World Text Unit
  put_then_provide k value = do
    (λ w. let w' = did (put_record k value) w in (net.put_result w'.log, w'))
    λ w. let w' = did (start_providing k) w in (net.providing_result w'.log, w')

  module _ (h : Sha256Hasher) (c : Codecs) where
    -- `provide_metadata`
    unfoldable pub announce_metadata : FileMetadata → Exec World Text Unit
    announce_metadata m = do
      value ← lift (
          c.published_file.to_vec
            (record { total_chunks = m.total_chunks; merkle_root = m.merkle_root }))
      put_then_provide (key h m).bytes value

    -- `provide_file_chunk`
    unfoldable pub announce_file_chunk : FileChunkRequest → Exec World Text Unit
    announce_file_chunk request = do
      value ← lift (c.chunk_request.to_vec request)
      put_then_provide value value

    -- The loop of `provide_all`, with the number of chunks left.
    unfoldable pub announce_chunks : ℕ → ℕ → ℕ → Exec World Text Unit
    unfolding announce_file_chunk
    announce_chunks file_id zero chunk_id = pure tt
    announce_chunks file_id (suc left) chunk_id = do
      announce_file_chunk (record { file_id = file_id; chunk_id = chunk_id })
      announce_chunks file_id left (suc chunk_id)

    -- `provide_all`
    unfoldable pub provide_all : FileMetadata → Exec World Text Unit
    unfolding announce_metadata announce_chunks
    provide_all m = do announce_metadata m; announce_chunks (to_u64 (key h m)) m.total_chunks 0

    abbrev start_metadata_query : MetadataFileRequest → ℕ → World → World
    start_metadata_query request result w =
        let w' = did (get_providers (from_u64 request.file_id).bytes) w in
        let s = w'.service in
        record w' {
          service = record s {
            metadata_providers_requests =
                insert (net.query_id w'.log)
                  (record { found_providers = []; request = request; result = result })
                  s.metadata_providers_requests;
          };
        }

    abbrev start_chunk_query : Bytes → FileChunkRequest → ℕ → World → World
    start_chunk_query key_bytes request result w =
        let w' = did (get_providers key_bytes) w in
        let s = w'.service in
        record w' {
          service = record s {
            file_chunk_providers_requests =
                insert (net.query_id w'.log)
                  (record { found_providers = []; request = request; result = result })
                  s.file_chunk_providers_requests;
          };
        }

    abbrev publish_search : Text → Text → Bytes → ℕ → World → World
    publish_search topic session_id bytes tx w =
        let w' = did (publish topic bytes) w in
        elim (net.publish_result w'.log) [
          | err e ↦ w'
          | ok _ ↦ record w' {
            service = record w'.service {
              file_search_sessions = insert_session session_id tx w'.service.file_search_sessions;
            };
          }
        ]

    -- `handle_command`. `topic` is `config.file_search_topic`. Errors are only logged.
    unfoldable pub handle_command : Option Text → P2pCommand ℕ → World → World
    unfolding announce_metadata announce_file_chunk
    handle_command topic (request_metadata request result) w = start_metadata_query request result w
    handle_command topic (request_file_chunk request result) w =
        elim (c.chunk_request.to_vec request) [
          | err e ↦ did (reply_chunk result none) w
          | ok key_bytes ↦ start_chunk_query key_bytes request result w
        ]
    handle_command topic (provide_metadata m) w = (announce_metadata m w).1
    handle_command topic (provide_file_chunk request) w = (announce_file_chunk request w).1
    handle_command none (file_search request tx) w = w
    handle_command (some topic) (file_search request tx) w =
        elim (c.search_request.to_vec request) [
          | err e ↦ w
          | ok bytes ↦ publish_search topic request.session_id bytes tx w
        ]
    handle_command topic (file_search_abort session_id) w = record w {
      service = record w.service {
        file_search_sessions = erase_session session_id w.service.file_search_sessions;
      };
    }
    handle_command topic (file_search_result peer_id result) w =
        did (send_search_result peer_id result) w
