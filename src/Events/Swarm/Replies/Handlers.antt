-- ===== src/Events/Swarm/Replies/Handlers.antt =====
-- What answers of peers, and requests of the node, do to the channels on which callers wait
-- (src/app/p2p/events.rs).
use rust_dfs.Base.{ℕ, ◌+◌, ◌≡◌, refl, ◌∙◌}
use rust_dfs.Base.{[], ◌∷◌, arith, inl, inr, Option-cases, Result-cases, some}
use rust_dfs.Base.Dict.{lookup, erase, total-insert, total-erase}
use rust_dfs.Domain.{
  request_metadata, request_file_chunk, FileSearchResult, FileResponse, success, not_found, error,
  MetadataFileRequest, FileChunkRequest,
}
use rust_dfs.Domain.Keys.{from_u64}
use rust_dfs.Events.State.{Effect, get_providers, World}
use rust_dfs.Events.Serving.{
  RequestEvent, request, response, metadata_download, handle_metadata_download_response,
}
use rust_dfs.Events.Swarm.{
  Setting, command, metadata_event, file_event, search_result_event, handle, IsFresh,
}
use rust_dfs.Events.Swarm.Replies.Queries.{
  Kind, of_metadata, of_chunks, due, is_channel, waits_on, accounted,
}

module _ (g : Setting) (c : ℕ) where
  response-accounted :
      (k : Kind) (answer : FileResponse) (x : ℕ) (w : World)
      → accounted k c (handle_metadata_download_response g.codecs.metadata answer x w)
        ≡ accounted k c w + due k of_metadata (is_channel c x)
  unfolding handle_metadata_download_response accounted
  response-accounted of_metadata (success bytes) x w = ground arith
  response-accounted of_metadata not_found x w = ground arith
  response-accounted of_metadata (error e) x w = ground arith
  response-accounted of_chunks (success bytes) x w = ground arith
  response-accounted of_chunks not_found x w = ground arith
  response-accounted of_chunks (error e) x w = ground arith

  abbrev answered_request : ℕ → World → World
  answered_request id w = record w {
    service = record w.service {
      metadata_download_requests = erase id w.service.metadata_download_requests;
    };
  }

  erased-accounted :
      (k : Kind) (id x : ℕ) (w : World)
      → lookup id w.service.metadata_download_requests ≡ some x
      → accounted k c (answered_request id w) + due k of_metadata (is_channel c x) ≡ accounted k c w
  unfolding accounted
  erased-accounted of_metadata id x w there =
      ground (arith, there, total-erase (is_channel c) id w.service.metadata_download_requests)
  erased-accounted of_chunks id x w there = omega arith

  pub metadata_download-accounted :
      (k : Kind) (e : RequestEvent MetadataFileRequest) (w : World)
      → accounted k c (handle g (metadata_event e) w) ≡ accounted k c w
  unfolding handle accounted
  metadata_download-accounted k (request channel q) w = refl
  metadata_download-accounted k (response id answer) w =
      elim (Option-cases (lookup id w.service.metadata_download_requests)) [
        | inl nobody ↦ rw (nobody, metadata_download) refl
        | inr (x, there) ↦
            rw (there, metadata_download)
              (response-accounted k answer x (answered_request id w)
                ∙ erased-accounted k id x w there)
      ]
  metadata_download-accounted k _ w = refl

  pub file_download-accounted :
      (k : Kind) (e : RequestEvent FileChunkRequest) (w : World)
      → accounted k c (handle g (file_event e) w) ≡ accounted k c w
  unfolding handle accounted
  file_download-accounted k (request channel q) w = refl
  file_download-accounted of_metadata (response id answer) w =
      elim (Option-cases (lookup id w.service.file_download_requests)) [
        | inl nobody ↦ ground (arith, nobody)
        | inr (x, there) ↦ ground (arith, there)
      ]
  file_download-accounted of_chunks (response id answer) w =
      elim (Option-cases (lookup id w.service.file_download_requests)) [
        | inl nobody ↦ ground (arith, nobody)
        | inr (x, there) ↦
            ground (arith, there, total-erase (is_channel c) id w.service.file_download_requests)
      ]
  file_download-accounted k _ w = refl

  pub search-accounted :
      (k : Kind) (channel : ℕ) (q : FileSearchResult) (w : World)
      → accounted k c (handle g (search_result_event channel q) w) ≡ accounted k c w
  unfolding handle accounted
  search-accounted of_metadata channel q w = ground arith
  search-accounted of_chunks channel q w = ground arith

  pub start_metadata-accounted :
      (k : Kind) (q : MetadataFileRequest) (x : ℕ) (w : World)
      → IsFresh g w
      → accounted k c (handle g (command (request_metadata q x)) w)
        ≡ accounted k c w + due k of_metadata (is_channel c x)
  unfolding handle accounted
  start_metadata-accounted of_metadata q x w fresh =
      let e : Effect = get_providers (from_u64 q.file_id).bytes in
      ground (
        arith,
        fresh.metadata_query e,
        total-insert (waits_on c) (g.net.query_id (e ∷ w.log))
            (record { found_providers = []; request = q; result = x })
            w.service.metadata_providers_requests,
      )
  start_metadata-accounted of_chunks q x w fresh = omega arith

  -- If the request cannot be encoded, the caller is told so at once.
  pub start_chunk-accounted :
      (k : Kind) (q : FileChunkRequest) (x : ℕ) (w : World)
      → IsFresh g w
      → accounted k c (handle g (command (request_file_chunk q x)) w)
        ≡ accounted k c w + due k of_chunks (is_channel c x)
  unfolding handle accounted
  start_chunk-accounted of_metadata q x w fresh = ground arith
  start_chunk-accounted of_chunks q x w fresh =
      elim (Result-cases (g.codecs.chunk_request.to_vec q)) [
        | inr (_, bad) ↦ ground (arith, bad)
        | inl (key_bytes, coded) ↦
            let e : Effect = get_providers key_bytes in
            ground (
              arith,
              coded,
              fresh.chunk_query e,
              total-insert (waits_on c) (g.net.query_id (e ∷ w.log))
                  (record { found_providers = []; request = q; result = x })
                  w.service.file_chunk_providers_requests,
            )
      ]
