-- ===== src/Events/Swarm/Replies/Queries.antt =====
-- What the steps of a query for providers (src/app/p2p/events.rs) do to the channels on which callers
-- wait, for metadata or for a chunk.
use rust_dfs.Base.{ℕ, ◌+◌, ◌≡◌, refl, ◌∙◌}
use rust_dfs.Base.{none, some, List, [], ◌∷◌, arith, ◌==◌, if◌then◌else◌}
use rust_dfs.Base.{inl, inr, Option-cases}
use rust_dfs.Base.Dict.{lookup, erase, total, total-insert, total-erase}
use rust_dfs.Domain.{MetadataFileRequest, FileChunkRequest}
use rust_dfs.Events.State.{
  Effect, send_metadata_request, send_file_request, reply_metadata, reply_chunk, Net,
  ProvidersRequestData, EventService, World, choose_random,
}
use rust_dfs.Events.Providers.{
  QueryResult, found_providers, finished_with_no_additional_record, failed, ask_metadata, ask_chunk,
  handle_all_possible_providers_found, remember_providers, handle_query_progressed, add_providers,
}

-- What a caller waits for.
pub data Kind : Type 0 where
  of_metadata of_chunks : Kind

abbrev pub is_channel : ℕ → ℕ → ℕ
is_channel c x = if x == c then 1 else 0

abbrev pub waits_on : {Req : Type 0} → ℕ → ProvidersRequestData Req → ℕ
waits_on c d = is_channel c d.result

-- What counts for one kind of callers.
abbrev pub due : Kind → Kind → ℕ → ℕ
due of_metadata of_metadata n = n
due of_metadata of_chunks n = 0
due of_chunks of_metadata n = 0
due of_chunks of_chunks n = n

-- How often a channel stands in the two maps of its kind, and how often it has been answered.
unfoldable pub waiting : Kind → ℕ → EventService → ℕ
waiting of_metadata c s =
    total (waits_on c) s.metadata_providers_requests
    + total (is_channel c) s.metadata_download_requests
waiting of_chunks c s =
    total (waits_on c) s.file_chunk_providers_requests
    + total (is_channel c) s.file_download_requests

unfoldable pub answered : Kind → ℕ → List Effect → ℕ
answered k c [] = 0
answered k c (reply_metadata x m ∷ log) = due k of_metadata (is_channel c x) + answered k c log
answered k c (reply_chunk x m ∷ log) = due k of_chunks (is_channel c x) + answered k c log
answered k c (_ ∷ log) = answered k c log

unfoldable pub accounted : Kind → ℕ → World → ℕ
unfolding waiting answered
accounted k c w = waiting k c w.service + answered k c w.log

-- The ids of the requests that the network hands out next are not in use.
pub record NextIsFresh (net : Net) (w : World) : Type 0 where
  pub metadata_request :
      (e : Effect) → lookup (net.request_id (e ∷ w.log)) w.service.metadata_download_requests ≡ none
  pub file_request :
      (e : Effect) → lookup (net.request_id (e ∷ w.log)) w.service.file_download_requests ≡ none

module _ (net : Net) (c : ℕ) where
  ask_metadata-accounted :
      (k : Kind) (d : ProvidersRequestData MetadataFileRequest) (w : World)
      → NextIsFresh net w
      → accounted k c (ask_metadata net d w) ≡ accounted k c w + due k of_metadata (waits_on c d)
  unfolding ask_metadata accounted
  ask_metadata-accounted of_metadata d w fresh =
      elim (Option-cases (choose_random (net.random_below w.log) d.found_providers)) [
        | inl nobody ↦ ground (arith, nobody)
        | inr (peer, chosen) ↦
            let e : Effect = send_metadata_request peer d.request in
            ground (
              arith,
              chosen,
              fresh.metadata_request e,
              total-insert (is_channel c) (net.request_id (e ∷ w.log)) d.result
                  w.service.metadata_download_requests,
            )
      ]
  ask_metadata-accounted of_chunks d w fresh =
      elim (Option-cases (choose_random (net.random_below w.log) d.found_providers)) [
        | inl nobody ↦ ground (arith, nobody)
        | inr (peer, chosen) ↦ ground (arith, chosen)
      ]

  ask_chunk-accounted :
      (k : Kind) (d : ProvidersRequestData FileChunkRequest) (w : World)
      → NextIsFresh net w
      → accounted k c (ask_chunk net d w) ≡ accounted k c w + due k of_chunks (waits_on c d)
  unfolding ask_chunk accounted
  ask_chunk-accounted of_metadata d w fresh =
      elim (Option-cases (choose_random (net.random_below w.log) d.found_providers)) [
        | inl nobody ↦ ground (arith, nobody)
        | inr (peer, chosen) ↦ ground (arith, chosen)
      ]
  ask_chunk-accounted of_chunks d w fresh =
      elim (Option-cases (choose_random (net.random_below w.log) d.found_providers)) [
        | inl nobody ↦ ground (arith, nobody)
        | inr (peer, chosen) ↦
            let e : Effect = send_file_request peer d.request in
            ground (
              arith,
              chosen,
              fresh.file_request e,
              total-insert (is_channel c) (net.request_id (e ∷ w.log)) d.result
                  w.service.file_download_requests,
            )
      ]

  abbrev without_metadata : ℕ → World → World
  without_metadata id w = record w {
    service = record w.service {
      metadata_providers_requests = erase id w.service.metadata_providers_requests;
    };
  }

  abbrev without_chunk : ℕ → World → World
  without_chunk id w = record w {
    service = record w.service {
      file_chunk_providers_requests = erase id w.service.file_chunk_providers_requests;
    };
  }

  without_metadata-accounted :
      (k : Kind) (id : ℕ) (w : World) (d : ProvidersRequestData MetadataFileRequest)
      → lookup id w.service.metadata_providers_requests ≡ some d
      → accounted k c (without_metadata id w) + due k of_metadata (waits_on c d) ≡ accounted k c w
  unfolding accounted
  without_metadata-accounted of_metadata id w d there =
      ground (arith, there, total-erase (waits_on c) id w.service.metadata_providers_requests)
  without_metadata-accounted of_chunks id w d there = omega arith

  without_chunk-accounted :
      (k : Kind) (id : ℕ) (w : World) (d : ProvidersRequestData FileChunkRequest)
      → lookup id w.service.file_chunk_providers_requests ≡ some d
      → accounted k c (without_chunk id w) + due k of_chunks (waits_on c d) ≡ accounted k c w
  unfolding accounted
  without_chunk-accounted of_metadata id w d there = omega arith
  without_chunk-accounted of_chunks id w d there =
      ground (arith, there, total-erase (waits_on c) id w.service.file_chunk_providers_requests)

  all_found-accounted :
      (k : Kind) (id : ℕ) (w : World)
      → NextIsFresh net w
      → accounted k c (handle_all_possible_providers_found net id w) ≡ accounted k c w
  unfolding handle_all_possible_providers_found
  all_found-accounted k id w fresh =
      elim (Option-cases (lookup id w.service.metadata_providers_requests)) [
        | inr (d, there) ↦
            let still : NextIsFresh net (without_metadata id w) = record {
              metadata_request = fresh.metadata_request;
              file_request = fresh.file_request;
            } in
            rw (there, handle_all_possible_providers_found)
              (ask_metadata-accounted k d (without_metadata id w) still
                ∙ without_metadata-accounted k id w d there)
        | inl none_there ↦ elim (Option-cases (lookup id w.service.file_chunk_providers_requests)) [
          | inr (d, there) ↦
              let still : NextIsFresh net (without_chunk id w) = record {
                metadata_request = fresh.metadata_request;
                file_request = fresh.file_request;
              } in
              rw (none_there, handle_all_possible_providers_found, there)
                (ask_chunk-accounted k d (without_chunk id w) still
                  ∙ without_chunk-accounted k id w d there)
          | inl gone ↦ rw (none_there, handle_all_possible_providers_found, gone)
        ]
      ]

  remember-accounted :
      (k : Kind) (id : ℕ) (peers : List ℕ) (w : World)
      → accounted k c (remember_providers net id peers w) ≡ accounted k c w
  unfolding remember_providers accounted
  remember-accounted of_metadata id peers w =
      elim (Option-cases (lookup id w.service.metadata_providers_requests)) [
        | inr (d, there) ↦ ground (
          arith,
          there,
          total-insert (waits_on c) id (add_providers peers d)
              w.service.metadata_providers_requests,
        )
        | inl none_there ↦ ground (arith, none_there)
      ]
  remember-accounted of_chunks id peers w =
      elim (Option-cases (lookup id w.service.metadata_providers_requests)) [
        | inr (d, there) ↦ ground (arith, there)
        | inl none_there ↦ elim (Option-cases (lookup id w.service.file_chunk_providers_requests)) [
          | inr (d, there) ↦ ground (
            arith,
            none_there,
            there,
            total-insert (waits_on c) id (add_providers peers d)
                w.service.file_chunk_providers_requests,
          )
          | inl gone ↦ ground (arith, none_there, gone)
        ]
      ]

  pub handle_query-accounted :
      (k : Kind) (id : ℕ) (r : QueryResult) (w : World)
      → NextIsFresh net w
      → accounted k c (handle_query_progressed net id r w) ≡ accounted k c w
  unfolding handle_query_progressed
  handle_query-accounted k id (found_providers peers) w fresh = remember-accounted k id peers w
  handle_query-accounted k id finished_with_no_additional_record w fresh =
      all_found-accounted k id w fresh
  handle_query-accounted k id (failed e) w fresh = all_found-accounted k id w fresh
  handle_query-accounted k id _ w fresh = refl
