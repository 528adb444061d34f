-- ===== src/Events/Providers.antt =====
-- The answers of Kademlia to the search for providers (src/app/p2p/events.rs).
use rust_dfs.Base.{ℕ, none, some, List, [], ◌∷◌}
use rust_dfs.Base.Text.{Text}
use rust_dfs.Base.Dict.{lookup, insert, erase}
use rust_dfs.Base.Sets
use rust_dfs.Domain.{MetadataFileRequest, FileChunkRequest}
use rust_dfs.Events.State.{
  send_metadata_request, send_file_request, reply_metadata, reply_chunk, Net, ProvidersRequestData,
  World, did, choose_random,
}

-- `QueryResult`: the outcomes of `GetProviders`, and all other results.
pub data QueryResult : Type 0 where
  found_providers : List ℕ → QueryResult
  finished_with_no_additional_record : QueryResult
  failed : Text → QueryResult
  other : QueryResult

unfoldable pub extend : List ℕ → List ℕ → List ℕ
unfolding Sets.insert
extend set [] = set
extend set (p ∷ peers) = extend (Sets.insert p set) peers

-- `data.found_providers.extend(providers)`
unfoldable pub add_providers :
    {Req : Type 0} → List ℕ → ProvidersRequestData Req → ProvidersRequestData Req
unfolding extend
add_providers peers d = record d { found_providers = extend d.found_providers peers }

module _ (net : Net) where
  -- The two halves of `handle_all_possible_providers_found`: ask one of the providers, or tell the
  -- one who waits that there is none.
  unfoldable pub ask_metadata : ProvidersRequestData MetadataFileRequest → World → World
  ask_metadata d w = elim (choose_random (net.random_below w.log) d.found_providers) [
    | none ↦ did (reply_metadata d.result none) w
    | some peer ↦
        let w' = did (send_metadata_request peer d.request) w in
        record w' {
          service = record w'.service {
            metadata_download_requests =
                insert (net.request_id w'.log) d.result w'.service.metadata_download_requests;
          };
        }
  ]

  unfoldable pub ask_chunk : ProvidersRequestData FileChunkRequest → World → World
  ask_chunk d w = elim (choose_random (net.random_below w.log) d.found_providers) [
    | none ↦ did (reply_chunk d.result none) w
    | some peer ↦
        let w' = did (send_file_request peer d.request) w in
        record w' {
          service = record w'.service {
            file_download_requests =
                insert (net.request_id w'.log) d.result w'.service.file_download_requests;
          };
        }
  ]

  -- `handle_all_possible_providers_found`
  unfoldable pub handle_all_possible_providers_found : ℕ → World → World
  unfolding ask_metadata ask_chunk
  handle_all_possible_providers_found id w =
      let s = w.service in
      elim (lookup id s.metadata_providers_requests) [
        | some d ↦ ask_metadata d (record w {
          service = record s {
            metadata_providers_requests = erase id s.metadata_providers_requests;
          };
        })
        | none ↦ elim (lookup id s.file_chunk_providers_requests) [
          | some d ↦ ask_chunk d (record w {
            service = record s {
              file_chunk_providers_requests = erase id s.file_chunk_providers_requests;
            };
          })
          | none ↦ w
        ]
      ]

  -- The `FoundProviders` of `handle_get_metadata_providers_result`; `get_mut` writes in place.
  unfoldable pub remember_providers : ℕ → List ℕ → World → World
  unfolding add_providers
  remember_providers id peers w =
      let s = w.service in
      elim (lookup id s.metadata_providers_requests) [
        | some d ↦ record w {
          service = record s {
            metadata_providers_requests =
                insert id (add_providers peers d) s.metadata_providers_requests;
          };
        }
        | none ↦ elim (lookup id s.file_chunk_providers_requests) [
          | some d ↦ record w {
            service = record s {
              file_chunk_providers_requests =
                  insert id (add_providers peers d) s.file_chunk_providers_requests;
            };
          }
          | none ↦ w
        ]
      ]

  -- `handle_metadata_providers_query_progressed` and `handle_get_metadata_providers_result`
  unfoldable pub handle_query_progressed : ℕ → QueryResult → World → World
  unfolding remember_providers handle_all_possible_providers_found
  handle_query_progressed id (found_providers peers) w = remember_providers id peers w
  handle_query_progressed id finished_with_no_additional_record w =
      handle_all_possible_providers_found id w
  handle_query_progressed id (failed e) w = handle_all_possible_providers_found id w
  handle_query_progressed id other w = w
