-- ===== src/Events/Swarm/Waiting.antt =====
-- How long a caller waits for an answer of a peer (src/app/p2p/events.rs).
use rust_dfs.Base.{ℕ, ◌≡◌, ◌≢◌, ap, none, some, ◌∷◌, arith, Option-cases, inl, inr}
use rust_dfs.Base.Dict.{lookup, erase, lookup-insert, lookup-erase_ne}
use rust_dfs.Domain.{
  MetadataFileRequest, FileResponse, request_metadata, request_file_chunk, provide_metadata,
  provide_file_chunk, file_search, file_search_result, file_search_abort,
}
use rust_dfs.Events.State.{
  Effect, Net, World, ProvidersRequestData, choose_random, send_metadata_request,
}
use rust_dfs.Events.Providers.{
  QueryResult, found_providers, finished_with_no_additional_record, failed, ask_metadata,
  handle_all_possible_providers_found, handle_query_progressed, remember_providers, ask_chunk,
}
use rust_dfs.Events.Serving.{request, response}
use rust_dfs.Events.Discovery.Laws.{mdns_keeps, identify_keeps}
use rust_dfs.Events.Swarm.{
  Setting, Input, command, kademlia, metadata_event, file_event, search_result_event, ignored,
  mdns_event, identify_event, handle, IsFresh,
}

abbrev WaitsFor : ℕ → World → ℕ → Type 0
WaitsFor id w x = lookup id w.service.metadata_download_requests ≡ some x

module _ (net : Net) (id x : ℕ) where
  ask-waits :
      (d : ProvidersRequestData MetadataFileRequest) (w : World)
      → ((e : Effect)
          → lookup (net.request_id (e ∷ w.log)) w.service.metadata_download_requests ≡ none)
      → WaitsFor id w x
      → WaitsFor id (ask_metadata net d w) x
  unfolding ask_metadata
  ask-waits d w fresh h =
      elim (Option-cases (choose_random (net.random_below w.log) d.found_providers)) [
        | inl nobody ↦ rw (nobody, ask_metadata) h
        | inr (peer, chosen) ↦
            let e : Effect = send_metadata_request peer d.request in
            ground (
              arith,
              chosen,
              fresh e,
              lookup-insert (net.request_id (e ∷ w.log)) id d.result
                  w.service.metadata_download_requests,
            )
      ]

  all_found-waits :
      (k : ℕ) (w : World)
      → ((e : Effect)
          → lookup (net.request_id (e ∷ w.log)) w.service.metadata_download_requests ≡ none)
      → WaitsFor id w x
      → WaitsFor id (handle_all_possible_providers_found net k w) x
  unfolding handle_all_possible_providers_found
  all_found-waits k w fresh h =
      elim (Option-cases (lookup k w.service.metadata_providers_requests)) [
        | inr (d, there) ↦
            rw (there, handle_all_possible_providers_found)
              (ask-waits d
                (record w {
                  service = record w.service {
                    metadata_providers_requests = erase k w.service.metadata_providers_requests;
                  };
                })
                fresh h)
        | inl gone ↦
            rw (gone, handle_all_possible_providers_found) (unfold ask_chunk in ground arith)
      ]

module _ (g : Setting) (id x : ℕ) where
  kademlia-waits :
      (k : ℕ) (r : QueryResult) (w : World)
      → IsFresh g w
      → WaitsFor id w x
      → WaitsFor id (handle_query_progressed g.net k r w) x
  unfolding handle_query_progressed
  kademlia-waits k (found_providers peers) w fresh h = unfold remember_providers in ground arith
  kademlia-waits k finished_with_no_additional_record w fresh h =
      all_found-waits g.net id x k w fresh.metadata_request h
  kademlia-waits k (failed e) w fresh h = all_found-waits g.net id x k w fresh.metadata_request h
  kademlia-waits k _ w fresh h = h

module _ (g : Setting) (id x : ℕ) where
  -- The only input that takes a waiting caller out of the map of metadata requests is the answer
  -- to that very request. A failure of the request, which is only logged, leaves the caller waiting. The
  -- network hands out no id that is still in use.
  pub still_waiting :
      (i : Input) (w : World)
      → IsFresh g w
      → ((answer : FileResponse) → i ≢ metadata_event (response id answer))
      → WaitsFor id w x
      → WaitsFor id (handle g i w) x
  unfolding handle
  still_waiting (command (request_metadata q y)) w fresh ne h = h
  still_waiting (command (request_file_chunk q y)) w fresh ne h = ground arith
  still_waiting (command (provide_metadata m)) w fresh ne h = ground arith
  still_waiting (command (provide_file_chunk q)) w fresh ne h = ground arith
  still_waiting (command (file_search q y)) w fresh ne h = ground arith
  still_waiting (command (file_search_result p q)) w fresh ne h = h
  still_waiting (command (file_search_abort k)) w fresh ne h = h
  still_waiting (kademlia k r) w fresh ne h = kademlia-waits g id x k r w fresh h
  still_waiting (metadata_event (request ch q)) w fresh ne h = h
  still_waiting (metadata_event (response k answer)) w fresh ne h =
      let apart : k ≢ id = λ e. ne answer (ap (λ j. metadata_event (response j answer)) e) in
      ground (arith, lookup-erase_ne k id w.service.metadata_download_requests apart)
  still_waiting (metadata_event _) w fresh ne h = h
  still_waiting (file_event e) w fresh ne h = ground arith
  still_waiting (search_result_event ch q) w fresh ne h = ground arith
  still_waiting (mdns_event peers) w fresh ne h =
      mdns_keeps (λ v. WaitsFor id v x) (λ e v d k. k) peers w h
  still_waiting (identify_event peer is_relay addrs) w fresh ne h =
      identify_keeps (λ v. WaitsFor id v x) (λ e v d k. k) g.net peer is_relay addrs w h
  still_waiting ignored w fresh ne h = h
