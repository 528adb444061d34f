-- ===== src/Events/Swarm/Replies.antt =====
-- The channels on which a caller of the node waits (src/app/p2p/events.rs): none is lost in the maps
-- of `EventService`, and none is answered twice.
pub mod Queries
pub mod Handlers
use rust_dfs.Base.{ℕ, ◌+◌, ◌≡◌, refl, ◌∙◌, Bool}
use rust_dfs.Base.{List, [], ◌∷◌, arith, inl, inr, Option-cases, Result-cases, some}
use rust_dfs.Base.Dict.{lookup, erase, total, total-insert, total-erase}
use rust_dfs.Domain.{
  P2pCommand, request_metadata, request_file_chunk, provide_metadata, provide_file_chunk,
  file_search, file_search_result, file_search_abort, FileSearchResult, FileResponse, success,
  not_found, error, MetadataFileRequest, FileChunkRequest,
}
use rust_dfs.Domain.Keys.{from_u64}
use rust_dfs.Events.Address.{Multiaddr}
use rust_dfs.Events.State.{Effect, get_providers, World, did, new}
use rust_dfs.Events.Providers.{QueryResult}
use rust_dfs.Events.Serving.{
  RequestEvent, request, response, metadata_download, file_download,
  handle_metadata_download_response,
}
use rust_dfs.Events.Discovery.Laws.{
  IsDiscovery, dialed, known, explicit, via_relay, mdns_keeps, identify_keeps,
}
use rust_dfs.Events.Publishing.Keeps.{IsAnnouncement, put, provided, file_publish-keeps}
use rust_dfs.Events.Swarm.{
  Setting, Input, command, kademlia, metadata_event, file_event, search_result_event, ignored,
  mdns_event, identify_event, handle, IsFresh, Run, start, next, published, seeing,
}
use rust_dfs.Events.Swarm.Replies.Queries.{
  Kind, of_metadata, of_chunks, due, is_channel, waits_on, waiting, answered, accounted,
  handle_query-accounted,
}
use rust_dfs.Events.Swarm.Replies.Handlers.{
  metadata_download-accounted, file_download-accounted, search-accounted, start_metadata-accounted,
  start_chunk-accounted,
}

-- How often a channel came with a request of its kind.
unfoldable pub issued : Kind → ℕ → List Input → ℕ
issued k c [] = 0
issued k c (command (request_metadata q x) ∷ inputs) =
    due k of_metadata (is_channel c x) + issued k c inputs
issued k c (command (request_file_chunk q x) ∷ inputs) =
    due k of_chunks (is_channel c x) + issued k c inputs
issued k c (_ ∷ inputs) = issued k c inputs

module _ (g : Setting) (c : ℕ) where
  command-accounted :
      (k : Kind) (q : P2pCommand ℕ) (w : World)
      → IsFresh g w
      → accounted k c (handle g (command q) w) ≡ accounted k c w + issued k c (command q ∷ [])
  unfolding handle accounted issued
  command-accounted k (request_metadata q x) w fresh =
      start_metadata-accounted g c k q x w fresh ∙ omega arith
  command-accounted k (request_file_chunk q x) w fresh =
      start_chunk-accounted g c k q x w fresh ∙ omega arith
  command-accounted of_metadata (provide_metadata m) w fresh = ground arith
  command-accounted of_metadata (provide_file_chunk q) w fresh = ground arith
  command-accounted of_metadata (file_search q x) w fresh = ground arith
  command-accounted of_chunks (provide_metadata m) w fresh = ground arith
  command-accounted of_chunks (provide_file_chunk q) w fresh = ground arith
  command-accounted of_chunks (file_search q x) w fresh = ground arith
  command-accounted of_metadata (file_search_result p q) w fresh = omega arith
  command-accounted of_metadata (file_search_abort k) w fresh = omega arith
  command-accounted of_chunks (file_search_result p q) w fresh = omega arith
  command-accounted of_chunks (file_search_abort k) w fresh = omega arith

  kademlia-accounted :
      (k : Kind) (id : ℕ) (r : QueryResult) (w : World)
      → IsFresh g w
      → accounted k c (handle g (kademlia id r) w) ≡ accounted k c w
  unfolding handle
  kademlia-accounted k id r w fresh =
      handle_query-accounted g.net c k id r w
        (record { metadata_request = fresh.metadata_request; file_request = fresh.file_request })

  discovery-accounted :
      (k : Kind) (e : Effect) (w : World)
      → IsDiscovery e
      → accounted k c (did e w) ≡ accounted k c w
  unfolding accounted
  discovery-accounted k _ w (dialed peer addr good) = refl
  discovery-accounted k _ w (known peer addr) = refl
  discovery-accounted k _ w (explicit peer) = refl
  discovery-accounted k _ w (via_relay addr) = refl

  mdns-accounted :
      (k : Kind) (peers : List (ℕ × Multiaddr)) (w : World)
      → accounted k c (handle g (mdns_event peers) w) ≡ accounted k c w
  unfolding handle
  mdns-accounted k peers w =
      mdns_keeps (λ v. accounted k c v ≡ accounted k c w)
        (λ a v d e. discovery-accounted k a v d ∙ e) peers w refl

  identify-accounted :
      (k : Kind) (peer : ℕ) (is_relay : Bool) (addrs : List Multiaddr) (w : World)
      → accounted k c (handle g (identify_event peer is_relay addrs) w) ≡ accounted k c w
  unfolding handle
  identify-accounted k peer is_relay addrs w =
      identify_keeps (λ v. accounted k c v ≡ accounted k c w)
        (λ a v d e. discovery-accounted k a v d ∙ e) g.net peer is_relay addrs w refl

  ignored-accounted : (k : Kind) (w : World) → accounted k c (handle g ignored w) ≡ accounted k c w
  unfolding handle
  ignored-accounted k w = refl

  handle-accounted :
      (k : Kind) (i : Input) (inputs : List Input) (w : World)
      → IsFresh g w
      → accounted k c w ≡ issued k c inputs
      → accounted k c (handle g i w) ≡ issued k c (i ∷ inputs)
  unfolding issued
  handle-accounted k (command (request_metadata q x)) inputs w fresh e =
      command-accounted k (request_metadata q x) w fresh ∙ omega arith
  handle-accounted k (command (request_file_chunk q x)) inputs w fresh e =
      command-accounted k (request_file_chunk q x) w fresh ∙ omega arith
  handle-accounted k (command q) inputs w fresh e = command-accounted k q w fresh ∙ omega arith
  handle-accounted k (kademlia id r) inputs w fresh e = kademlia-accounted k id r w fresh ∙ e
  handle-accounted k (metadata_event q) inputs w fresh e = metadata_download-accounted g c k q w ∙ e
  handle-accounted k (file_event q) inputs w fresh e = file_download-accounted g c k q w ∙ e
  handle-accounted k (search_result_event channel q) inputs w fresh e =
      search-accounted g c k channel q w ∙ e
  handle-accounted k (mdns_event peers) inputs w fresh e = mdns-accounted k peers w ∙ e
  handle-accounted k (identify_event peer is_relay addrs) inputs w fresh e =
      identify-accounted k peer is_relay addrs w ∙ e
  handle-accounted k ignored inputs w fresh e = ignored-accounted k w ∙ e

  announcement-accounted :
      (k : Kind) (e : Effect) (w : World)
      → IsAnnouncement e
      → accounted k c (did e w) ≡ accounted k c w
  unfolding accounted
  announcement-accounted k _ w (put key value) = refl
  announcement-accounted k _ w (provided key) = refl

module _ (g : Setting) (c : ℕ) where
  seeing-IsFresh :
      {files : g.fs.State} {records : g.store.State} {w : World}
      → IsFresh g w
      → IsFresh (seeing g files records) w
  seeing-IsFresh f = record {
    metadata_query = f.metadata_query;
    chunk_query = f.chunk_query;
    metadata_request = f.metadata_request;
    file_request = f.file_request;
  }

  replies :
      (k : Kind) {inputs : List Input} {w : World}
      → Run g inputs w
      → waiting k c w.service + answered k c w.log ≡ issued k c inputs
  unfolding accounted
  replies of_metadata start = (unfold new total issued in refl)
  replies of_chunks start = (unfold new total issued in refl)
  replies k (next {inputs} {w} r fresh files records i) =
      handle-accounted (seeing g files records) c k i inputs w (seeing-IsFresh fresh) (replies k r)
  replies k (published {inputs} {w} r records rounds result n done) =
      file_publish-keeps g.net g.hasher g.codecs (λ v. accounted k c v ≡ issued k c inputs)
        (λ e v a q. announcement-accounted g c k e v a ∙ q) g.store rounds result _ n done
        (replies k r)

  -- In every run of the event loop, each channel on which a caller waits for metadata stands in
  -- exactly one of the two maps or has been answered, once for each request that came with it: no
  -- channel gets lost on its way from one map to the other, and none is answered twice. The files
  -- and the store may change in any way between two inputs. The network hands out no id that is still
  -- in use.
  pub metadata_replies :
      {inputs : List Input} {w : World}
      → Run g inputs w
      → waiting of_metadata c w.service + answered of_metadata c w.log ≡ issued of_metadata c inputs
  metadata_replies = replies of_metadata

  -- In every run of the event loop, each channel on which a caller waits for a chunk stands in
  -- exactly one of the two maps or has been answered, once for each request that came with it, also
  -- if the request could not be encoded. The files and the store may change in any way between two
  -- inputs. The network hands out no id that is still in use.
  pub chunk_replies :
      {inputs : List Input} {w : World}
      → Run g inputs w
      → waiting of_chunks c w.service + answered of_chunks c w.log ≡ issued of_chunks c inputs
  chunk_replies = replies of_chunks
