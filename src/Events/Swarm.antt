-- ===== src/Events/Swarm.antt =====
-- The event loop of a node, one input after the other: `handle_swarm_event` and `handle_command` of
-- src/app/p2p/events.rs, as `P2pService::start` of src/app/p2p/service.rs calls them.
pub mod Replies
pub mod Waiting
use rust_dfs.Base.{ℕ, Bool, Option, none, some, Result, List, [], ◌∷◌, ◌≡◌}
use rust_dfs.Base.Text.{Text}
use rust_dfs.Base.Dict.{lookup}
use rust_dfs.Domain.{FileMetadata, FileSearchResult, MetadataFileRequest, FileChunkRequest}
use rust_dfs.Domain.{Sha256Hasher, P2pCommand}
use rust_dfs.Store.Codec.{Codecs}
use rust_dfs.Store.Interface.{FileStore, StoreError}
use rust_dfs.Processing.Fs.{Fs}
use rust_dfs.Events.State.{Effect, Net, EventService, World, new}
use rust_dfs.Events.Commands.{handle_command}
use rust_dfs.Events.Publishing.{Node, file_publish}
use rust_dfs.Events.Providers.{QueryResult, handle_query_progressed}
use rust_dfs.Events.Serving.{RequestEvent, metadata_download, file_download}
use rust_dfs.Events.Search.{file_search_results}
use rust_dfs.Events.Address.{Multiaddr}
use rust_dfs.Events.Discovery.{mdns, identify}

-- What does not change while the loop runs here: the answers of the network, the crates, the store
-- and the files.
pub record Setting : Type 1 where
  pub net : Net
  pub hasher : Sha256Hasher
  pub codecs : Codecs
  pub topic : Option Text
  pub fs : Fs
  pub store : FileStore
  pub show_error : StoreError → Text
  pub files : fs.State
  pub records : store.State

-- Commands and swarm events; `mdns_event` is `Discovered`, `identify_event` is
-- `Received`, with whether the peer's protocols have the one of a relay. `ignored` stands for the
-- events that are only logged, and for those of Gossipsub, which leave this state alone.
pub data Input : Type 0 where
  command : P2pCommand ℕ → Input
  kademlia : ℕ → QueryResult → Input
  metadata_event : RequestEvent MetadataFileRequest → Input
  file_event : RequestEvent FileChunkRequest → Input
  search_result_event : ℕ → FileSearchResult → Input
  mdns_event : List (ℕ × Multiaddr) → Input
  identify_event : ℕ → Bool → List Multiaddr → Input
  ignored : Input

abbrev pub seeing : (g : Setting) → g.fs.State → g.store.State → Setting
seeing g files records = record g { files = files; records = records }

module _ (g : Setting) where
  unfoldable pub handle : Input → World → World
  unfolding handle_command handle_query_progressed metadata_download file_download
      file_search_results
  handle (command c) w = handle_command g.net g.hasher g.codecs g.topic c w
  handle (kademlia id result) w = handle_query_progressed g.net id result w
  handle (metadata_event e) w =
      metadata_download g.fs g.store g.codecs.metadata g.show_error g.files g.records e w
  handle (file_event e) w =
      file_download g.fs g.store g.codecs.metadata g.show_error g.files g.records e w
  handle (search_result_event channel q) w = file_search_results g.net channel q w
  handle (mdns_event peers) w = mdns peers w
  handle (identify_event peer is_relay addrs) w = identify g.net peer is_relay addrs w
  handle ignored w = w

  -- The ids that the network hands out next are not in use.
  pub record IsFresh (w : World) : Type 0 where
    pub metadata_query :
        (e : Effect)
        → lookup (g.net.query_id (e ∷ w.log)) w.service.metadata_providers_requests ≡ none
    pub chunk_query :
        (e : Effect)
        → lookup (g.net.query_id (e ∷ w.log)) w.service.file_chunk_providers_requests ≡ none
    pub metadata_request :
        (e : Effect)
        → lookup (g.net.request_id (e ∷ w.log)) w.service.metadata_download_requests ≡ none
    pub file_request :
        (e : Effect) → lookup (g.net.request_id (e ∷ w.log)) w.service.file_download_requests ≡ none

module _ (g : Setting) where
  -- A run of the loop from its start, the last input first. Other tasks change the files and the
  -- store at any time, so each input sees some state of them. A branch for a job ends with
  -- `file_publish`; the branch for a tick leaves this state alone.
  pub data Run : List Input → World → Type 0 where
    start : Run [] (record { service = new; log = [] })
    next :
        {inputs : List Input} {w : World}
        → Run inputs w
        → IsFresh g w
        → (files : g.fs.State) (records : g.store.State) (i : Input)
        → Run (i ∷ inputs) (handle (seeing g files records) i w)
    published :
        {inputs : List Input} {w : World}
        → Run inputs w
        → (records : g.store.State) (rounds : ℕ) (result : Result StoreError FileMetadata)
        → (n : Node g.net g.hasher g.codecs g.store)
        → file_publish g.net g.hasher g.codecs g.store rounds result
            (record { world = w; records = records })
          ≡ some n
        → Run inputs n.world
