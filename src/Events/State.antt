-- ===== src/Events/State.antt =====
-- The state of `EventService` (src/app/p2p/events.rs) and what its handlers do to the outside: calls
-- of the swarm and messages on channels, in a log with the newest first. Peers, queries, requests
-- and channels are numbers. What the outside answers is a function of the log.
use rust_dfs.Base.{ℕ, ◌<◌, Bool, Option, none, some, List, [], ◌∷◌}
use rust_dfs.Base.{Result, if◌then◌else◌, ◌==◌, text_eq, length, get_elem?}
use rust_dfs.Base.Text.{Bytes, Text}
use rust_dfs.Base.Dict.{Dict}
use rust_dfs.Events.Address.{Multiaddr}
use rust_dfs.Domain.{FileMetadata, FileResponse, FileFound, FileSearchResult}
use rust_dfs.Domain.{MetadataFileRequest, FileChunkRequest}

pub data Effect : Type 0 where
  -- Kademlia and Gossipsub
  get_providers : Bytes → Effect
  put_record : Bytes → Bytes → Effect
  start_providing : Bytes → Effect
  publish : Text → Bytes → Effect
  -- requests to peers, and answers on the channels of their requests
  send_metadata_request : ℕ → MetadataFileRequest → Effect
  send_file_request : ℕ → FileChunkRequest → Effect
  send_search_result : ℕ → FileSearchResult → Effect
  send_response : ℕ → FileResponse → Effect
  confirm : ℕ → Effect
  -- the address book of the swarm, that of Kademlia, the peers of Gossipsub, and a listener
  add_peer_address : ℕ → Multiaddr → Effect
  add_address : ℕ → Multiaddr → Effect
  add_explicit_peer : ℕ → Effect
  listen_on : Multiaddr → Effect
  -- at the start: the mode of Kademlia, and a topic of Gossipsub
  set_server_mode : Effect
  subscribe : Text → Effect
  -- the channels of the program
  reply_metadata : ℕ → Option FileMetadata → Effect
  reply_chunk : ℕ → Option FileResponse → Effect
  found : ℕ → FileFound → Effect

pub record Net : Type 0 where
  pub query_id : List Effect → ℕ
  pub request_id : List Effect → ℕ
  pub put_result : List Effect → Result Text Unit
  pub providing_result : List Effect → Result Text Unit
  pub publish_result : List Effect → Result Text Unit
  -- does the receiver of a search's channel still listen?
  pub listens : List Effect → ℕ → Bool
  -- `Multiaddr::with_p2p`: it fails if the address ends with another peer
  pub with_p2p : ℕ → Multiaddr → Option Multiaddr
  -- `random_range(0..n)`
  pub random_below : List Effect → ℕ → ℕ

-- The random number is in its range.
pub record IsInRange (net : Net) : Type 0 where
  pub random_lt : (log : List Effect) (n : ℕ) → 0 < n → net.random_below log n < n

-- `ProvidersRequestData`
pub record ProvidersRequestData (Req : Type 0) : Type 0 where
  pub found_providers : List ℕ
  pub request : Req
  pub result : ℕ

-- The maps of `EventService`.
pub record EventService : Type 0 where
  pub metadata_providers_requests : Dict (ProvidersRequestData MetadataFileRequest)
  pub file_chunk_providers_requests : Dict (ProvidersRequestData FileChunkRequest)
  pub metadata_download_requests : Dict ℕ
  pub file_download_requests : Dict ℕ
  pub file_search_sessions : List (Text × ℕ)

-- `EventService::new`
unfoldable pub new : EventService
new = record {
  metadata_providers_requests = [];
  file_chunk_providers_requests = [];
  metadata_download_requests = [];
  file_download_requests = [];
  file_search_sessions = [];
}

pub record World : Type 0 where
  pub service : EventService
  pub log : List Effect

abbrev pub did : Effect → World → World
did e w = record w { log = e ∷ w.log }

-- The sessions, a `HashMap` with texts as keys.
unfoldable pub lookup_session : Text → List (Text × ℕ) → Option ℕ
lookup_session k [] = none
lookup_session k ((j, v) ∷ m) = if text_eq j k then some v else lookup_session k m

unfoldable pub insert_session : Text → ℕ → List (Text × ℕ) → List (Text × ℕ)
insert_session k v [] = (k, v) ∷ []
insert_session k v ((j, w) ∷ m) =
    let rest = insert_session k v m in if text_eq j k then (k, v) ∷ m else (j, w) ∷ rest

unfoldable pub erase_session : Text → List (Text × ℕ) → List (Text × ℕ)
erase_session k [] = []
erase_session k ((j, w) ∷ m) =
    let rest = erase_session k m in if text_eq j k then m else (j, w) ∷ rest

-- `choose_random` of src/app/utils.rs, given how it draws below a bound.
unfoldable pub choose_random : (ℕ → ℕ) → List ℕ → Option ℕ
choose_random draw set =
    if length set == 1
    then get_elem? set 0
    else if length set == 0
    then none
    else get_elem? set (draw (length set))
