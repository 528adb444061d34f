-- ===== src/Startup/Bootstrap/Provided.antt =====
-- A node whose loop starts has told the network of all its published files (`start` of
-- src/app/p2p/service.rs).
use rust_dfs.Base.{◌≡◌, some}
use rust_dfs.Base.{Exec, Result, ok, continue, map_err}
use rust_dfs.Base.Text.{Bytes, Text}
use rust_dfs.Base.Paths.{join}
use rust_dfs.Domain.{FileMetadata, PublishedFileRecord, Sha256Hasher}
use rust_dfs.Domain.Keys.{PublishedFileKey}
use rust_dfs.Store.Codec.{Codecs}
use rust_dfs.Store.Interface.{FileStore, StoreError}
use rust_dfs.Store.Interface
use rust_dfs.Processing.Fs.{Fs}
use rust_dfs.Processing.Publish.{metadata_file_name}
use rust_dfs.Events.State.{Net}
use rust_dfs.Events.Publishing.{provide_all_published_files}
use rust_dfs.Events.Publishing.Announced.{IsAnnounced}
use rust_dfs.Startup.Config.{P2pServiceConfig}
use rust_dfs.Startup.Errors.{P2pNetworkError, ServerError, p2p_network}
use rust_dfs.Startup.Keypair.{Keys, keypair}
use rust_dfs.Startup.Bootstrap.{Swarm, prepare, Start}

module _ (fs : Fs) (S : FileStore) (L : Interface.IsLawful S) (K : Keys) (net : Net)
    (h : Sha256Hasher) (c : Codecs) (show : StoreError → Text) (as_error : Text → P2pNetworkError)
    (build : K.Keypair → Result P2pNetworkError Swarm) (config : P2pServiceConfig) where
  abbrev provide : Exec (Start fs S K) ServerError Unit
  provide s =
      let (r, world) =
        provide_all_published_files net h c S fs s.files show (S.stream_published_files s.records)
          s.world in
      (map_err (λ e. p2p_network (as_error e)) r, record s { world = world })

  -- Every published file whose metadata can be read has been announced.
  AllProvided : Start fs S K → Type 0
  AllProvided s =
      (k : PublishedFileKey) (r : PublishedFileRecord) (m : FileMetadata) (raw : Bytes)
      → S.get_published_file k s.records ≡ ok (some r)
      → fs.read (join r.chunks_dir metadata_file_name) s.files ≡ ok raw
      → c.metadata.from_slice raw ≡ ok m
      → IsAnnounced net h c m s.world

  abbrev prepared : Swarm → Start fs S K → Result ServerError Unit × Start fs S K
  prepared swarm s =
      let (r, world) = prepare swarm config s.world in (r, record s { world = world })

  abbrev with_swarm : Swarm → Exec (Start fs S K) ServerError Unit
  with_swarm swarm s = continue (prepared swarm s) (λ _. provide)

  abbrev with_key : K.Keypair → Exec (Start fs S K) ServerError Unit
  with_key k s = continue (map_err p2p_network (build k), s) with_swarm

  abbrev got_key : K.Keypair → Start fs S K → Result ServerError K.Keypair × Start fs S K
  got_key generated s =
      let (r, files) = keypair fs K config.keypair_file generated s.files in
      (map_err p2p_network r, record s { files = files })
