-- ===== src/Startup/Bootstrap.antt =====
-- What `P2pService::start` of src/app/p2p/service.rs does to the swarm before its loop starts.
-- The errors of parsing inside of messages are left out.
pub mod Laws
pub mod Joined
pub mod Provided
use rust_dfs.Base.{ℕ, Bool, Option, none, some, List, [], ◌∷◌, ◌++◌}
use rust_dfs.Base.{Result, ok, err, Exec, pure, fail, lift, map_err, wrap_err, ◌>>=◌, ◌>>◌}
use rust_dfs.Base.Text.{Text, text}
use rust_dfs.Domain.{PublishedFileRecord, Sha256Hasher}
use rust_dfs.Store.Codec.{Codecs}
use rust_dfs.Store.Interface.{FileStore, StoreError}
use rust_dfs.Processing.Fs.{Fs}
use rust_dfs.Events.Address.{Multiaddr, Protocol, ip4, ip6, p2p, p2p_circuit, other}
use rust_dfs.Events.State.{
  Effect, Net, World, did, listen_on, add_address, add_explicit_peer, set_server_mode, subscribe,
}
use rust_dfs.Events.Publishing.{provide_all_published_files}
use rust_dfs.Startup.Keypair.{Keys, keypair}
use rust_dfs.Startup.Config.{P2pServiceConfig}
use rust_dfs.Startup.Errors.{
  P2pNetworkError, ServerError, custom, p2p_network, cbor, libp2p_multi_addr_parse,
  libp2p_transport, libp2p_gossipsub_subscription,
}

-- The swarm, given what was done to it: `parse` of an address, `listen_on` and `subscribe`.
pub record Swarm : Type 0 where
  pub parse : Text → Result Text Multiaddr
  pub listen_result : List Effect → Result Text Unit
  pub subscribe_result : List Effect → Result Text Unit

-- `addr.iter().last()`, if it is a peer
unfoldable pub last_peer : Multiaddr → Option ℕ
last_peer [] = none
last_peer (p2p peer ∷ []) = some peer
last_peer (ip4 ip ∷ []) = none
last_peer (ip6 ip ∷ []) = none
last_peer (p2p_circuit ∷ []) = none
last_peer (other name ∷ []) = none
last_peer (_ ∷ proto ∷ protos) = last_peer (proto ∷ protos)

-- A call of the swarm; it is in the log also if it fails.
abbrev called :
    (World → Result Text Unit) → Effect → (Text → ServerError) → Exec World ServerError Unit
called result e failure w = (map_err failure (result w), did e w)

module _ (swarm : Swarm) where
  unfoldable pub listen : Text → Exec World ServerError Unit
  listen t = do
    addr ← lift (map_err (λ e. p2p_network (libp2p_multi_addr_parse e)) (swarm.parse t))
    called (λ w. swarm.listen_result w.log) (listen_on addr) (λ e. p2p_network (libp2p_transport e))

  -- The topic for searches, if there is one.
  unfoldable pub subscribe_topic : Option Text → Exec World ServerError Unit
  subscribe_topic none w = (ok tt, w)
  subscribe_topic (some topic) w =
      called (λ v. swarm.subscribe_result v.log) (subscribe topic)
        (λ e. p2p_network (libp2p_gossipsub_subscription e)) w

  -- A peer of the configuration.
  unfoldable pub add_bootstrap_peer : Text → Exec World ServerError Unit
  unfolding last_peer
  add_bootstrap_peer t w = elim (swarm.parse t) [
    | err e ↦ (err (custom (text "bootstrap peer address " ++ (t ++ text " cannot be parsed"))), w)
    | ok addr ↦ elim (last_peer addr) [
      | none ↦ (err (custom (text "Peer ID does not exist in " ++ (t ++ text "!"))), w)
      | some peer ↦ (ok tt, did (add_explicit_peer peer) (did (add_address peer addr) w))
    ]
  ]

  unfoldable pub add_bootstrap_peers : List Text → Exec World ServerError Unit
  unfolding add_bootstrap_peer
  add_bootstrap_peers [] w = (ok tt, w)
  add_bootstrap_peers (t ∷ ts) w = (add_bootstrap_peer t >> add_bootstrap_peers ts) w

  -- The calls of `start` between the assembly of the swarm and `provide_all_published_files`.
  unfoldable pub prepare : P2pServiceConfig → Exec World ServerError Unit
  unfolding listen subscribe_topic add_bootstrap_peers
  prepare config = do
    listen (text "/ip4/0.0.0.0/tcp/0")
    listen (text "/ip4/0.0.0.0/udp/0/quic-v1")
    (λ w. (ok tt, did set_server_mode w))
    subscribe_topic config.file_search_topic
    add_bootstrap_peers config.bootstrap_peers

module _ (fs : Fs) (S : FileStore) (K : Keys) where
  -- What the start works on.
  pub record Start : Type 0 where
    pub files : fs.State
    pub records : S.State
    pub world : World

  abbrev on_files : {A : Type 0} → Exec fs.State P2pNetworkError A → Exec Start ServerError A
  on_files f s = let (r, files) = f s.files in (map_err p2p_network r, record s { files = files })

  abbrev on_world : Exec World ServerError Unit → Exec Start ServerError Unit
  on_world f s = let (r, world) = f s.world in (r, record s { world = world })

  -- `P2pService::start` up to its loop. `build` is the assembly of the swarm by libp2p; `as_error`
  -- says which error a failure of `provide_all_published_files` is, of which only the text is kept.
  unfoldable pub start_service :
      Net
      → Sha256Hasher
      → Codecs
      → (StoreError → Text)
      → (Text → P2pNetworkError)
      → (K.Keypair → Result P2pNetworkError Swarm)
      → P2pServiceConfig
      → K.Keypair
      → Exec Start ServerError Unit
  unfolding keypair prepare provide_all_published_files
  start_service net h c show as_error build config generated = do
    k ← on_files (keypair fs K config.keypair_file generated)
    swarm ← lift (map_err p2p_network (build k))
    on_world (prepare swarm config)
    (λ s.
        on_world
          (wrap_err (λ e. p2p_network (as_error e))
            (provide_all_published_files net h c S fs s.files show
              (S.stream_published_files s.records)))
          s)
