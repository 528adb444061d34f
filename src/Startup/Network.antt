-- ===== src/Startup/Network.antt =====
-- The assembly of the swarm: `swarm` and `with_behaviour` of src/app/p2p/service.rs, and
-- `P2pNetworkBehaviour` of src/app/p2p/domain.rs. A behaviour is what it is configured with;
-- durations are in seconds, and what has its default is left out.
use rust_dfs.Base.{ℕ, List, [], ◌∷◌, Option, some, Result, ok, err}
use rust_dfs.Base.Text.{Text, text}
use rust_dfs.Startup.Keypair.{Keys}
use rust_dfs.Startup.Errors.{P2pNetworkError, libp2p_noise, libp2p_swarm_builder}
use rust_dfs.Startup.Bootstrap.{Swarm}

-- `kad::Config`
pub record KadConfig : Type 0 where
  pub protocol : Text
  pub periodic_bootstrap_interval : Option ℕ

-- `gossipsub::ValidationMode`
pub data ValidationMode : Type 0 where
  strict : ValidationMode
  permissive : ValidationMode

-- `gossipsub::Config`
pub record GossipsubConfig : Type 0 where
  pub heartbeat_interval : ℕ
  pub validation_mode : ValidationMode

-- `request_response::ProtocolSupport`
pub data ProtocolSupport : Type 0 where
  inbound : ProtocolSupport
  outbound : ProtocolSupport
  full : ProtocolSupport

-- `P2pNetworkBehaviour`: the peer that `mdns`, `kademlia`, `relay_server` and `dcutr` are told that
-- they are, the key of `identify` and `gossipsub`, and the protocols of the three kinds of requests.
pub record P2pNetworkBehaviour (Keypair : Type 0) : Type 0 where
  pub identify : Text × Keypair
  pub mdns : ℕ
  pub kademlia : ℕ × KadConfig
  pub gossipsub : Keypair × GossipsubConfig
  pub relay_server : ℕ
  pub dcutr : ℕ
  pub file_download : List (Text × ProtocolSupport)
  pub metadata_download : List (Text × ProtocolSupport)
  pub file_search_results : List (Text × ProtocolSupport)

-- libp2p: the calls that can fail, and the swarm that it builds.
pub record Libp2p (K : Keys) : Type 0 where
  pub to_peer_id : K.Keypair → ℕ
  pub with_tcp : K.Keypair → Result Text Unit
  pub with_relay_client : K.Keypair → Result Text Unit
  pub gossipsub_config : GossipsubConfig → Result Text GossipsubConfig
  pub mdns_new : ℕ → Result Text ℕ
  pub gossipsub_new : K.Keypair → GossipsubConfig → Result Text Unit
  pub build : P2pNetworkBehaviour K.Keypair → ℕ → Swarm

module _ (K : Keys) (lib : Libp2p K) where
  abbrev pub gossipsub_wanted : GossipsubConfig
  gossipsub_wanted = record { heartbeat_interval = 10; validation_mode = strict }

  abbrev pub behaviour_of : K.Keypair → GossipsubConfig → ℕ → P2pNetworkBehaviour K.Keypair
  behaviour_of k config mdns = record {
    identify = (text "/dfs/1.0.0", k);
    mdns = mdns;
    kademlia = (
      lib.to_peer_id k,
      record { protocol = text "/dfs/1.0.0/kad"; periodic_bootstrap_interval = some 30 },
    );
    gossipsub = (k, config);
    relay_server = lib.to_peer_id k;
    dcutr = lib.to_peer_id k;
    file_download = (text "/dfs/1.0.0/file-download", full) ∷ [];
    metadata_download = (text "/dfs/1.0.0/metadata-download", full) ∷ [];
    file_search_results = (text "/dfs/1.0.0/file-search-results", full) ∷ [];
  }

  unfoldable pub with_behaviour : K.Keypair → Result Text (P2pNetworkBehaviour K.Keypair)
  with_behaviour k = elim (lib.gossipsub_config gossipsub_wanted) [
    | err e ↦ err e
    | ok config ↦ elim (lib.mdns_new (lib.to_peer_id k)) [
      | err e ↦ err e
      | ok mdns ↦ elim (lib.gossipsub_new k config) [
        | err e ↦ err e
        | ok _ ↦ ok (behaviour_of k config mdns)
      ]
    ]
  ]

  -- `swarm`, once the key pair is there. Connections are closed after 30 seconds without use.
  unfoldable pub swarm : K.Keypair → Result P2pNetworkError Swarm
  unfolding with_behaviour
  swarm k = elim (lib.with_tcp k) [
    | err e ↦ err (libp2p_noise e)
    | ok _ ↦ elim (lib.with_relay_client k) [
      | err e ↦ err (libp2p_noise e)
      | ok _ ↦ elim (with_behaviour k) [
        | err e ↦ err (libp2p_swarm_builder e)
        | ok behaviour ↦ ok (lib.build behaviour 30)
      ]
    ]
  ]
