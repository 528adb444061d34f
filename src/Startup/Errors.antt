-- ===== src/Startup/Errors.antt =====
-- The errors of the start (src/app/errors.rs, src/app/p2p/errors.rs, src/app/grpc/errors.rs), those
-- of other crates as texts.
use rust_dfs.Base.Text.{Text}
use rust_dfs.Base.Paths.{PathBuf}
use rust_dfs.Store.Interface.{StoreError}

pub data P2pNetworkError : Type 0 where
  failed_to_get_keypair_file_dir : PathBuf → P2pNetworkError
  io : Text → P2pNetworkError
  keypair_decoding : Text → P2pNetworkError
  libp2p_noise : Text → P2pNetworkError
  libp2p_swarm_builder : Text → P2pNetworkError
  libp2p_multi_addr_parse : Text → P2pNetworkError
  libp2p_transport : Text → P2pNetworkError
  libp2p_gossipsub_subscription : Text → P2pNetworkError
  cbor : Text → P2pNetworkError
  kademlia : Text → P2pNetworkError
  file_storage : StoreError → P2pNetworkError

pub data GrpcServerError : Type 0 where
  address_parse : Text → GrpcServerError
  transport : Text → GrpcServerError

pub data ServerError : Type 0 where
  task_join : Text → ServerError
  p2p_network : P2pNetworkError → ServerError
  grpc_server : GrpcServerError → ServerError
  file_store : StoreError → ServerError
  io : Text → ServerError
  custom : Text → ServerError
