-- ===== src/Startup/Config.antt =====
-- `P2pServiceConfig` and its builder (src/app/p2p/config.rs), and the arguments of the command line
-- (src/app/cli/mod.rs).
use rust_dfs.Base.{ℕ, false, Option, none, some, List, [], Result, ok, err}
use rust_dfs.Base.Text.{Text, text}
use rust_dfs.Base.Paths.{PathBuf, join}

pub record P2pServiceConfig : Type 0 where
  pub keypair_file : PathBuf
  pub file_search_topic : Option Text
  pub bootstrap_peers : List Text

pub record P2pServiceConfigBuilder : Type 0 where
  pub config : P2pServiceConfig

-- `P2pServiceConfig::builder`, with the default of each field
abbrev pub builder : P2pServiceConfigBuilder
builder = record {
  config = record {
    keypair_file = record { absolute = false; components = [] };
    file_search_topic = none;
    bootstrap_peers = [];
  };
}

abbrev pub with_keypair_file : PathBuf → P2pServiceConfigBuilder → P2pServiceConfigBuilder
with_keypair_file p b = record { config = record b.config { keypair_file = p } }

abbrev pub with_file_search_topic : Text → P2pServiceConfigBuilder → P2pServiceConfigBuilder
with_file_search_topic t b = record { config = record b.config { file_search_topic = some t } }

abbrev pub with_bootstrap_peers : List Text → P2pServiceConfigBuilder → P2pServiceConfigBuilder
with_bootstrap_peers ps b = record { config = record b.config { bootstrap_peers = ps } }

abbrev pub build : P2pServiceConfigBuilder → P2pServiceConfig
build b = b.config

-- `Cli`; its only command is `Start`.
pub record Cli : Type 0 where
  pub base_path : PathBuf
  pub grpc_port : Option ℕ
  pub max_active_downloads : ℕ
  pub file_search_topic : Option Text
  pub bootstrap_peers : List Text

-- `default_base_path`, given what the crate homedir answers and the current directory. `none` is the
-- panic of a process without a current directory.
unfoldable pub default_base_path : Result Text (Option PathBuf) → Option PathBuf → Option PathBuf
default_base_path (ok (some home)) current = some (join home (text ".dfs"))
default_base_path (ok none) none = none
default_base_path (ok none) (some current) = some (join current (text ".dfs"))
default_base_path (err e) none = none
default_base_path (err e) (some current) = some (join current (text ".dfs"))
