-- ===== src/Tests/StartupTests.antt =====
-- A first start and a later one.
use native.Mathlib.Decide.{ℕ_discrete}
use rust_dfs.Base.{◌≡◌, ◌⊎◌, refl, sym, true, false, ◌||◌, some, none, [], ◌∷◌, ok, err}
use rust_dfs.Base.Text.{Bytes, text}
use rust_dfs.Base.Paths.{PathBuf, parent}
use rust_dfs.Events.Address.{p2p}
use rust_dfs.Events.State.{World}
use rust_dfs.Events.State
use rust_dfs.Startup.Config.{Cli}
use rust_dfs.Startup.Errors.{ServerError, custom}
use rust_dfs.Startup.Keypair.{Keys, IsLawful, keypair}
use rust_dfs.Startup.Keypair.Laws.{keypair_stable}
use rust_dfs.Startup.Bootstrap.{Swarm, last_peer}
use rust_dfs.Startup.Server.{
  grpc_service, Server, new, spawn_task, service_ended, first, start, spawned, finished, Machine,
  start_server,
}
use rust_dfs.Startup.Server.Laws.{any_failed, reach-cancelled, tasks_of, start_server_all_or_none}
use rust_dfs.Startup.Config.{P2pServiceConfig}
use rust_dfs.Startup.Errors.{cbor}
use rust_dfs.Startup.Bootstrap.{Start, start_service}
use rust_dfs.Store.Rocksdb.{rocksdb_store}
use rust_dfs.Tests.EventsTests.{quiet_net}
use rust_dfs.Tests.StoreTests.{memory_store, no_rows, hasher, sample_codecs}
use rust_dfs.Tests.Files.{memory_fs, memory_fs-IsLawful, Disk, PathBuf-discrete}
use rust_dfs.Tests.Database.{memory_db}
use rust_dfs.Tests.StoreTests.{downloads_dir}

abbrev pub plain_keys : Keys
plain_keys = record {
  Keypair = Bytes;
  to_protobuf_encoding = λ k. ok k;
  from_protobuf_encoding = λ bytes. ok bytes;
}

plain_keys-IsLawful : IsLawful plain_keys
plain_keys-IsLawful = record { decodes = λ k e. sym e }

abbrev key_file : PathBuf
key_file = record { absolute = true; components = text "d" ∷ text "key.keypair" ∷ [] }

abbrev pub empty_disk : Disk
empty_disk p = none

made : (keypair memory_fs plain_keys key_file (text "first") empty_disk).0 ≡ ok (text "first")
unfolding keypair parent PathBuf-discrete ℕ_discrete
made = refl

abbrev second_disk : Disk
second_disk = (keypair memory_fs plain_keys key_file (text "first") empty_disk).1

keypair_stable_example :
    keypair memory_fs plain_keys key_file (text "second") second_disk
    ≡ (ok (text "first"), second_disk)
keypair_stable_example =
    keypair_stable memory_fs memory_fs-IsLawful plain_keys plain_keys-IsLawful key_file
      (text "first") (text "second") (text "first") empty_disk second_disk made refl

abbrev pub one_peer : Swarm
one_peer = record {
  parse = λ t. ok (p2p 3 ∷ []);
  listen_result = λ log. ok tt;
  subscribe_result = λ log. ok tt;
}

abbrev pub quiet_world : World
quiet_world = record { service = State.new; log = [] }

abbrev pub sample_config : P2pServiceConfig
sample_config = record {
  keypair_file = key_file;
  file_search_topic = some (text "t");
  bootstrap_peers = text "/p2p/3" ∷ [];
}

abbrev pub first_start : Start memory_fs memory_store plain_keys
first_start = record { files = empty_disk; records = no_rows; world = quiet_world }

started :
    (start_service memory_fs memory_store plain_keys quiet_net hasher sample_codecs
      (λ e. text "store")
      (λ e. cbor e)
      (λ k. ok one_peer)
      sample_config
      (text "first")
      first_start).0
    ≡ ok tt
unfolding start_service parent PathBuf-discrete ℕ_discrete last_peer rocksdb_store no_rows
started = refl

abbrev failed : Server
failed = service_ended 0 (err (custom (text "port"))) (spawn_task (grpc_service 80) new)

reach-cancelled_example : failed.cancelled ≡ (false || any_failed failed.subtasks)
unfolding new spawn_task
reach-cancelled_example =
    reach-cancelled
      (finished (spawned start (grpc_service 80)) 0 (err (custom (text "port"))) first)

abbrev pub arguments : Cli
arguments = record {
  base_path = downloads_dir;
  grpc_port = some 80;
  max_active_downloads = 10;
  file_search_topic = none;
  bootstrap_peers = [];
}

abbrev pub machine : Machine memory_fs memory_db
machine = record { files = empty_disk; server = new }

start_server_all_or_none_example :
    (((start_server memory_fs memory_db arguments machine).0 ≡ ok tt)
      × ((start_server memory_fs memory_db arguments machine).1.server
          ≡ record { cancelled = false; subtasks = tasks_of memory_fs memory_db arguments }))
    ⊎ ((e : ServerError) × ((start_server memory_fs memory_db arguments machine).0 ≡ err e)
        × ((start_server memory_fs memory_db arguments machine).1.server ≡ new))
start_server_all_or_none_example =
    start_server_all_or_none memory_fs memory_db arguments machine refl
