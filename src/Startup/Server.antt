-- ===== src/Startup/Server.antt =====
-- `Server` of src/app/server.rs: it starts the services as tasks and stops them. What a service does
-- is in Startup.Bootstrap, Events.Swarm and Grpc; here it runs and it ends. The
-- path in the message of `init_base_dir` is left out.
pub mod Laws
use rust_dfs.Base.{
  ℕ, ◌≡◌, Bool, true, false, ◌||◌, Option, none, some, List, [], ◌∷◌, ◌++◌, if◌then◌else◌,
}
use rust_dfs.Base.{Result, ok, err, Exec, pure, fail, query, lift, map_err, wrap_err, ◌>>=◌, ◌>>◌}
use rust_dfs.Base.Text.{Text, text}
use rust_dfs.Base.Paths.{PathBuf, join}
use rust_dfs.Store.Db.{Db}
use rust_dfs.Store.Rocksdb
use rust_dfs.Processing.Fs.{Fs}
use rust_dfs.Processing.Publish.{is_dir}
use rust_dfs.Startup.Config.{
  Cli, P2pServiceConfig, P2pServiceConfigBuilder, builder, with_keypair_file, with_bootstrap_peers,
  with_file_search_topic, build,
}
use rust_dfs.Startup.Errors.{ServerError, io, custom, file_store}

-- The services, with what `Server::start` gives them beside the store and the channel.
pub data Service : Type 0 where
  p2p_service : P2pServiceConfig → ℕ → Service
  grpc_service : ℕ → Service

-- A task of `subtasks`; when its service has ended, with the result of it.
pub data Task : Type 0 where
  running : Service → Task
  ended : Service → Result ServerError Unit → Task

pub record Server : Type 0 where
  pub cancelled : Bool
  pub subtasks : List Task

-- `Server::new`, with a token that nobody has cancelled
unfoldable pub new : Server
new = record { cancelled = false; subtasks = [] }

-- `spawn_task`
unfoldable pub spawn_task : Service → Server → Server
spawn_task service s = record s { subtasks = s.subtasks ++ running service ∷ [] }

abbrev pub is_err : Result ServerError Unit → Bool
is_err (ok _) = false
is_err (err e) = true

unfoldable pub end_at : ℕ → Result ServerError Unit → List Task → List Task
end_at i r [] = []
end_at ℕ.zero r (running service ∷ tasks) = ended service r ∷ tasks
end_at ℕ.zero r (ended service old ∷ tasks) = ended service old ∷ tasks
end_at (ℕ.suc i) r (task ∷ tasks) = task ∷ end_at i r tasks

-- What the i-th task does when its service ends: an error cancels the token of all of them.
unfoldable pub service_ended : ℕ → Result ServerError Unit → Server → Server
unfolding end_at
service_ended i r s = record {
  cancelled = if is_err r then true else s.cancelled;
  subtasks = end_at i r s.subtasks;
}

-- `stop`, up to the wait for the tasks
unfoldable pub stop : Server → Server
stop s = record s { cancelled = true }

-- The i-th task is running.
pub data IsRunning : ℕ → List Task → Type 0 where
  first : {service : Service} {tasks : List Task} → IsRunning 0 (running service ∷ tasks)
  later :
      {i : ℕ} {task : Task} {tasks : List Task}
      → IsRunning i tasks
      → IsRunning (ℕ.suc i) (task ∷ tasks)

-- What can happen to a server, and whether `stop` was called.
pub data Reach : Bool → Server → Type 0 where
  start : Reach false new
  spawned :
      {b : Bool} {s : Server} → Reach b s → (service : Service) → Reach b (spawn_task service s)
  finished :
      {b : Bool} {s : Server}
      → Reach b s
      → (i : ℕ) (r : Result ServerError Unit) → IsRunning i s.subtasks
      → Reach b (service_ended i r s)
  stopped : {b : Bool} {s : Server} → Reach b s → Reach true (stop s)

module _ (fs : Fs) (db : Db) where
  -- What `Server::start` works on.
  pub record Machine : Type 0 where
    pub files : fs.State
    pub server : Server

  abbrev on_files : {A : Type 0} → Exec fs.State ServerError A → Exec Machine ServerError A
  on_files f n = let (r, files) = f n.files in (r, record n { files = files })

  -- `init_base_dir`
  unfoldable pub init_base_dir : PathBuf → Exec fs.State ServerError Unit
  init_base_dir base_dir = do
    exists ← query (λ s. map_err io (fs.try_exists base_dir s))
    if exists
        then (do
          kind ← query (λ s. map_err io (fs.metadata base_dir s))
          if is_dir kind then pure tt else fail (custom (text "is not a directory")))
        else wrap_err io (fs.create_dir_all base_dir)

  abbrev with_topic : Option Text → P2pServiceConfigBuilder → P2pServiceConfigBuilder
  with_topic none b = b
  with_topic (some topic) b = with_file_search_topic topic b

  abbrev pub config_of : Cli → P2pServiceConfig
  config_of cli = build (
      with_topic cli.file_search_topic (
        with_bootstrap_peers cli.bootstrap_peers
          (with_keypair_file (join cli.base_path (text "key.keypair")) builder)))

  abbrev spawn : Service → Exec Machine ServerError Unit
  spawn service n = (ok tt, record n { server = spawn_task service n.server })

  abbrev spawn_grpc : Option ℕ → Exec Machine ServerError Unit
  spawn_grpc none n = (ok tt, n)
  spawn_grpc (some port) n = spawn (grpc_service port) n

  -- `Server::start`
  unfoldable pub start_server : Cli → Exec Machine ServerError Unit
  unfolding init_base_dir spawn_task
  start_server cli = do
    on_files (init_base_dir cli.base_path)
    lift (map_err file_store (Rocksdb.new db (join cli.base_path (text "file_store"))))
    spawn (p2p_service (config_of cli) cli.max_active_downloads)
    spawn_grpc cli.grpc_port
