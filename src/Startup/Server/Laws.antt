-- ===== src/Startup/Server/Laws.antt =====
-- When the tasks of `Server` (src/app/server.rs) are told to stop, and what a start leaves.
use rust_dfs.Base.{
  ℕ, ◌≡◌, ◌⊎◌, refl, sym, ap, ◌∙◌, Bool, false, ◌||◌, none, some, List, [], ◌∷◌, ◌++◌, inl, inr,
  arith,
}
use rust_dfs.Base.{Result, ok, err, Result-cases, Option-cases}
use rust_dfs.Base.Text.{text}
use rust_dfs.Base.Paths.{join}
use rust_dfs.Store.Db.{Db}
use rust_dfs.Store.Rocksdb
use rust_dfs.Processing.Fs.{Fs}
use rust_dfs.Startup.Config.{Cli}
use rust_dfs.Startup.Errors.{ServerError, file_store}
use rust_dfs.Startup.Server.{
  Service, p2p_service, grpc_service, Task, running, ended, Server, new, is_err, end_at, spawn_task,
  service_ended, stop, IsRunning, first, later, Reach, start, spawned, finished, stopped, Machine,
  init_base_dir, config_of, start_server,
}

-- Has the service of one of the tasks failed?
unfoldable pub any_failed : List Task → Bool
any_failed [] = false
any_failed (running service ∷ tasks) = any_failed tasks
any_failed (ended service r ∷ tasks) = is_err r || any_failed tasks

any_failed-spawn :
    (tasks : List Task) (service : Service)
    → any_failed (tasks ++ running service ∷ []) ≡ any_failed tasks
unfolding any_failed
any_failed-spawn [] service = refl
any_failed-spawn (running old ∷ tasks) service = any_failed-spawn tasks service
any_failed-spawn (ended old r ∷ tasks) service =
    ap (λ b. is_err r || b) (any_failed-spawn tasks service)

pub any_failed-end :
    (i : ℕ) (tasks : List Task) (r : Result ServerError Unit)
    → IsRunning i tasks
    → any_failed (end_at i r tasks) ≡ (is_err r || any_failed tasks)
unfolding any_failed end_at
any_failed-end _ _ r first = refl
any_failed-end (ℕ.suc i) (running service ∷ tasks) r (later more) = any_failed-end i tasks r more
any_failed-end (ℕ.suc i) (ended service old ∷ tasks) r (later more) =
    ground (arith, any_failed-end i tasks r more)

-- The token of all tasks is cancelled exactly if `stop` was called or the service of a task has
-- ended with an error: one failure stops them all, and nothing else does.
pub reach-cancelled :
    {b : Bool} {s : Server} → Reach b s → s.cancelled ≡ (b || any_failed s.subtasks)
unfolding new spawn_task service_ended stop
reach-cancelled start = (unfold any_failed in refl)
reach-cancelled (spawned {b} {s} r service) =
    reach-cancelled r ∙ ap (λ c. b || c) (sym (any_failed-spawn s.subtasks service))
reach-cancelled (finished {b} {s} r i result at) =
    ground (arith, reach-cancelled r, any_failed-end i s.subtasks result at)
reach-cancelled (stopped r) = refl

module _ (fs : Fs) (db : Db) where
  -- The tasks of a server that serves these arguments.
  abbrev pub tasks_of : Cli → List Task
  tasks_of cli =
      running (p2p_service (config_of fs db cli) cli.max_active_downloads)
      ∷ elim cli.grpc_port [ none ↦ [] | some port ↦ running (grpc_service port) ∷ [] ]

  -- A start runs all services or none: if it succeeds, the peer-to-peer service runs, with the key
  -- pair under the base path and the peers and the topic of the command line, and the gRPC service
  -- if there is a port; if it fails, no task has been spawned. The token is not touched.
  pub start_server_all_or_none :
      (cli : Cli) (n : Machine fs db)
      → n.server ≡ new
      → (((start_server fs db cli n).0 ≡ ok tt)
          × ((start_server fs db cli n).1.server
              ≡ record { cancelled = false; subtasks = tasks_of cli }))
        ⊎ ((e : ServerError) × ((start_server fs db cli n).0 ≡ err e)
            × ((start_server fs db cli n).1.server ≡ new))
  unfolding start_server new spawn_task
  start_server_all_or_none cli n fresh =
      elim (Result-cases (init_base_dir fs db cli.base_path n.files).0) [
        | inr (e, bad) ↦ inr (e, rw bad refl, rw bad fresh)
        | inl (_, made) ↦
            elim (Result-cases (Rocksdb.new db (join cli.base_path (text "file_store")))) [
              | inr (e, bad) ↦ inr (file_store e, rw (made, bad) refl, rw (made, bad) fresh)
              | inl (_, opened) ↦ elim (Option-cases cli.grpc_port) [
                | inl no_port ↦
                    inl (rw (made, opened, no_port) refl, rw (made, opened, no_port, fresh) refl)
                | inr (port, given) ↦
                    inl (rw (made, opened, given) refl, rw (made, opened, given, fresh) refl)
              ]
            ]
      ]
