-- ===== src/Tests/ProcessTests.antt =====
-- A process that ends.
use native.Mathlib.Decide.{ℕ_discrete}
use rust_dfs.Base.{◌≡◌, ◌⊎◌, ℕ, refl, true, false, ok, err, map}
use rust_dfs.Base.Text.{text}
use rust_dfs.Base.Paths.{join}
use rust_dfs.Store.Rocksdb.{rocksdb_store}
use rust_dfs.Store.Rocksdb
use rust_dfs.Startup.Errors.{custom}
use rust_dfs.Startup.Server.{
  Server, new, service_ended, stop, IsRunning, first, later, start_server,
}
use rust_dfs.Startup.Server.Laws.{any_failed, tasks_of}
use rust_dfs.Startup.Main.{none_more, one_more, one_ends, joined, all_joined, Exit, shut_down}
use rust_dfs.Startup.Main.Laws.{service_of, process_leaves_none}
use rust_dfs.Tests.Files.{memory_fs, PathBuf-discrete}
use rust_dfs.Tests.Database.{memory_db}
use rust_dfs.Tests.StartupTests.{machine, arguments}

abbrev begin : Server
begin = (start_server memory_fs memory_db arguments machine).1.server

-- The gRPC service fails, which stops the other one.
abbrev broken : Server
broken = service_ended 1 (err (custom (text "port"))) begin

abbrev left : Server
left = service_ended 0 (ok tt) (stop broken)

ended_all : Exit memory_fs memory_db arguments machine false (ok tt) left
unfolding start_server service_ended PathBuf-discrete ℕ_discrete join stop new Rocksdb.new
ended_all =
    shut_down false refl (one_more none_more 1 (err (custom (text "port"))) (later first)) refl
      (one_ends 0 (ok tt) first (joined _ _ refl (joined _ _ refl (all_joined refl))))

process_leaves_none_example :
    (map service_of left.subtasks ≡ map service_of (tasks_of memory_fs memory_db arguments))
    × ((i : ℕ) → ¬ IsRunning i left.subtasks)
    × (left.cancelled ≡ true)
    × ((false ≡ true) ⊎ (any_failed left.subtasks ≡ true))
process_leaves_none_example =
    process_leaves_none memory_fs memory_db arguments machine false left refl ended_all
