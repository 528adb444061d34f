-- ===== src/Startup/Main.antt =====
-- `start` of src/main.rs: the life of the process. `anyhow` keeps the errors as they are.
pub mod Laws
use rust_dfs.Base.{ℕ, suc, ◌≡◌, Bool, true, ◌||◌, some, length, get_elem?, Result, ok, err}
use rust_dfs.Store.Db.{Db}
use rust_dfs.Processing.Fs.{Fs}
use rust_dfs.Startup.Config.{Cli}
use rust_dfs.Startup.Errors.{ServerError}
use rust_dfs.Startup.Server.{
  Service, ended, Server, service_ended, stop, IsRunning, Machine, start_server,
}

-- Services end, one after the other, with whatever result.
pub data Ends (s : Server) : Server → Type 0 where
  none_more : Ends s s
  one_more :
      {t : Server}
      → Ends s t
      → (i : ℕ) (r : Result ServerError Unit) → IsRunning i t.subtasks
      → Ends s (service_ended i r t)

-- The loop of `stop` over the handles, from that of the number on: each is awaited in its turn, while
-- services end.
pub data Awaits : ℕ → Server → Server → Type 0 where
  all_joined : {k : ℕ} {s : Server} → length s.subtasks ≡ k → Awaits k s s
  one_ends :
      {k : ℕ} {s u : Server} (i : ℕ) (r : Result ServerError Unit)
      → IsRunning i s.subtasks
      → Awaits k (service_ended i r s) u
      → Awaits k s u
  joined :
      {k : ℕ} {s u : Server} (service : Service) (r : Result ServerError Unit)
      → get_elem? s.subtasks k ≡ some (ended service r)
      → Awaits (suc k) s u
      → Awaits k s u

module _ (fs : Fs) (db : Db) where
  -- How the process can end, with the result of `start`, the tasks that it leaves, and whether it was
  -- asked to end by ctrl-c. `select!` waits for that or for the token.
  pub data Exit (cli : Cli) (n : Machine fs db)
      : Bool → Result ServerError Unit → Server → Type 0 where
    not_started :
        (asked : Bool) (e : ServerError)
        → (start_server fs db cli n).0 ≡ err e
        → Exit cli n asked (err e) (start_server fs db cli n).1.server
    shut_down :
        {t u : Server} (asked : Bool)
        → (start_server fs db cli n).0 ≡ ok tt
        → Ends (start_server fs db cli n).1.server t
        → (asked || t.cancelled) ≡ true
        → Awaits 0 (stop t) u
        → Exit cli n asked (ok tt) u
