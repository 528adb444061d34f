-- ===== src/Startup/Loop.antt =====
-- The `select!` of `P2pService::start` (src/app/p2p/service.rs): which branch a round of the loop
-- takes, and when the loop is left. What a branch does is in Events.Swarm and Download.Scheduler.
pub mod Laws
use rust_dfs.Base.{Bool, true, false, Option, none, some, List, [], ◌∷◌, Result}
use rust_dfs.Domain.{FileMetadata, P2pCommand}
use rust_dfs.Store.Interface.{StoreError}
use rust_dfs.Events.Swarm.{Input}
use rust_dfs.Base.{ℕ}

-- Which of the branches could be taken when a round looks at them, and with what. A command that is
-- `none` says that the channel is closed.
pub record Ready : Type 0 where
  pub event : Option Input
  pub command : Option (Option (P2pCommand ℕ))
  pub tick : Bool
  pub job : Option (Result StoreError FileMetadata)
  pub cancelled : Bool

-- The branch that is taken; `pending` waits on.
pub data Turn : Type 0 where
  handle_swarm_event : Input → Turn
  handle_command : P2pCommand ℕ → Turn
  channel_closed : Turn
  work_on_pending_downloads : Turn
  file_publish : Result StoreError FileMetadata → Turn
  break : Turn
  pending : Turn

-- `biased`: the first branch that is ready, from the top.
unfoldable pub select : Ready → Turn
select r = elim r.event [
  | some event ↦ handle_swarm_event event
  | none ↦ elim r.command [
    | some (some command) ↦ handle_command command
    | some none ↦ channel_closed
    | none ↦ elim r.tick [
      | true ↦ work_on_pending_downloads
      | false ↦ elim r.job [
        | some result ↦ file_publish result
        | none ↦ elim r.cancelled [ true ↦ break | false ↦ pending ]
      ]
    ]
  ]
]

abbrev is_break : Turn → Bool
is_break break = true
is_break _ = false

-- The rounds of the loop: the branches that it took, and whether it was left.
unfoldable pub run_loop : List Ready → List Turn × Bool
unfolding select
run_loop [] = ([], false)
run_loop (r ∷ rounds) =
    let (turns, left) = run_loop rounds in
    elim (is_break (select r)) [ true ↦ (select r ∷ [], true) | false ↦ (select r ∷ turns, left) ]
