-- ===== src/Grpc/Search.antt =====
-- `search` and `search_task` of src/app/grpc/server.rs.
pub mod Laws
use rust_dfs.Base.{ℕ, Bool, true, false, List, [], ◌∷◌, if◌then◌else◌, not, ◌&&◌}
use rust_dfs.Base.{Result, ok, err, Exec, ◌>>=◌, ◌>>◌}
use rust_dfs.Base.Text.{Text, text}
use rust_dfs.Domain.{FileFound, P2pCommand, file_search, file_search_abort}
use rust_dfs.Store.Interface.{FileStore, StoreError}
use rust_dfs.Processing.Fs.{Fs}
use rust_dfs.Grpc.State.{Status, internal, Node, send}

-- The command that starts a search: its session is named by the text that is searched. `tx` is the
-- channel for the results.
unfoldable pub search : (fs : Fs) (S : FileStore) → Bool → ℕ → Text → Exec (Node fs S) Status Unit
search fs S sent tx search_value =
    send fs S sent
      (file_search (record { session_id = search_value; search_value = search_value }) tx)
      (text "channel closed")

-- The crate moka: a cache with a capacity and a time to live. `later` is what time does to it.
pub record Cache : Type 1 where
  pub State : Type 0
  pub new : State
  pub contains_key : ℕ → State → Bool
  pub insert : ℕ → State → State
  pub later : State → State

-- What the loop of `search_task` waits for: a message of the channel, with what the store says of
-- the file and whether the client takes the answer; the end of the channel; a tick, with whether the
-- client has gone. The last flag says whether a command is taken.
pub data SearchEvent : Type 0 where
  message : FileFound → Result StoreError Bool → Bool → Bool → SearchEvent
  closed : SearchEvent
  tick : Bool → Bool → SearchEvent

module _ (c : Cache) where
  -- The cache, the answers to the client and the commands, the newest first.
  pub record SearchTask : Type 0 where
    pub cache : c.State
    pub to_client : List FileFound
    pub commands : List (P2pCommand ℕ)

  unfoldable pub new_task : SearchTask
  new_task = record { cache = c.new; to_client = []; commands = [] }

  abbrev abort : Bool → Text → SearchTask → SearchTask
  abort taken search_value t =
      if taken then record t { commands = file_search_abort search_value ∷ t.commands } else t

  -- `unwrap_or(false)`
  abbrev pub or_false : Result StoreError Bool → Bool
  or_false (ok b) = b
  or_false (err e) = false

  -- The arm for a message.
  unfoldable pub on_message :
      Text → FileFound → Result StoreError Bool → Bool → Bool → SearchTask → SearchTask
  on_message search_value f published client_takes command_taken t =
      if c.contains_key f.file_id t.cache
      then t
      else if or_false published
      then t
      else if client_takes
      then record t { cache = c.insert f.file_id t.cache; to_client = f ∷ t.to_client }
      else abort command_taken search_value t

  -- The arm for a tick.
  unfoldable pub on_tick : Text → Bool → Bool → SearchTask → SearchTask
  on_tick search_value gone command_taken t = if gone then abort command_taken search_value t else t

  -- The loop of `search_task`, over what it gets.
  unfoldable pub search_task : Text → List SearchEvent → SearchTask → SearchTask
  unfolding on_message on_tick
  search_task search_value [] t = t
  search_task search_value (closed ∷ events) t = t
  search_task search_value (message f published client_takes command_taken ∷ events) t =
      search_task search_value events (
        on_message search_value f published client_takes command_taken
          (record t { cache = c.later t.cache }))
  search_task search_value (tick gone command_taken ∷ events) t =
      search_task search_value events
        (on_tick search_value gone command_taken (record t { cache = c.later t.cache }))
