-- ===== src/Events/Log.antt =====
-- The log of what a node (src/app/p2p/events.rs) does to the outside.
use rust_dfs.Base.{List, ◌∷◌}
use rust_dfs.Events.State.{Effect}

-- Was the call made?
pub data IsLogged (e : Effect) : List Effect → Type 0 where
  now : {log : List Effect} → IsLogged e (e ∷ log)
  before : {x : Effect} {log : List Effect} → IsLogged e log → IsLogged e (x ∷ log)
