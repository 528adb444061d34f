-- ===== src/Grpc/State.antt =====
-- What the handlers of src/app/grpc/server.rs work on: the files, the store, and the commands that
-- were sent to the event loop, the newest first.
use rust_dfs.Base.{ℕ, Bool, List, ◌∷◌, if◌then◌else◌}
use rust_dfs.Base.{ok, err, Exec, map_err}
use rust_dfs.Base.Text.{Text}
use rust_dfs.Base.Paths.{PathBuf}
use rust_dfs.Domain.{P2pCommand}
use rust_dfs.Store.Interface.{FileStore, StoreError}
use rust_dfs.Processing.Fs.{Fs}
use rust_dfs.Processing.Errors.{FileProcessingError}

-- The `Status` of the crate tonic: its code and its message. `from_io` is the conversion of an IO
-- error.
pub data Status : Type 0 where
  already_exists : Text → Status
  internal : Text → Status
  from_io : Text → Status

-- `to_string` of the errors, and `to_string_lossy` of a path.
pub record Display : Type 0 where
  pub processing_error : FileProcessingError → Text
  pub store_error : StoreError → Text
  pub path : PathBuf → Text

pub record Node (fs : Fs) (S : FileStore) : Type 0 where
  pub files : fs.State
  pub records : S.State
  pub sent : List (P2pCommand ℕ)

module _ (fs : Fs) (S : FileStore) where
  abbrev pub on_files :
      {E A : Type 0} → (E → Status) → Exec fs.State E A → Exec (Node fs S) Status A
  on_files status f n = let (r, files) = f n.files in (map_err status r, record n { files = files })

  abbrev pub on_records :
      {E A : Type 0} → (E → Status) → Exec S.State E A → Exec (Node fs S) Status A
  on_records status f n =
      let (r, records) = f n.records in (map_err status r, record n { records = records })

  -- `command_sender.send`: it fails if the event loop has dropped its end.
  abbrev pub send : Bool → P2pCommand ℕ → Text → Exec (Node fs S) Status Unit
  send open_end command failure n =
      if open_end
      then (ok tt, record n { sent = command ∷ n.sent })
      else (err (internal failure), n)

  -- An early return.
  abbrev pub refuse_if : Bool → Status → Exec (Node fs S) Status Unit
  refuse_if test status n = if test then (err status, n) else (ok tt, n)
