-- ===== src/Download/Scheduler.antt =====
-- `FileDownloadService` of src/app/file_download_service.rs: which downloads have a task. What a
-- task does is in Download.Service; here it starts and it ends.
pub mod Laws
use rust_dfs.Base.{
  ℕ, zero, suc, Bool, true, false, List, [], ◌∷◌, if◌then◌else◌, text_eq, ◌==◌, ◌≡◌,
}
use rust_dfs.Base.{get_elem?, some, Result, ok, err}
use rust_dfs.Domain.{PendingDownloadRecord}
use rust_dfs.Domain.Keys.{PublishedFileKey}
use rust_dfs.Store.Interface.{StoreError}

-- `active_downloads`, and the tasks that were spawned and have not ended.
pub record Downloads : Type 0 where
  pub active : List PublishedFileKey
  pub running : List PendingDownloadRecord

-- `FileDownloadService::new`
unfoldable pub new : Downloads
new = record { active = []; running = [] }

abbrev pub has_key : List PublishedFileKey → PublishedFileKey → Bool
has_key [] k = false
has_key (j ∷ js) k = let rest = has_key js k in if text_eq j.bytes k.bytes then true else rest

-- `remove` of a set of keys.
unfoldable pub remove_key : PublishedFileKey → List PublishedFileKey → List PublishedFileKey
remove_key k [] = []
remove_key k (j ∷ js) =
    let rest = remove_key k js in if text_eq j.bytes k.bytes then js else j ∷ rest

unfoldable pub remove_at {ℓ} : {A : Type ℓ} → ℕ → List A → List A
remove_at i [] = []
remove_at zero (x ∷ xs) = xs
remove_at (suc i) (x ∷ xs) = x ∷ remove_at i xs

-- What is done with an item of the stream: a task is spawned if the key is new in the set.
unfoldable pub take_item : Result StoreError PendingDownloadRecord → Downloads → Downloads
take_item (err e) d = d
take_item (ok r) d =
    if has_key d.active r.key
    then d
    else record { active = r.key ∷ d.active; running = r ∷ d.running }

-- The loop over the stream. `permits` says how many permits are available when they are looked at,
-- for the i-th time.
unfoldable pub take_items :
    (ℕ → ℕ) → ℕ → List (Result StoreError PendingDownloadRecord) → Downloads → Downloads
unfolding take_item
take_items permits i [] d = d
take_items permits i (item ∷ items) d =
    let more = take_items permits (suc i) items (take_item item d) in
    if permits i == 0 then d else more

-- `work_on_pending_downloads`
unfoldable pub work_on_pending_downloads :
    (ℕ → ℕ) → List (Result StoreError PendingDownloadRecord) → Downloads → Downloads
unfolding take_items
work_on_pending_downloads permits items d =
    if permits 0 == 0 then d else take_items permits 1 items d

-- The end of the i-th task, whatever its result: its key leaves the set.
unfoldable pub finish : ℕ → PendingDownloadRecord → Downloads → Downloads
unfolding remove_key remove_at
finish i r d = record { active = remove_key r.key d.active; running = remove_at i d.running }

-- Items are taken, and tasks end at any time, also between two items.
pub data Step : Downloads → Downloads → Type 0 where
  taken :
      (item : Result StoreError PendingDownloadRecord) (d : Downloads) → Step d (take_item item d)
  finished :
      (i : ℕ) (r : PendingDownloadRecord) (d : Downloads)
      → get_elem? d.running i ≡ some r
      → Step d (finish i r d)

pub data Reach (d : Downloads) : Downloads → Type 0 where
  here : Reach d d
  next : {e f : Downloads} → Reach d e → Step e f → Reach d f
