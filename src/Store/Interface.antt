-- ===== src/Store/Interface.antt =====
-- `trait Store` of src/app/file_store/mod.rs: operations over an unknown state, and what the
-- other components rely on.
use rust_dfs.Base.{
  ◌≡◌, ◌≢◌, Bool, true, false, Option, none, some, List, Result, ok, Exec, ℕ, get_elem?,
}
use rust_dfs.Store.Db.{NeverFails}
use rust_dfs.Base.Text.{Text}
use rust_dfs.Domain.{FileMetadata, PublishedFileRecord, PendingDownloadRecord}
use rust_dfs.Domain.Keys.{PublishedFileKey}

-- `FileStoreError`
pub data StoreError : Type 0 where
  rocks_db : Text → StoreError
  cf_missing : Text → StoreError
  cbor : Text → StoreError

pub record FileStore : Type 1 where
  pub State : Type 0
  pub put_published_file : PublishedFileRecord → Exec State StoreError Unit
  pub get_published_file : PublishedFileKey → State → Result StoreError (Option PublishedFileRecord)
  pub published_file_exists : PublishedFileKey → State → Result StoreError Bool
  pub stream_published_files : State → List (Result StoreError PublishedFileRecord)
  pub put_pending_download : PendingDownloadRecord → Exec State StoreError Unit
  pub get_pending_download :
      PublishedFileKey → State → Result StoreError (Option PendingDownloadRecord)
  pub pending_download_exists : PublishedFileKey → State → Result StoreError Bool
  pub delete_pending_download : PublishedFileKey → Exec State StoreError Unit
  pub stream_pending_downloads : State → List (Result StoreError PendingDownloadRecord)
  pub put_file_metadata : FileMetadata → Exec State StoreError Unit
  pub delete_file_metadata : PublishedFileKey → Exec State StoreError Unit
  pub next_file_metadata : State → Result StoreError (Option FileMetadata)

-- What has been put is there, what has been deleted is not, and the three kinds of records do
-- not disturb one another.
pub record IsLawful (S : FileStore) : Type 0 where
  pub published-put :
      (r : PublishedFileRecord) (s : S.State)
      → (S.put_published_file r s).0 ≡ ok tt
      → S.get_published_file r.key (S.put_published_file r s).1 ≡ ok (some r)
  pub published-put_ne :
      (r : PublishedFileRecord) (k : PublishedFileKey) (s : S.State)
      → k ≢ r.key
      → S.get_published_file k (S.put_published_file r s).1 ≡ S.get_published_file k s
  pub pending-put_published :
      (r : PublishedFileRecord) (k : PublishedFileKey) (s : S.State)
      → S.get_pending_download k (S.put_published_file r s).1 ≡ S.get_pending_download k s
  pub pending-put :
      (r : PendingDownloadRecord) (s : S.State)
      → (S.put_pending_download r s).0 ≡ ok tt
      → S.get_pending_download r.key (S.put_pending_download r s).1 ≡ ok (some r)
  pub pending-put_ne :
      (r : PendingDownloadRecord) (k : PublishedFileKey) (s : S.State)
      → k ≢ r.key
      → S.get_pending_download k (S.put_pending_download r s).1 ≡ S.get_pending_download k s
  pub published-put_pending :
      (r : PendingDownloadRecord) (k : PublishedFileKey) (s : S.State)
      → S.get_published_file k (S.put_pending_download r s).1 ≡ S.get_published_file k s
  pub pending-delete :
      (k : PublishedFileKey) (s : S.State)
      → (S.delete_pending_download k s).0 ≡ ok tt
      → S.get_pending_download k (S.delete_pending_download k s).1 ≡ ok none
  pub pending-delete_ne :
      (k j : PublishedFileKey) (s : S.State)
      → j ≢ k
      → S.get_pending_download j (S.delete_pending_download k s).1 ≡ S.get_pending_download j s
  pub published-delete_pending :
      (k j : PublishedFileKey) (s : S.State)
      → S.get_published_file j (S.delete_pending_download k s).1 ≡ S.get_published_file j s
  pub published-delete_metadata :
      (k j : PublishedFileKey) (s : S.State)
      → S.get_published_file j (S.delete_file_metadata k s).1 ≡ S.get_published_file j s
  pub pending-delete_metadata :
      (k j : PublishedFileKey) (s : S.State)
      → S.get_pending_download j (S.delete_file_metadata k s).1 ≡ S.get_pending_download j s
  pub exists_of_published :
      (k : PublishedFileKey) (s : S.State) {r : PublishedFileRecord}
      → S.get_published_file k s ≡ ok (some r)
      → S.published_file_exists k s ≡ ok true
  pub not_exists_of_published :
      (k : PublishedFileKey) (s : S.State)
      → S.get_published_file k s ≡ ok none
      → S.published_file_exists k s ≡ ok false
  pub exists_of_pending :
      (k : PublishedFileKey) (s : S.State) {r : PendingDownloadRecord}
      → S.get_pending_download k s ≡ ok (some r)
      → S.pending_download_exists k s ≡ ok true
  pub not_exists_of_pending :
      (k : PublishedFileKey) (s : S.State)
      → S.get_pending_download k s ≡ ok none
      → S.pending_download_exists k s ≡ ok false
  -- a job that was put keeps the event loop from waiting
  pub job-put :
      (m : FileMetadata) (s : S.State)
      → (S.put_file_metadata m s).0 ≡ ok tt
      → S.next_file_metadata (S.put_file_metadata m s).1 ≢ ok none
  -- a stream that meets no error comes to every record
  pub published-stream :
      (k : PublishedFileKey) (s : S.State) (r : PublishedFileRecord)
      → NeverFails (S.stream_published_files s)
      → S.get_published_file k s ≡ ok (some r)
      → (j : ℕ) × (get_elem? (S.stream_published_files s) j ≡ some (ok r))
  pub pending-stream :
      (k : PublishedFileKey) (s : S.State) (r : PendingDownloadRecord)
      → NeverFails (S.stream_pending_downloads s)
      → S.get_pending_download k s ≡ ok (some r)
      → (j : ℕ) × (get_elem? (S.stream_pending_downloads s) j ≡ some (ok r))
