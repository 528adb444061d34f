-- ===== src/Store/Rocksdb.antt =====
-- `RocksDBStore` of src/app/file_store/rocksdb.rs. Its calls run in `spawn_blocking`; that such a
-- task is cancelled or panics is not modelled.
mod Streams
pub mod Laws
use rust_dfs.Base.{◌≡◌, Bool, true, false, Option, none, some, List, [], ◌∷◌, map}
use rust_dfs.Base.{Result, ok, err, map_err, Exec, query, lift, wrap_err, ◌>>=◌, ◌>>◌}
use rust_dfs.Base.{if◌then◌else◌}
use rust_dfs.Base.Text.{Bytes, Text, text}
use rust_dfs.Base.Paths.{PathBuf}
use rust_dfs.Domain.{FileMetadata, PublishedFileRecord, PendingDownloadRecord, Sha256Hasher, key}
use rust_dfs.Domain.Keys.{PublishedFileKey}
use rust_dfs.Store.Interface.{FileStore, StoreError, rocks_db, cf_missing, cbor}
use rust_dfs.Store.Codec.{Cbor, Codecs}
use rust_dfs.Store.Db.{Db}

-- `PUBLISHED_FILES_COLUMN_FAMILY_NAME`
abbrev pub published_files : Text
published_files = text "published_files"

-- `PENDING_DOWNLOADS_COLUMN_FAMILY_NAME`
abbrev pub pending_downloads : Text
pending_downloads = text "pending_downloads"

-- `FILE_METADATA_COLUMN_FAMILY_NAME`
abbrev pub jobs : Text
jobs = text "jobs"

-- `Persistable`: the key under which a record is stored, and its bytes.
pub record Persistable (R : Type 0) : Type 0 where
  pub record_key : R → PublishedFileKey
  pub codec : Cbor R

-- `TryInto<(PublishedFileKey, Vec<u8>)>`
abbrev pub try_into : {R : Type 0} → Persistable R → R → Result Text (PublishedFileKey × Bytes)
try_into p r = elim (p.codec.to_vec r) [ ok bytes ↦ ok (p.record_key r, bytes) | err e ↦ err e ]

module _ (db : Db) where
  -- `RocksDBStore::new`
  unfoldable pub new : PathBuf → Result StoreError db.State
  new path =
      map_err rocks_db
        (db.open_cf_descriptors path (published_files ∷ jobs ∷ pending_downloads ∷ []))

  -- `get_cf`: the column family has to be open.
  unfoldable pub get_cf : Text → db.State → Result StoreError Unit
  get_cf cf s = if db.cf_handle cf s then ok tt else err (cf_missing cf)

  unfoldable pub put : {R : Type 0} → Persistable R → R → Text → Exec db.State StoreError Unit
  unfolding get_cf
  put p r cf = do
    (k, value) ← lift (map_err cbor (try_into p r))
    query (get_cf cf)
    wrap_err rocks_db (db.put_cf cf k.bytes value)

  -- A stored value, decoded.
  abbrev pub decode_found :
      {R : Type 0} → Persistable R → Option Bytes → Result StoreError (Option R)
  decode_found p none = ok none
  decode_found p (some bytes) = elim (p.codec.from_slice bytes) [
    | ok r ↦ ok (some r)
    | err e ↦ err (cbor e)
  ]

  abbrev and_then :
      {A B : Type 0} → Result StoreError A → (A → Result StoreError B) → Result StoreError B
  and_then (ok a) f = f a
  and_then (err e) f = err e

  unfoldable pub get :
      {R : Type 0}
      → Persistable R
      → PublishedFileKey
      → Text
      → db.State
      → Result StoreError (Option R)
  unfolding get_cf
  get p k cf s =
      and_then (get_cf cf s)
        λ _. and_then (map_err rocks_db (db.get_cf cf k.bytes s)) (decode_found p)

  unfoldable pub delete : PublishedFileKey → Text → Exec db.State StoreError Unit
  unfolding get_cf
  delete k cf = do query (get_cf cf); wrap_err rocks_db (db.delete_cf cf k.bytes)

  abbrev is_some : {A : Type 0} → Option A → Bool
  is_some none = false
  is_some (some a) = true

  unfoldable pub exists : PublishedFileKey → Text → db.State → Result StoreError Bool
  unfolding get_cf
  exists k cf s = and_then (get_cf cf s) λ _.
      if db.key_may_exist_cf cf k.bytes s
      then and_then (map_err rocks_db (db.get_cf cf k.bytes s)) (λ found. ok (is_some found))
      else ok false

  abbrev pub decode_item :
      {R : Type 0} → Persistable R → Result Text (Bytes × Bytes) → Result StoreError R
  decode_item p (ok (_, value)) = map_err cbor (p.codec.from_slice value)
  decode_item p (err e) = err (rocks_db e)

  -- What the receiver of the channel reads, as long as it is not dropped.
  unfoldable pub stream_all :
      {R : Type 0} → Persistable R → Text → db.State → List (Result StoreError R)
  unfolding get_cf
  stream_all p cf s = elim (get_cf cf s) [
    | err e ↦ err e ∷ []
    | ok _ ↦ map (decode_item p) (db.iterator_cf cf s)
  ]

  abbrev decode_first :
      {R : Type 0}
      → Persistable R
      → List (Result Text (Bytes × Bytes))
      → Result StoreError (Option R)
  decode_first p [] = ok none
  decode_first p (ok (_, value) ∷ items) = elim (p.codec.from_slice value) [
    | ok r ↦ ok (some r)
    | err e ↦ err (cbor e)
  ]
  decode_first p (err e ∷ items) = err (rocks_db e)

  -- One round of the loop of `get_next_file_metadata`.
  unfoldable pub poll :
      Persistable FileMetadata → db.State → Result StoreError (Option FileMetadata)
  unfolding get_cf
  poll p s = and_then (get_cf jobs s) (λ _. decode_first p (db.iterator_cf jobs s))

  -- `get_next_file_metadata`: the states are those of the rounds, one a second; `none` means that
  -- it still waits.
  unfoldable pub get_next_file_metadata :
      Persistable FileMetadata → List db.State → Option (Result StoreError FileMetadata)
  unfolding poll
  get_next_file_metadata p [] = none
  get_next_file_metadata p (s ∷ later) = elim (poll p s) [
    | ok none ↦ get_next_file_metadata p later
    | ok (some m) ↦ some (ok m)
    | err e ↦ some (err e)
  ]

abbrev pub metadata_job : Sha256Hasher → Codecs → Persistable FileMetadata
metadata_job h c = record { record_key = key h; codec = c.metadata }

abbrev pub published_entry : Codecs → Persistable PublishedFileRecord
published_entry c = record { record_key = λ r. r.key; codec = c.published }

abbrev pub pending_entry : Codecs → Persistable PendingDownloadRecord
pending_entry c = record { record_key = λ r. r.key; codec = c.pending }

-- `impl Store for RocksDBStore`
unfoldable pub rocksdb_store : Sha256Hasher → Codecs → Db → FileStore
unfolding put get delete exists stream_all poll
rocksdb_store h c db = record {
  State = db.State;
  put_published_file = λ r. put db (published_entry c) r published_files;
  get_published_file = λ k. get db (published_entry c) k published_files;
  published_file_exists = λ k. exists db k published_files;
  stream_published_files = stream_all db (published_entry c) published_files;
  put_pending_download = λ r. put db (pending_entry c) r pending_downloads;
  get_pending_download = λ k. get db (pending_entry c) k pending_downloads;
  pending_download_exists = λ k. exists db k pending_downloads;
  delete_pending_download = λ k. delete db k pending_downloads;
  stream_pending_downloads = stream_all db (pending_entry c) pending_downloads;
  put_file_metadata = λ m. put db (metadata_job h c) m jobs;
  delete_file_metadata = λ k. delete db k jobs;
  next_file_metadata = poll db (metadata_job h c);
}
