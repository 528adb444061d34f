-- ===== src/Store/Rocksdb/Laws.antt =====
-- What the generic operations of `RocksDBStore` do (src/app/file_store/rocksdb.rs), from the
-- documented behaviour of the database and of the encoding.
use rust_dfs.Base.{◌≡◌, ◌≢◌, refl, ap, true, false, none, some, List, [], ◌∷◌}
use rust_dfs.Base.{
  sym, text_ne, ◌++◌, All, inl, inr, Result-cases, Bool-cases, List-cases, ok, err, arith,
}
use rust_dfs.Base.Text.{Text}
use rust_dfs.Domain.{FileMetadata}
use rust_dfs.Domain.Keys.{PublishedFileKey}
use rust_dfs.Store.Interface.{FileStore, StoreError, rocks_db, cf_missing, cbor}
use rust_dfs.Store.Interface
use rust_dfs.Store.Codec.{Cbor, Codecs, ReadsBack}
use rust_dfs.Store.Codec
use rust_dfs.Store.Db.{Db, Other, NeverFails}
use rust_dfs.Store.Db
use rust_dfs.Domain.{Sha256Hasher, key}
use rust_dfs.Store.Rocksdb.{
  Persistable, put, get, delete, exists, poll, get_next_file_metadata, published_files,
  pending_downloads, jobs, rocksdb_store, published_entry, pending_entry, metadata_job,
}
use rust_dfs.Store.Rocksdb.Streams.{stream_of_get}

module _ (db : Db) (L : Db.IsLawful db) {R : Type 0} (p : Persistable R) where
  -- A record that was written is found under its own key.
  pub get-put :
      ReadsBack p.codec
      → (r : R) (cf : Text) (s : db.State) → (put db p r cf s).0 ≡ ok tt
      → get db p (p.record_key r) cf (put db p r cf s).1 ≡ ok (some r)
  unfolding put get
  get-put back r cf s h = elim (Result-cases (p.codec.to_vec r)) [
    | inl (b, e) ↦ ground (
      arith,
      back.reads_back r e,
      L.handle-put cf cf (p.record_key r).bytes b s,
      L.get-put cf (p.record_key r).bytes b s,
    )
    | inr (_, e) ↦ ground arith
  ]

  -- What else is stored stays: other keys, and all keys of other column families.
  pub get-put-Other :
      {Q : Type 0} (q : Persistable Q) (r : R) (cf cf' : Text) (k : PublishedFileKey) (s : db.State)
      → Other cf (p.record_key r).bytes cf' k.bytes
      → get db q k cf' (put db p r cf s).1 ≡ get db q k cf' s
  unfolding put get
  get-put-Other q r cf cf' k s other = elim (Result-cases (p.codec.to_vec r)) [
    | inl (b, e) ↦ ground (
      arith,
      L.handle-put cf cf' (p.record_key r).bytes b s,
      L.get-put_other cf (p.record_key r).bytes b cf' k.bytes s other,
    )
    | inr (_, e) ↦ ground arith
  ]

module _ (db : Db) (L : Db.IsLawful db) {R : Type 0} (p : Persistable R) where
  pub get-delete :
      (k : PublishedFileKey) (cf : Text) (s : db.State)
      → (delete db k cf s).0 ≡ ok tt
      → get db p k cf (delete db k cf s).1 ≡ ok none
  unfolding delete get
  get-delete k cf s h = ground (arith, L.handle-delete cf cf k.bytes s, L.get-delete cf k.bytes s)

  pub get-delete-Other :
      (k j : PublishedFileKey) (cf cf' : Text) (s : db.State)
      → Other cf k.bytes cf' j.bytes
      → get db p j cf' (delete db k cf s).1 ≡ get db p j cf' s
  unfolding delete get
  get-delete-Other k j cf cf' s other =
      ground
        (arith, L.handle-delete cf cf' k.bytes s, L.get-delete_other cf k.bytes cf' j.bytes s other)

  pub exists_of_get :
      (k : PublishedFileKey) (cf : Text) (s : db.State) {r : R}
      → get db p k cf s ≡ ok (some r)
      → exists db k cf s ≡ ok true
  unfolding get exists
  exists_of_get k cf s h = elim (Result-cases (db.get_cf cf k.bytes s)) [
    | inl (none, e) ↦ ground arith
    | inl (some v, e) ↦ ground (arith, L.may_exist cf k.bytes v s e)
    | inr (_, e) ↦ ground arith
  ]

  pub not_exists_of_get :
      (k : PublishedFileKey) (cf : Text) (s : db.State)
      → get db p k cf s ≡ ok none
      → exists db k cf s ≡ ok false
  unfolding get exists
  not_exists_of_get k cf s h = ground arith

key_ne : (k j : PublishedFileKey) → k ≢ j → j.bytes ≢ k.bytes
key_ne k j h e = h (ap (λ bs. record { bytes = bs }) (sym e))

-- A job that is stored keeps the wait from going on.
pub poll_of_get :
    (db : Db) (L : Db.IsLawful db) (p : Persistable FileMetadata) (k : PublishedFileKey)
    (s : db.State) (m : FileMetadata)
    → get db p k jobs s ≡ ok (some m)
    → poll db p s ≢ ok none
unfolding get poll
poll_of_get db L p k s m h e = elim (Bool-cases (db.cf_handle jobs s)) [
  | inr closed ↦ ground (arith, closed)
  | inl open_cf ↦ elim (List-cases (db.iterator_cf jobs s)) [
    | inl empty ↦ ground (arith, open_cf, L.iterator-nil jobs k.bytes s empty)
    | inr (err _, rest, some_item) ↦ ground (arith, open_cf, some_item)
    | inr (ok (j, value), rest, some_item) ↦ elim (Result-cases (p.codec.from_slice value)) [
      | inl (_, good) ↦ ground (arith, open_cf, some_item, good)
      | inr (_, bad) ↦ ground (arith, open_cf, some_item, bad)
    ]
  ]
]

pub rocksdb_store-IsLawful :
    (h : Sha256Hasher) (c : Codecs) (db : Db)
    → Codec.IsLawful c
    → Db.IsLawful db
    → Interface.IsLawful (rocksdb_store h c db)
unfolding rocksdb_store
rocksdb_store-IsLawful h c db C L = record {
  published-put = λ r s. get-put db L (published_entry c) C.published r published_files s;
  published-put_ne = λ r k s n.
      get-put-Other db L (published_entry c) (published_entry c) r _ _ k s (inr (key_ne k r.key n));
  pending-put_published = λ r k s.
      get-put-Other db L (published_entry c) (pending_entry c) r _ _ k s
        (inl (text_ne published_files pending_downloads refl));
  pending-put = λ r s. get-put db L (pending_entry c) C.pending r pending_downloads s;
  pending-put_ne = λ r k s n.
      get-put-Other db L (pending_entry c) (pending_entry c) r _ _ k s (inr (key_ne k r.key n));
  published-put_pending = λ r k s.
      get-put-Other db L (pending_entry c) (published_entry c) r _ _ k s
        (inl (text_ne pending_downloads published_files refl));
  pending-delete = λ k s. get-delete db L (pending_entry c) k pending_downloads s;
  pending-delete_ne =
      λ k j s n. get-delete-Other db L (pending_entry c) k j _ _ s (inr (key_ne j k n));
  published-delete_pending = λ k j s.
      get-delete-Other db L (published_entry c) k j _ _ s
        (inl (text_ne pending_downloads published_files refl));
  published-delete_metadata = λ k j s.
      get-delete-Other db L (published_entry c) k j _ _ s (inl (text_ne jobs published_files refl));
  pending-delete_metadata = λ k j s.
      get-delete-Other db L (pending_entry c) k j _ _ s (inl (text_ne jobs pending_downloads refl));
  exists_of_published = λ k s e. exists_of_get db L (published_entry c) k published_files s e;
  not_exists_of_published =
      λ k s e. not_exists_of_get db L (published_entry c) k published_files s e;
  exists_of_pending = λ k s e. exists_of_get db L (pending_entry c) k pending_downloads s e;
  not_exists_of_pending = λ k s e. not_exists_of_get db L (pending_entry c) k pending_downloads s e;
  job-put = λ m s stored.
      poll_of_get db L (metadata_job h c) (key h m) _ m
        (get-put db L (metadata_job h c) C.metadata m jobs s stored);
  published-stream = λ k s r. stream_of_get db L (published_entry c) k published_files s r;
  pending-stream = λ k s r. stream_of_get db L (pending_entry c) k pending_downloads s r;
}

module _ (db : Db) (p : Persistable FileMetadata) where
  -- The wait passes over any number of polls that find no job.
  get_next-waits :
      (empty later : List db.State)
      → All (λ s. poll db p s ≡ ok none) empty
      → get_next_file_metadata db p (empty ++ later) ≡ get_next_file_metadata db p later
  unfolding get_next_file_metadata
  get_next-waits [] later h = refl
  get_next-waits (s ∷ empty) later h =
      rw (h.0, get_next_file_metadata) (get_next-waits empty later h.1)

  -- Polls that find no job are passed over, and the first poll that finds one ends the wait with
  -- it, whatever is stored later.
  pub get_next-finds :
      (empty : List db.State) (s : db.State) (later : List db.State) (m : FileMetadata)
      → All (λ t. poll db p t ≡ ok none) empty
      → poll db p s ≡ ok (some m)
      → get_next_file_metadata db p (empty ++ s ∷ later) ≡ some (ok m)
  unfolding get_next_file_metadata
  get_next-finds empty s later m h e = rw (get_next-waits empty (s ∷ later) h) (ground arith)

  -- Polls that find no job are passed over, and the first poll that fails ends the wait with its
  -- error.
  pub get_next-fails :
      (empty : List db.State) (s : db.State) (later : List db.State) (e : StoreError)
      → All (λ t. poll db p t ≡ ok none) empty
      → poll db p s ≡ err e
      → get_next_file_metadata db p (empty ++ s ∷ later) ≡ some (err e)
  unfolding get_next_file_metadata
  get_next-fails empty s later e h failed = rw (get_next-waits empty (s ∷ later) h) (ground arith)
