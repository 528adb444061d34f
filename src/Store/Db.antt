-- ===== src/Store/Db.antt =====
-- The crate rocksdb: the calls that the store makes, and their documented behaviour.
use rust_dfs.Base.{
  ◌≡◌, ◌≢◌, ◌⊎◌, Bool, true, Option, none, some, List, [], Result, ok, err, Exec, ℕ, get_elem?,
}
use rust_dfs.Base.Text.{Bytes, Text}
use rust_dfs.Base.Paths.{PathBuf}

pub record Db : Type 1 where
  pub State : Type 0
  -- `DB::open_cf_descriptors`, which creates what is missing
  pub open_cf_descriptors : PathBuf → List Text → Result Text State
  -- `cf_handle`: is the column family open?
  pub cf_handle : Text → State → Bool
  pub put_cf : Text → Bytes → Bytes → Exec State Text Unit
  pub delete_cf : Text → Bytes → Exec State Text Unit
  pub get_cf : Text → Bytes → State → Result Text (Option Bytes)
  pub key_may_exist_cf : Text → Bytes → State → Bool
  -- `iterator_cf` from the start
  pub iterator_cf : Text → State → List (Result Text (Bytes × Bytes))

-- No item of the list is an error.
abbrev pub NeverFails : {E A : Type 0} → List (Result E A) → Type 0
NeverFails {E} items = (j : ℕ) (e : E) → get_elem? items j ≢ some (err e)

abbrev pub Other : Text → Bytes → Text → Bytes → Type 0
Other cf k cf' k' = (cf ≢ cf') ⊎ (k ≢ k')

pub record IsLawful (db : Db) : Type 0 where
  pub handle-put :
      (cf cf' : Text) (k v : Bytes) (s : db.State)
      → db.cf_handle cf' (db.put_cf cf k v s).1 ≡ db.cf_handle cf' s
  pub handle-delete :
      (cf cf' : Text) (k : Bytes) (s : db.State)
      → db.cf_handle cf' (db.delete_cf cf k s).1 ≡ db.cf_handle cf' s
  pub get-put :
      (cf : Text) (k v : Bytes) (s : db.State)
      → (db.put_cf cf k v s).0 ≡ ok tt
      → db.get_cf cf k (db.put_cf cf k v s).1 ≡ ok (some v)
  pub get-put_other :
      (cf : Text) (k v : Bytes) (cf' : Text) (k' : Bytes) (s : db.State)
      → Other cf k cf' k'
      → db.get_cf cf' k' (db.put_cf cf k v s).1 ≡ db.get_cf cf' k' s
  pub get-delete :
      (cf : Text) (k : Bytes) (s : db.State)
      → (db.delete_cf cf k s).0 ≡ ok tt
      → db.get_cf cf k (db.delete_cf cf k s).1 ≡ ok none
  pub get-delete_other :
      (cf : Text) (k : Bytes) (cf' : Text) (k' : Bytes) (s : db.State)
      → Other cf k cf' k'
      → db.get_cf cf' k' (db.delete_cf cf k s).1 ≡ db.get_cf cf' k' s
  -- the filter has no false negatives
  pub may_exist :
      (cf : Text) (k v : Bytes) (s : db.State)
      → db.get_cf cf k s ≡ ok (some v)
      → db.key_may_exist_cf cf k s ≡ true
  -- an iterator without entries has seen an empty column family
  pub iterator-nil :
      (cf : Text) (k : Bytes) (s : db.State) → db.iterator_cf cf s ≡ [] → db.get_cf cf k s ≡ ok none
  -- an iterator that meets no error comes to every entry
  pub iterator_of_get :
      (cf : Text) (k v : Bytes) (s : db.State)
      → NeverFails (db.iterator_cf cf s)
      → db.get_cf cf k s ≡ ok (some v)
      → (j : ℕ) × (get_elem? (db.iterator_cf cf s) j ≡ some (ok (k, v)))
