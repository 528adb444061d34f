-- ===== src/Events/Publishing.antt =====
-- `file_publish` of src/app/p2p/events.rs: the jobs that `process_file` has queued become published
-- files. Also `provide_all_published_files`.
pub mod Laws
pub mod Keeps
pub mod Announced
pub mod AllAnnounced
use rust_dfs.Base.{ℕ, zero, suc, Bool, true, false, Option, none, some, List, [], ◌∷◌}
use rust_dfs.Base.{Result, ok, err, Exec}
use rust_dfs.Base.Text.{Bytes, Text}
use rust_dfs.Base.Paths.{join}
use rust_dfs.Domain.{FileMetadata, PublishedFileRecord, Sha256Hasher, key, published_record}
use rust_dfs.Domain.Keys.{PublishedFileKey}
use rust_dfs.Store.Codec.{Codecs}
use rust_dfs.Store.Interface.{FileStore, StoreError}
use rust_dfs.Processing.Fs.{Fs}
use rust_dfs.Processing.Publish.{metadata_file_name}
use rust_dfs.Events.State.{Net, World}
use rust_dfs.Events.Commands.{provide_all}

-- A loop that repeats a call until it succeeds, with a second between two calls. `none` means
-- that `rounds` calls have failed.
unfoldable pub retry {ℓ} : {S : Type ℓ} {E : Type ℓ} {A : Type ℓ} → ℕ → Exec S E A → S → Option S
retry zero m s = none
retry (suc rounds) m s = let (r, s') = m s in elim r [ ok _ ↦ some s' | err _ ↦ retry rounds m s' ]

module _ (net : Net) (h : Sha256Hasher) (c : Codecs) (S : FileStore) where
  -- The state that publishing works on.
  pub record Node : Type 0 where
    pub world : World
    pub records : S.State

  abbrev on_world : Node → Option World → Option Node
  on_world n none = none
  on_world n (some w) = some (record n { world = w })

  abbrev on_records : Node → Option S.State → Option Node
  on_records n none = none
  on_records n (some s) = some (record n { records = s })

  abbrev and_then : Option Node → (Node → Option Node) → Option Node
  and_then none f = none
  and_then (some n) f = f n

  -- The three steps of a publication, each repeated until it succeeds.
  unfoldable pub announce : ℕ → FileMetadata → Node → Option Node
  announce rounds m n = on_world n (retry rounds (provide_all net h c m) n.world)

  -- `add_published_file`
  unfoldable pub add_published_file : ℕ → FileMetadata → Node → Option Node
  add_published_file rounds m n =
      on_records n (retry rounds (S.put_published_file (published_record h m)) n.records)

  -- `delete_file_metadata`
  unfoldable pub delete_file_metadata : ℕ → PublishedFileKey → Node → Option Node
  delete_file_metadata rounds k n = on_records n (retry rounds (S.delete_file_metadata k) n.records)

  -- `file_publish`; `none` means that it still repeats a step after `rounds` calls of it. The job is
  -- deleted last.
  unfoldable pub file_publish : ℕ → Result StoreError FileMetadata → Node → Option Node
  unfolding announce add_published_file delete_file_metadata
  file_publish rounds (err e) n = some n
  file_publish rounds (ok m) n =
      and_then (announce rounds m n)
        λ n₁. and_then (add_published_file rounds m n₁) (delete_file_metadata rounds (key h m))

  module _ (fs : Fs) (files : fs.State) (store_error : StoreError → Text) where
    -- `provide_all_published_files`: a metadata file that cannot be read is passed over, all other
    -- errors end the loop.
    unfoldable pub provide_all_published_files :
        List (Result StoreError PublishedFileRecord) → World → Result Text Unit × World
    provide_all_published_files [] w = (ok tt, w)
    provide_all_published_files (err e ∷ rest) w = (err (store_error e), w)
    provide_all_published_files (ok r ∷ rest) w =
        elim (fs.read (join r.chunks_dir metadata_file_name) files) [
          | err e ↦ provide_all_published_files rest w
          | ok raw ↦ elim (c.metadata.from_slice raw) [
            | err e ↦ (err e, w)
            | ok m ↦
                let (done, w') = provide_all net h c m w in
                elim done [ err e ↦ (err e, w') | ok _ ↦ provide_all_published_files rest w' ]
          ]
        ]
