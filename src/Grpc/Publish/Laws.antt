-- ===== src/Grpc/Publish/Laws.antt =====
-- What `publish_file` of src/app/grpc/server.rs leaves for the event loop.
use rust_dfs.Base.{ℕ, ◌≡◌, ◌≢◌, refl, ap, ◌∙◌, Bool, arith, inl, inr, none, ok, Result-cases}
use rust_dfs.Base.Text.{Text}
use rust_dfs.Domain.{FileMetadata, Sha256Hasher, key}
use rust_dfs.Domain.Keys.{to_u64, from_u64, from_u64-to_u64, from_u64-IsKey}
use rust_dfs.Store.Codec.{Cbor}
use rust_dfs.Store.Interface.{FileStore}
use rust_dfs.Store.Interface
use rust_dfs.Processing.Fs.{Fs}
use rust_dfs.Processing.Merkle.{Merkle}
use rust_dfs.Processing.Publish.{process_file}
use rust_dfs.Grpc.State.{Display, Node}
use rust_dfs.Grpc.Publish.{publish_file}

module _ (fs : Fs) (S : FileStore) (L : Interface.IsLawful S) (h : Sha256Hasher)
    (codec : Cbor FileMetadata) (M : Merkle) (show : Display) where
  from_u64-key : (m : FileMetadata) → from_u64 (to_u64 (key h m)) ≡ key h m
  unfolding key
  from_u64-key m = from_u64-to_u64 (key h m) (unfold from_u64 in from_u64-IsKey (h.finish _))

  -- A publication that was accepted has stored, over a lawful store, a job with the metadata that
  -- `process_file` returned: the wait for a job no longer goes on, and the id that the client got
  -- stands for the key of that metadata.
  pub publish_file-queues :
      (rounds : ℕ) (path : Text) (public : Bool) (n : Node fs S) (id : ℕ)
      → (publish_file fs S h codec M show rounds path public n).0 ≡ ok id
      → (m : FileMetadata) × ((process_file fs codec M rounds path public n.files).0 ≡ ok m)
        × ((publish_file fs S h codec M show rounds path public n).1.records
            ≡ (S.put_file_metadata m n.records).1)
        × (S.next_file_metadata (publish_file fs S h codec M show rounds path public n).1.records
            ≢ ok none)
        × (from_u64 id ≡ key h m)
  unfolding publish_file
  publish_file-queues rounds path public n id e =
      elim (Result-cases (process_file fs codec M rounds path public n.files).0) [
        | inr (_, bad) ↦ absurd (ground (arith, bad))
        | inl (m, made) ↦ elim (Result-cases (S.put_file_metadata m n.records).0) [
          | inr (_, bad) ↦ absurd (ground (arith, made, bad))
          | inl (_, stored) ↦
              let same : id ≡ to_u64 (key h m) = ground (arith, made, stored) in
              (
                m,
                made,
                rw (made, stored) refl,
                rw (made, stored) (L.job-put m n.records stored),
                ap from_u64 same ∙ from_u64-key m,
              )
        ]
      ]
