-- ===== src/Events/Publishing/Keeps.antt =====
-- What a publication (`file_publish` of src/app/p2p/events.rs) does to the log: it only announces.
use rust_dfs.Base.{ℕ, zero, suc, ◌≡◌, subst, some, arith, inl, inr, Option-cases}
use rust_dfs.Base.{Result, ok, err, continue_keeps}
use rust_dfs.Base.Text.{Bytes, Text}
use rust_dfs.Domain.{FileMetadata, FileChunkRequest, Sha256Hasher, key, published_record}
use rust_dfs.Domain.Keys.{to_u64}
use rust_dfs.Store.Codec.{Codecs}
use rust_dfs.Store.Interface.{FileStore, StoreError}
use rust_dfs.Events.State.{Effect, put_record, start_providing, Net, World, did}
use rust_dfs.Events.Commands.{
  put_then_provide, announce_metadata, announce_file_chunk, announce_chunks, provide_all,
}
use rust_dfs.Events.Publishing.{Node, retry, file_publish, provide_all_published_files}
use rust_dfs.Processing.Fs.{Fs}
use rust_dfs.Processing.Publish.{metadata_file_name}
use rust_dfs.Base.Paths.{join}
use rust_dfs.Base.{List, [], ◌∷◌, Result-cases}
use rust_dfs.Domain.{PublishedFileRecord}
use rust_dfs.Events.Publishing.Laws.{retry-keeps}

pub data IsAnnouncement : Effect → Type 0 where
  put : (k value : Bytes) → IsAnnouncement (put_record k value)
  provided : (k : Bytes) → IsAnnouncement (start_providing k)

module _ (net : Net) (h : Sha256Hasher) (c : Codecs) (P : World → Type 0)
    (keep : (e : Effect) (w : World) → IsAnnouncement e → P w → P (did e w)) where
  put_then_provide-keeps :
      (k value : Bytes) (w : World) → P w → P (put_then_provide net k value w).1
  put_then_provide-keeps k value w p =
      continue_keeps P _ _ (keep _ w (put k value) p) (λ _ v q. keep _ v (provided k) q)

  announce_metadata-keeps :
      (m : FileMetadata) (w : World) → P w → P (announce_metadata net h c m w).1
  unfolding announce_metadata
  announce_metadata-keeps m w p =
      continue_keeps P _ _ p (λ value v q. put_then_provide-keeps (key h m).bytes value v q)

  announce_chunk-keeps :
      (q : FileChunkRequest) (w : World) → P w → P (announce_file_chunk net h c q w).1
  unfolding announce_file_chunk
  announce_chunk-keeps q w p =
      continue_keeps P _ _ p (λ value v r. put_then_provide-keeps value value v r)

  pub announce_chunks-keeps :
      (id left i : ℕ) (w : World) → P w → P (announce_chunks net h c id left i w).1
  unfolding announce_chunks
  announce_chunks-keeps id zero i w p = p
  announce_chunks-keeps id (suc left) i w p =
      continue_keeps P _ _ (announce_chunk-keeps (record { file_id = id; chunk_id = i }) w p)
        (λ _ v q. announce_chunks-keeps id left (suc i) v q)

  provide_all-keeps : (m : FileMetadata) (w : World) → P w → P (provide_all net h c m w).1
  unfolding provide_all
  provide_all-keeps m w p =
      continue_keeps P _ _ (announce_metadata-keeps m w p)
        (λ _ v q. announce_chunks-keeps (to_u64 (key h m)) m.total_chunks 0 v q)

  -- What announcements keep, a publication keeps, however often its calls are repeated.
  pub file_publish-keeps :
      (S : FileStore) (rounds : ℕ) (result : Result StoreError FileMetadata) (n n' : Node net h c S)
      → file_publish net h c S rounds result n ≡ some n'
      → P n.world
      → P n'.world
  unfolding file_publish
  file_publish-keeps S rounds (err e) n n' done p = subst P (ground (arith, done)) p
  file_publish-keeps S rounds (ok m) n n' done p =
      elim (Option-cases (retry rounds (provide_all net h c m) n.world)) [
        | inl never ↦ absurd (ground (arith, never))
        | inr (w, announced) ↦
            let q : P w =
              retry-keeps P rounds (provide_all net h c m) n.world w (provide_all-keeps m) announced
                p in
            elim (Option-cases
              (retry rounds (S.put_published_file (published_record h m)) n.records)) [
                | inl never ↦ absurd (ground (arith, announced, never))
                | inr (s, stored) ↦
                    elim (Option-cases (retry rounds (S.delete_file_metadata (key h m)) s)) [
                      | inl never ↦ absurd (ground (arith, announced, stored, never))
                      | inr (s', gone) ↦ subst P (ground (arith, announced, stored, gone, done)) q
                    ]
              ]
      ]

  pub provide_all_published_files-keeps :
      (S : FileStore) (fs : Fs) (files : fs.State) (store_error : StoreError → Text)
      (stream : List (Result StoreError PublishedFileRecord)) (w : World)
      → P w
      → P (provide_all_published_files net h c S fs files store_error stream w).1
  unfolding provide_all_published_files
  provide_all_published_files-keeps S fs files show [] w p = p
  provide_all_published_files-keeps S fs files show (err e ∷ rest) w p = p
  provide_all_published_files-keeps S fs files show (ok r ∷ rest) w p =
      elim (Result-cases (fs.read (join r.chunks_dir metadata_file_name) files)) [
        | inr (_, gone) ↦
            rw (gone, provide_all_published_files)
              (provide_all_published_files-keeps S fs files show rest w p)
        | inl (raw, there) ↦ elim (Result-cases (c.metadata.from_slice raw)) [
          | inr (_, bad) ↦ rw (there, provide_all_published_files, bad) p
          | inl (m, decoded) ↦
              let q : P (provide_all net h c m w).1 = provide_all-keeps m w p in
              elim (Result-cases (provide_all net h c m w).0) [
                | inr (_, bad) ↦ rw (there, provide_all_published_files, decoded, bad) q
                | inl (_, done) ↦
                    rw (there, provide_all_published_files, decoded, done)
                      (provide_all_published_files-keeps S fs files show rest _ q)
              ]
        ]
      ]
