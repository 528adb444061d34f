-- ===== src/Events/Publishing/Announced.antt =====
-- What `provide_all`, `file_publish` and `provide_all_published_files` of src/app/p2p/events.rs have
-- told the network when they end.
use rust_dfs.Base.{ℕ, zero, suc, ◌+◌, ◌≤◌, ◌<◌, ◌≡◌, sym, ap, subst, ◌∙◌, ◌∷◌, arith, inl, inr}
use rust_dfs.Base.{Result, ok, Result-cases, continue-ok}
use native.Mathlib.Decide.{dec_lt}
use rust_dfs.Base.Text.{Bytes, Text}
use rust_dfs.Domain.{FileMetadata, PublishedFile, Sha256Hasher, key}
use rust_dfs.Domain.Keys.{to_u64}
use rust_dfs.Store.Codec.{Codecs}
use rust_dfs.Store.Interface.{StoreError}
use rust_dfs.Store.Interface
use rust_dfs.Events.State.{Effect, put_record, start_providing, Net, World, did}
use rust_dfs.Events.Log.{IsLogged, now, before}
use rust_dfs.Events.Commands.{
  put_then_provide, announce_metadata, announce_file_chunk, announce_chunks, provide_all,
}
use rust_dfs.Events.Publishing.Keeps.{announce_chunks-keeps}

-- The record is in the network, and this node provides it.
pub record IsProvided (k value : Bytes) (w : World) : Type 0 where
  pub put : IsLogged (put_record k value) w.log
  pub provided : IsLogged (start_providing k) w.log

did-IsProvided :
    (k value : Bytes) (e : Effect) (w : World) → IsProvided k value w → IsProvided k value (did e w)
did-IsProvided k value e w p = record { put = before p.put; provided = before p.provided }

module _ (net : Net) (h : Sha256Hasher) (c : Codecs) where
  put_then_provide-IsProvided :
      (k value : Bytes) (w : World)
      → (put_then_provide net k value w).0 ≡ ok tt
      → IsProvided k value (put_then_provide net k value w).1
  put_then_provide-IsProvided k value w e =
      elim (Result-cases (net.put_result (put_record k value ∷ w.log))) [
        | inr (_, bad) ↦ absurd (ground (arith, bad))
        | inl (_, done) ↦ rw done (record { put = before now; provided = now })
      ]

  -- The chunk is known under the bytes of its request.
  pub record IsChunkAnnounced (file_id i : ℕ) (w : World) : Type 0 where
    pub bytes : Bytes
    pub encoded : c.chunk_request.to_vec (record { file_id = file_id; chunk_id = i }) ≡ ok bytes
    pub provided : IsProvided bytes bytes w

  did-IsChunkAnnounced :
      (file_id i : ℕ) (e : Effect) (w : World)
      → IsChunkAnnounced file_id i w
      → IsChunkAnnounced file_id i (did e w)
  did-IsChunkAnnounced file_id i e w a = record {
    bytes = a.bytes;
    encoded = a.encoded;
    provided = did-IsProvided a.bytes a.bytes e w a.provided;
  }

  announce_file_chunk-Is :
      (file_id i : ℕ) (w : World)
      → (announce_file_chunk net h c (record { file_id = file_id; chunk_id = i }) w).0 ≡ ok tt
      → IsChunkAnnounced file_id i
          (announce_file_chunk net h c (record { file_id = file_id; chunk_id = i }) w).1
  unfolding announce_file_chunk
  announce_file_chunk-Is file_id i w e =
      elim (Result-cases (c.chunk_request.to_vec (record { file_id = file_id; chunk_id = i }))) [
        | inr (_, bad) ↦ absurd (ground (arith, bad))
        | inl (bytes, encoded) ↦
            rw (encoded, announce_file_chunk)
              (record {
                bytes = bytes;
                encoded = encoded;
                provided =
                    put_then_provide-IsProvided bytes bytes w
                      (rw (encoded, announce_file_chunk) at e);
              })
      ]

  -- The loop announces the chunks from `i` on.
  announce_chunks-Is :
      (file_id left i : ℕ) (w : World)
      → (announce_chunks net h c file_id left i w).0 ≡ ok tt
      → (j : ℕ) → i ≤ j
      → j < i + left
      → IsChunkAnnounced file_id j (announce_chunks net h c file_id left i w).1
  unfolding announce_chunks
  announce_chunks-Is file_id zero i w e j from below = absurd (omega arith)
  announce_chunks-Is file_id (suc left) i w e j from below =
      let first : Result Text Unit × World =
        announce_file_chunk net h c (record { file_id = file_id; chunk_id = i }) w in
      let rest : World → Result Text Unit × World = announce_chunks net h c file_id left (suc i) in
      let (_, began, same) = continue-ok first (λ _. rest) e in
      let ended : (rest first.1).0 ≡ ok tt = ap (λ x. x.0) (sym same) ∙ e in
      subst (λ (x : Result Text Unit × World). IsChunkAnnounced file_id j x.1) (sym same)
        (elim (dec_lt i j) [
          | yes later ↦
              announce_chunks-Is file_id left (suc i) first.1 ended j (omega arith) (omega arith)
          | no not_later ↦
              let here : i ≡ j = omega arith in
              announce_chunks-keeps net h c (IsChunkAnnounced file_id j)
                (λ x v _. did-IsChunkAnnounced file_id j x v) file_id left (suc i) first.1
                (subst (λ k. IsChunkAnnounced file_id k first.1) here
                  (announce_file_chunk-Is file_id i w began))
        ])

  -- What the network knows of a file: the record of its metadata under its key, and each chunk.
  pub record IsAnnounced (m : FileMetadata) (w : World) : Type 0 where
    pub value : Bytes
    pub encoded :
        c.published_file.to_vec
          (record { total_chunks = m.total_chunks; merkle_root = m.merkle_root })
        ≡ ok value
    pub provided : IsProvided (key h m).bytes value w
    pub chunks : (i : ℕ) → i < m.total_chunks → IsChunkAnnounced (to_u64 (key h m)) i w

  pub did-IsAnnounced :
      (m : FileMetadata) (e : Effect) (w : World) → IsAnnounced m w → IsAnnounced m (did e w)
  did-IsAnnounced m e w a = record {
    value = a.value;
    encoded = a.encoded;
    provided = did-IsProvided (key h m).bytes a.value e w a.provided;
    chunks = λ i lt. did-IsChunkAnnounced (to_u64 (key h m)) i e w (a.chunks i lt);
  }

  abbrev published_of : FileMetadata → PublishedFile
  published_of m = record { total_chunks = m.total_chunks; merkle_root = m.merkle_root }

  metadata_told :
      (m : FileMetadata) (w : World)
      → (announce_metadata net h c m w).0 ≡ ok tt
      → (value : Bytes) × (c.published_file.to_vec (published_of m) ≡ ok value)
        × IsProvided (key h m).bytes value (announce_metadata net h c m w).1
  unfolding announce_metadata
  metadata_told m w e = elim (Result-cases (c.published_file.to_vec (published_of m))) [
    | inr (_, bad) ↦ absurd (ground (arith, bad))
    | inl (value, encoded) ↦ (
      value,
      encoded,
      rw (encoded, announce_metadata)
          (put_then_provide-IsProvided (key h m).bytes value w
            (rw (encoded, announce_metadata) at e)),
    )
  ]

  -- If `provide_all` succeeds, the network has been told of the metadata and of every chunk.
  pub provide_all-IsAnnounced :
      (m : FileMetadata) (w : World)
      → (provide_all net h c m w).0 ≡ ok tt
      → IsAnnounced m (provide_all net h c m w).1
  unfolding provide_all
  provide_all-IsAnnounced m w e =
      let id : ℕ = to_u64 (key h m) in
      let first : Result Text Unit × World = announce_metadata net h c m w in
      let rest : World → Result Text Unit × World = announce_chunks net h c id m.total_chunks 0 in
      let (_, began, same) = continue-ok first (λ _. rest) e in
      let ended : (rest first.1).0 ≡ ok tt = ap (λ x. x.0) (sym same) ∙ e in
      let (value, encoded, told) = metadata_told m w began in
      subst (λ (x : Result Text Unit × World). IsAnnounced m x.1) (sym same)
        (record {
          value = value;
          encoded = encoded;
          provided =
              announce_chunks-keeps net h c (IsProvided (key h m).bytes value)
                (λ x v _. did-IsProvided (key h m).bytes value x v) id m.total_chunks 0 first.1
                told;
          chunks = λ i lt.
              announce_chunks-Is id m.total_chunks 0 first.1 ended i (omega arith) (omega arith);
        })
