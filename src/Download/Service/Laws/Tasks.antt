-- ===== src/Download/Service/Laws/Tasks.antt =====
-- The tasks of `download` (src/app/file_download_service.rs), one by one.
use rust_dfs.Base.{ℕ, ◌≡◌, ◌≢◌, refl, sym, ap, subst, ◌∙◌, true, false, inl, inr}
use rust_dfs.Base.{Option, none, some, List, get_elem?, arith}
use rust_dfs.Base.{Result, ok, err, Bool-cases}
use rust_dfs.Base.Text.{Bytes, Text}
use rust_dfs.Base.Sets.{contains, insert, Distinct, contains-insert, insert-Distinct}
use rust_dfs.Base.Paths.{PathBuf}
use rust_dfs.Domain.{FileMetadata}
use rust_dfs.Store.Codec.{Cbor}
use rust_dfs.Store.Interface.{FileStore}
use rust_dfs.Processing.Fs.{Fs}
use rust_dfs.Processing.Fs
use rust_dfs.Processing.Merkle.{Merkle}
use rust_dfs.Processing.Merkle
use rust_dfs.Processing.Split.{chunk_path}
use rust_dfs.Processing.Split.Names.{NoSlash, chunk_path-injective, metadata_ne_chunk}
use rust_dfs.Download.Verify.{IsTreeOf}
use rust_dfs.Download.Chunk.{Answers, download_file_chunk}
use rust_dfs.Download.Chunk.Laws.{HasMetadata, download_file_chunk_sound, download_file_chunk_keeps}
use rust_dfs.Download.Service.Download.{Progress, chunk_of, joined}

new_member :
    (k j : ℕ) (ks : List ℕ) → contains (insert k ks) j ≡ true → contains ks j ≡ false → k ≡ j
new_member k j ks member new = ground (arith, contains-insert k j ks)

module _ (fs : Fs) (F : Fs.IsLawful fs) (S : FileStore) (codec : Cbor FileMetadata) (M : Merkle)
    (ML : Merkle.IsLawful M) (m : FileMetadata) (pieces : List Bytes)
    (t : IsTreeOf M m.merkle_root m.total_chunks pieces)
    (plain : NoSlash m.chunk_file_extension) where
  -- The file of chunk `i` holds the published chunk.
  abbrev pub IsHeld : PathBuf → fs.State → ℕ → Type 0
  IsHeld dir s i =
      (bytes : Bytes) × (get_elem? pieces i ≡ some bytes)
      × (fs.read (chunk_path dir i m.chunk_file_extension) s ≡ ok bytes)

  -- Every chunk that counts as downloaded is there, and none counts twice.
  pub record Inv (p : Progress fs S) : Type 0 where
    pub has_metadata : HasMetadata fs F codec M ML p.pending.chunks_dir m p.files
    pub distinct : Distinct p.pending.downloaded_chunks
    pub held :
        (i : ℕ)
        → contains p.pending.downloaded_chunks i ≡ true
        → IsHeld p.pending.chunks_dir p.files i

  module _ (a : Answers) (i : ℕ) (p : Progress fs S) (inv : Inv p)
      (fresh : contains p.pending.downloaded_chunks i ≡ false) where
    abbrev pub result : Result Text (Option ℕ) × fs.State
    result = download_file_chunk fs codec M (chunk_of fs S codec M p.pending i) a p.files

    others_kept :
        (q : PathBuf)
        → q ≢ chunk_path p.pending.chunks_dir i m.chunk_file_extension
        → fs.read q result.1 ≡ fs.read q p.files
    unfolding chunk_of
    others_kept q ne =
        download_file_chunk_keeps fs F codec M ML m pieces t (chunk_of fs S codec M p.pending i) a
          p.files q inv.has_metadata ne

    metadata_kept : HasMetadata fs F codec M ML p.pending.chunks_dir m result.1
    metadata_kept =
        let (raw, stored, decoded) = inv.has_metadata in
        (
          raw,
          others_kept _ (metadata_ne_chunk p.pending.chunks_dir i m.chunk_file_extension plain)
              ∙ stored,
          decoded,
        )

    -- The files of other chunks stay.
    pub kept-IsHeld :
        (j : ℕ)
        → j ≢ i
        → IsHeld p.pending.chunks_dir p.files j
        → IsHeld p.pending.chunks_dir result.1 j
    kept-IsHeld j apart (bytes, published, there) = (
      bytes,
      published,
      others_kept _ (λ e.
            apart (chunk_path-injective p.pending.chunks_dir j i m.chunk_file_extension plain e))
          ∙ there,
    )

    old-IsHeld :
        (j : ℕ)
        → contains p.pending.downloaded_chunks j ≡ true
        → IsHeld p.pending.chunks_dir result.1 j
    old-IsHeld j old =
        let apart : j ≢ i = λ e.
          let clash : true ≡ false =
            sym old ∙ ap (contains p.pending.downloaded_chunks) e ∙ fresh in
          cc clash in
        kept-IsHeld j apart (inv.held j old)

    -- What a task writes breaks nothing.
    pub worked-Inv : Inv (record p { files = result.1 })
    worked-Inv = record { has_metadata = metadata_kept; distinct = inv.distinct; held = old-IsHeld }

    -- A chunk that the task brings is the published one.
    pub brought-IsHeld :
        (k : ℕ) → result.0 ≡ ok (some k) → (k ≡ i) × IsHeld p.pending.chunks_dir result.1 k
    unfolding chunk_of
    brought-IsHeld k done =
        let (same, bytes, published, there) =
          download_file_chunk_sound fs F codec M ML m pieces t (chunk_of fs S codec M p.pending i) a
            p.files k inv.has_metadata done in
        (same, subst (IsHeld p.pending.chunks_dir result.1) (sym same) (bytes, published, there))

  -- To count a chunk that is there breaks nothing.
  pub joined-Inv :
      (result : Result Text (Option ℕ)) (p : Progress fs S)
      → Inv p
      → ((k : ℕ) → result ≡ ok (some k) → IsHeld p.pending.chunks_dir p.files k)
      → Inv (joined fs S codec M result p)
  unfolding joined
  joined-Inv (err e) p inv brought = record {
    has_metadata = inv.has_metadata;
    distinct = inv.distinct;
    held = inv.held;
  }
  joined-Inv (ok none) p inv brought = inv
  joined-Inv (ok (some k)) p inv brought =
      elim (Bool-cases (contains p.pending.downloaded_chunks k)) [
        | inl old ↦ rw old inv
        | inr new ↦ rw new (record {
          has_metadata = inv.has_metadata;
          distinct = insert-Distinct k p.pending.downloaded_chunks inv.distinct;
          held = λ j member. elim (Bool-cases (contains p.pending.downloaded_chunks j)) [
            | inl old ↦ inv.held j old
            | inr other ↦
                subst (IsHeld p.pending.chunks_dir p.files)
                  (new_member k j p.pending.downloaded_chunks member other) (brought k refl)
          ];
        })
      ]
