-- ===== src/Download/Chunk/Laws.antt =====
-- What `download_file_chunk` of src/app/file_download_service.rs leaves on disk.
use rust_dfs.Base.{ℕ, ◌≡◌, ◌≢◌, sym, ap, ◌∙◌, true, false, none, some, List}
use rust_dfs.Base.{
  continue, continue-pure, pure, if◌then◌else◌, ◌⊎◌, get_elem?, arith, inl, inr, Result-cases, ok,
  err, Option-cases, Bool-cases,
}
use rust_dfs.Base.Text.{Bytes, Text, text}
use rust_dfs.Base.Paths.{PathBuf, join}
use rust_dfs.Domain.{FileMetadata, success, not_found, error, DownloadFileChunk}
use rust_dfs.Store.Codec.{Cbor}
use rust_dfs.Processing.Fs.{Fs}
use rust_dfs.Processing.Fs
use rust_dfs.Processing.Merkle.{Merkle}
use rust_dfs.Processing.Merkle
use rust_dfs.Processing.Split.{chunk_path}
use rust_dfs.Processing.Publish.{metadata_file_name}
use rust_dfs.Download.Verify.{verify_chunk, IsTreeOf, verify_chunk_sound}
use rust_dfs.Download.Chunk.{Answers, verify_and_save_file_chunk, download_file_chunk}

module _ (fs : Fs) (F : Fs.IsLawful fs) (codec : Cbor FileMetadata) (M : Merkle)
    (ML : Merkle.IsLawful M) where
  -- The directory holds the metadata `m`.
  abbrev pub HasMetadata : PathBuf → FileMetadata → fs.State → Type 0
  HasMetadata dir m s =
      (raw : Bytes) × (fs.read (join dir metadata_file_name) s ≡ ok raw)
      × (codec.from_slice raw ≡ ok m)

  module _ (m : FileMetadata) (pieces : List Bytes)
      (t : IsTreeOf M m.merkle_root m.total_chunks pieces) (d : DownloadFileChunk) where
    abbrev saved_path : PathBuf
    saved_path = chunk_path d.target_dir d.chunk_id m.chunk_file_extension

    -- Only a chunk that passes is written; nothing else is.
    save_cases :
        (bytes : Bytes) (s : fs.State)
        → HasMetadata d.target_dir m s
        → ((proof : Bytes) × (verify_chunk M bytes d.chunk_id proof m.merkle_root m.total_chunks
              ≡ ok true)
            × (verify_and_save_file_chunk fs codec M d bytes s ≡ fs.write saved_path bytes s))
          ⊎ ((e : Text) × (verify_and_save_file_chunk fs codec M d bytes s ≡ (err e, s)))
    unfolding verify_and_save_file_chunk
    save_cases bytes s (raw, stored, decoded) =
        elim (Option-cases (get_elem? m.merkle_proofs d.chunk_id)) [
          | inl absent ↦ inr (text "chunk not found", rw (stored, decoded, absent))
          | inr (proof, found) ↦
              elim (Result-cases
                (verify_chunk M bytes d.chunk_id proof m.merkle_root m.total_chunks)) [
                  | inr (e, panics) ↦ inr (e, rw (stored, decoded, found, panics))
                  | inl (true, passes) ↦ inl (proof, passes, rw (stored, decoded, found, passes))
                  | inl (false, wrong) ↦
                      inr
                        (text "downloaded chunk is not correct", rw (stored, decoded, found, wrong))
                ]
        ]

    -- A chunk that was accepted is the published one, and it is what its file holds.
    save_ok :
        (bytes : Bytes) (s : fs.State)
        → HasMetadata d.target_dir m s
        → (verify_and_save_file_chunk fs codec M d bytes s).0 ≡ ok tt
        → (get_elem? pieces d.chunk_id ≡ some bytes)
          × (fs.read saved_path (verify_and_save_file_chunk fs codec M d bytes s).1 ≡ ok bytes)
    save_ok bytes s h e = elim (save_cases bytes s h) [
      | inl (proof, passes, same) ↦ (
        verify_chunk_sound M ML pieces m.merkle_root m.total_chunks bytes proof d.chunk_id t passes,
        ap (λ r. fs.read saved_path r.1) same
            ∙ F.read-write saved_path bytes s (sym (ap (λ r. r.0) same) ∙ e),
      )
      | inr (_, bad) ↦ cc (sym (ap (λ r. r.0) bad) ∙ e)
    ]

    save_keeps :
        (bytes : Bytes) (s : fs.State) (q : PathBuf)
        → HasMetadata d.target_dir m s
        → q ≢ saved_path
        → fs.read q (verify_and_save_file_chunk fs codec M d bytes s).1 ≡ fs.read q s
    save_keeps bytes s q h ne = elim (save_cases bytes s h) [
      | inl (_, _, same) ↦ ap (λ r. fs.read q r.1) same ∙ F.read-write_ne saved_path bytes q s ne
      | inr (_, bad) ↦ ap (λ r. fs.read q r.1) bad
    ]

    -- The state changes only if the peer sent bytes, and then as the check of the bytes says.
    download_cases :
        (a : Answers) (s : fs.State)
        → ((bytes : Bytes) × (download_file_chunk fs codec M d a s
              ≡ continue
                  (verify_and_save_file_chunk fs codec M d bytes s)
                  (λ _. pure (if a.provide_sent then some d.chunk_id else none))))
          ⊎ (((i : ℕ) → (download_file_chunk fs codec M d a s).0 ≢ ok (some i))
              × ((download_file_chunk fs codec M d a s).1 ≡ s))
    unfolding download_file_chunk
    download_cases a s = elim (Bool-cases a.request_sent) [
      | inr no_one ↦ inr (λ i. ground arith, rw no_one)
      | inl sent ↦ elim (Result-cases a.answer) [
        | inr (_, dropped) ↦ inr (λ i. ground arith, rw (sent, dropped))
        | inl (none, nobody) ↦ inr (λ i. ground arith, rw (sent, nobody))
        | inl (some not_found, absent) ↦ inr (λ i. ground arith, rw (sent, absent))
        | inl (some (error _), refused) ↦ inr (λ i. ground arith, rw (sent, refused))
        | inl (some (success bytes), got) ↦ inl (bytes, rw (sent, got))
      ]
    ]

    -- Whatever the peer and the channels answer: a chunk that counts as downloaded is the
    -- published chunk of that number, and its file holds it. The directory has to hold the metadata of
    -- the published chunks.
    pub download_file_chunk_sound :
        (a : Answers) (s : fs.State) (i : ℕ)
        → HasMetadata d.target_dir m s
        → (download_file_chunk fs codec M d a s).0 ≡ ok (some i)
        → (i ≡ d.chunk_id)
          × (bytes : Bytes) × (get_elem? pieces d.chunk_id ≡ some bytes)
          × (fs.read saved_path (download_file_chunk fs codec M d a s).1 ≡ ok bytes)
    download_file_chunk_sound a s i h e = elim (download_cases a s) [
      | inr (never, _) ↦ absurd (never i e)
      | inl (bytes, same) ↦
          elim (Result-cases (verify_and_save_file_chunk fs codec M d bytes s).0) [
            | inl (tt, saved) ↦
                let (published, held) = save_ok bytes s h saved in
                (
                  ground (arith, saved, same),
                  bytes,
                  published,
                  ap (λ r. fs.read saved_path r.1) same ∙ rw (saved, continue) held,
                )
            | inr (_, bad) ↦ absurd (ground (arith, bad, same))
          ]
    ]

    -- No other file is touched.
    pub download_file_chunk_keeps :
        (a : Answers) (s : fs.State) (q : PathBuf)
        → HasMetadata d.target_dir m s
        → q ≢ saved_path
        → fs.read q (download_file_chunk fs codec M d a s).1 ≡ fs.read q s
    download_file_chunk_keeps a s q h ne = elim (download_cases a s) [
      | inr (_, same) ↦ ap (fs.read q) same
      | inl (bytes, same) ↦
          ap (λ r. fs.read q r.1) same
          ∙ ap (fs.read q) (continue-pure _ _)
          ∙ save_keeps bytes s q h ne
    ]
