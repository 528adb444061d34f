-- ===== src/Processing/Publish/Laws.antt =====
-- The metadata that `process_file` of src/app/file_processing/processing.rs returns.
use rust_dfs.Base.{subst, ◌≢◌, ℕ, ◌<◌, ◌≡◌, sym, ap, ◌∙◌, Bool, inl, inr, some}
use rust_dfs.Base.{List, ◌++◌, arith, length, length-map, map, range, Option-cases, Bool-cases}
use rust_dfs.Base.{Result-cases, ok}
use rust_dfs.Base.Text.{Bytes, Text, text, replace}
use rust_dfs.Base.Paths.{PathBuf, path_of, join, parent, file_name, dot}
use rust_dfs.Domain.{FileMetadata}
use rust_dfs.Store.Codec.{Cbor}
use rust_dfs.Processing.Fs.{Fs, IsReliable}
use rust_dfs.Processing.Fs
use rust_dfs.Processing.Merkle.{Merkle}
use rust_dfs.Processing.Split.{split, chunk_size, file_chunk_extension}
use rust_dfs.Processing.Split.Chunks.{chunks}
use rust_dfs.Processing.Split.Laws.{split_ends}
use rust_dfs.Processing.Publish.{
  metadata_file_name, is_file, save_metadata, process_opened, process_file,
}

module _ (fs : Fs) (codec : Cbor FileMetadata) where
  -- What is returned is what was to be saved.
  pub save_same :
      (m m' : FileMetadata) (s : fs.State) → (save_metadata fs codec m s).0 ≡ ok m' → m ≡ m'
  unfolding save_metadata
  save_same m m' s e = elim (Result-cases (fs.create (join m.chunks_dir metadata_file_name) s).0) [
    | inr (_, bad) ↦ absurd (ground (arith, bad))
    | inl (w, made) ↦ elim (Result-cases (codec.to_vec m)) [
      | inr (_, bad) ↦ absurd (ground (arith, made, bad))
      | inl (bytes, coded) ↦
          elim (Result-cases
            (fs.write_all w bytes (fs.create (join m.chunks_dir metadata_file_name) s).1).0) [
              | inr (_, bad) ↦ absurd (ground (arith, made, coded, bad))
              | inl (_, done) ↦ ground (arith, made, coded, done)
            ]
    ]
  ]

module _ (fs : Fs) (L : Fs.IsLawful fs) (R : IsReliable fs) (codec : Cbor FileMetadata) where
  -- Where `save_metadata` succeeds, the metadata file holds the encoding of what was to be saved.
  pub saved_there :
      (m m' : FileMetadata) (s : fs.State)
      → (save_metadata fs codec m s).0 ≡ ok m'
      → (bytes : Bytes) × (codec.to_vec m ≡ ok bytes)
        × (fs.read (join m.chunks_dir metadata_file_name) (save_metadata fs codec m s).1 ≡ ok bytes)
  unfolding save_metadata
  saved_there m m' s e =
      let path : PathBuf = join m.chunks_dir metadata_file_name in
      let (w, made) = R.create_ok path s in
      let s₁ : fs.State = (fs.create path s).1 in
      elim (Result-cases (codec.to_vec m)) [
        | inr (_, bad) ↦ absurd (ground (arith, made, bad))
        | inl (bytes, coded) ↦
            let (w', done) = R.write_all_ok w bytes s₁ in
            let s₂ : fs.State = (fs.write_all w bytes s₁).1 in
            let (at, fresh) = L.create_new path s made in
            let (same, appended) = L.write_all_appends w bytes s₁ done in
            let content : fs.read (L.target w') (fs.flush w' s₂).1 ≡ ok (L.written w') =
              L.read-flush w' s₂ (R.flush_ok w' s₂) in
            (
              bytes,
              coded,
              rw (made, coded, done)
                  (subst (λ p. fs.read p (fs.flush w' s₂).1 ≡ ok bytes) (same ∙ at)
                    (content ∙ ap ok (appended ∙ ap (λ x. x ++ bytes) fresh))),
            )
      ]

  -- No other file is touched.
  pub saved_keeps :
      (m : FileMetadata) (q : PathBuf) (s : fs.State)
      → q ≢ join m.chunks_dir metadata_file_name
      → fs.read q (save_metadata fs codec m s).1 ≡ fs.read q s
  unfolding save_metadata
  saved_keeps m q s ne =
      let path : PathBuf = join m.chunks_dir metadata_file_name in
      let (w, made) = R.create_ok path s in
      let s₁ : fs.State = (fs.create path s).1 in
      let (at, _) = L.create_new path s made in
      elim (Result-cases (codec.to_vec m)) [
        | inr (_, bad) ↦ rw (made, bad) (L.read-create_ne path q s ne)
        | inl (bytes, coded) ↦
            let (w', done) = R.write_all_ok w bytes s₁ in
            let (same, _) = L.write_all_appends w bytes s₁ done in
            rw (made, coded, done)
              (L.read-flush_ne w' q _ (λ e. ne (e ∙ same ∙ at))
                ∙ L.read-write_all_ne w bytes q s₁ (λ e. ne (e ∙ at))
                ∙ L.read-create_ne path q s ne)
      ]

module _ (fs : Fs) (L : Fs.IsLawful fs) (R : IsReliable fs) (codec : Cbor FileMetadata)
    (M : Merkle) where
  -- The metadata is that of these chunks: their tree's root, their number, their proofs and their extension.
  pub record Describes (m : FileMetadata) (pieces : List Bytes) : Type 0 where
    pub root_of : M.root (map M.hash pieces) ≡ some m.merkle_root
    pub total_of : length pieces ≡ m.total_chunks
    pub proofs_of :
        m.merkle_proofs ≡ map (M.proof (map M.hash pieces)) (range (length (map M.hash pieces)))
    pub extension_of : m.chunk_file_extension ≡ file_chunk_extension

  opened_Describes :
      (rounds : ℕ) (p : PathBuf) (r : fs.Reader) (public : Bool) (s : fs.State) (m : FileMetadata)
      → length (L.rest r) < rounds
      → (process_opened fs codec M rounds p r public s).0 ≡ ok m
      → Describes m (chunks rounds chunk_size (L.rest r))
  unfolding process_opened
  opened_Describes rounds p r public s m h e = elim (Option-cases (parent p)) [
    | inl bad ↦ absurd (ground (arith, bad))
    | inr (base, above) ↦ elim (Option-cases (file_name p)) [
      | inl bad ↦ absurd (ground (arith, above, bad))
      | inr (name, named) ↦
          let chunks_dir : PathBuf = join base (replace dot b'_' name ++ text "_chunks") in
          elim (Result-cases (fs.create_dir_all chunks_dir s).0) [
            | inr (_, bad) ↦ absurd (ground (arith, above, named, bad))
            | inl (_, made) ↦
                let s' : fs.State = (fs.create_dir_all chunks_dir s).1 in
                let (hashes, _) = split_ends fs L R M rounds r chunks_dir s' h in
                let pieces : List Bytes = chunks rounds chunk_size (L.rest r) in
                elim (Option-cases (M.root (map M.hash pieces))) [
                  | inl bad ↦ absurd (ground (arith, above, named, made, hashes, bad))
                  | inr (root, rooted) ↦
                      let want : FileMetadata = record {
                        original_file_name = name;
                        total_chunks = length (map M.hash pieces);
                        chunks_dir = chunks_dir;
                        merkle_root = root;
                        merkle_proofs =
                            map (M.proof (map M.hash pieces)) (range (length (map M.hash pieces)));
                        chunk_file_extension = file_chunk_extension;
                        public = public;
                      } in
                      let saved : (save_metadata fs codec want
                            (split fs M rounds r chunks_dir s').1).0
                          ≡ ok m =
                        ground (arith, above, named, made, hashes, rooted, e) in
                      let same : want ≡ m = save_same fs codec want m _ saved in
                      record {
                        root_of = rooted ∙ ap (λ (x : FileMetadata). some x.merkle_root) same;
                        total_of =
                            sym (length-map M.hash pieces)
                            ∙ ap (λ (x : FileMetadata). x.total_chunks) same;
                        proofs_of = sym (ap (λ (x : FileMetadata). x.merkle_proofs) same);
                        extension_of = sym (ap (λ (x : FileMetadata). x.chunk_file_extension) same);
                      }
                ]
          ]
    ]
  ]

  -- If no read or write fails and there is a round more than bytes, the metadata that `process_file`
  -- returns has the extension of the chunks, the root and the number of the pieces of one MiB, and for each piece the proof
  -- of its place in the tree.
  pub process_file-Describes :
      (rounds : ℕ) (path : Text) (public : Bool) (s : fs.State) (r : fs.Reader) (m : FileMetadata)
      → fs.open_file (path_of path) s ≡ ok r
      → length (L.rest r) < rounds
      → (process_file fs codec M rounds path public s).0 ≡ ok m
      → Describes m (chunks rounds chunk_size (L.rest r))
  unfolding process_file
  process_file-Describes rounds path public s r m opened h e =
      elim (Result-cases (fs.metadata (path_of path) s)) [
        | inr (_, bad) ↦ absurd (ground (arith, bad))
        | inl (kind, known) ↦ elim (Bool-cases (is_file kind)) [
          | inr other ↦ absurd (ground (arith, known, other))
          | inl regular ↦
              opened_Describes rounds (path_of path) r public s m h
                (ground (arith, known, regular, opened))
        ]
      ]
