-- ===== src/Processing/Publish/Place.antt =====
-- Where `process_file` of src/app/file_processing/processing.rs puts the chunks.
use rust_dfs.Base.{ℕ, ◌≡◌, sym, ap, Bool, inl, inr, some}
use rust_dfs.Base.{◌++◌, arith, length, map, range, Option-cases, Bool-cases}
use rust_dfs.Base.{Result-cases, ok}
use rust_dfs.Base.Text.{Text, text, replace}
use rust_dfs.Base.Paths.{PathBuf, path_of, join, parent, file_name, dot}
use rust_dfs.Domain.{FileMetadata}
use rust_dfs.Store.Codec.{Cbor}
use rust_dfs.Processing.Fs.{Fs}
use rust_dfs.Processing.Merkle.{Merkle}
use rust_dfs.Processing.Split.{split, file_chunk_extension}
use rust_dfs.Processing.Publish.{is_file, save_metadata, process_opened, process_file}
use rust_dfs.Processing.Publish.Laws.{save_same}

module _ (fs : Fs) (codec : Cbor FileMetadata) where
  opened_dir :
      (M : Merkle) (rounds : ℕ) (p base : PathBuf) (name : Text) (r : fs.Reader) (public : Bool)
      (s : fs.State) (m : FileMetadata)
      → parent p ≡ some base
      → file_name p ≡ some name
      → (process_opened fs codec M rounds p r public s).0 ≡ ok m
      → m.chunks_dir ≡ join base (replace dot b'_' name ++ text "_chunks")
  unfolding process_opened
  opened_dir M rounds p base name r public s m above named e =
      let chunks_dir : PathBuf = join base (replace dot b'_' name ++ text "_chunks") in
      let s' : fs.State = (fs.create_dir_all chunks_dir s).1 in
      elim (Result-cases (fs.create_dir_all chunks_dir s).0) [
        | inr (_, bad) ↦ absurd (ground (arith, above, named, bad))
        | inl (_, made) ↦ elim (Result-cases (split fs M rounds r chunks_dir s').0) [
          | inr (_, bad) ↦ absurd (ground (arith, above, named, made, bad))
          | inl (leaves, hashes) ↦ elim (Option-cases (M.root leaves)) [
            | inl bad ↦ absurd (ground (arith, above, named, made, hashes, bad))
            | inr (root, rooted) ↦
                let want : FileMetadata = record {
                  original_file_name = name;
                  total_chunks = length leaves;
                  chunks_dir = chunks_dir;
                  merkle_root = root;
                  merkle_proofs = map (M.proof leaves) (range (length leaves));
                  chunk_file_extension = file_chunk_extension;
                  public = public;
                } in
                let saved : (save_metadata fs codec want (split fs M rounds r chunks_dir s').1).0
                    ≡ ok m =
                  ground (arith, above, named, made, hashes, rooted, e) in
                ap (λ (x : FileMetadata). x.chunks_dir) (sym (save_same fs codec want m _ saved))
          ]
        ]
      ]

  -- The directory of the chunks depends on the path alone.
  pub process_file-dir :
      (M : Merkle) (rounds : ℕ) (path : Text) (base : PathBuf) (name : Text) (public : Bool)
      (s : fs.State) (m : FileMetadata)
      → parent (path_of path) ≡ some base
      → file_name (path_of path) ≡ some name
      → (process_file fs codec M rounds path public s).0 ≡ ok m
      → m.chunks_dir ≡ join base (replace dot b'_' name ++ text "_chunks")
  unfolding process_file
  process_file-dir M rounds path base name public s m above named e =
      elim (Result-cases (fs.metadata (path_of path) s)) [
        | inr (_, bad) ↦ absurd (ground (arith, bad))
        | inl (kind, known) ↦ elim (Bool-cases (is_file kind)) [
          | inr other ↦ absurd (ground (arith, known, other))
          | inl regular ↦ elim (Result-cases (fs.open_file (path_of path) s)) [
            | inr (_, bad) ↦ absurd (ground (arith, known, regular, bad))
            | inl (r, opened) ↦
                opened_dir M rounds (path_of path) base name r public s m above named
                  (ground (arith, known, regular, opened, e))
          ]
        ]
      ]
