-- ===== src/Processing/Publish/Ends.antt =====
-- How `process_file` of src/app/file_processing/processing.rs ends, and what it leaves on disk.
use rust_dfs.Base.{
  ℕ, ◌<◌, ◌≡◌, ◌≢◌, refl, sym, ap, subst, ◌∙◌, Bool, some, List, [], ◌∷◌, map, arith, ◌++◌,
}
use rust_dfs.Base.{length, range, get_elem?, concat, ok, err}
use rust_dfs.Base.Text.{Bytes, Text, text, replace}
use rust_dfs.Base.Paths.{PathBuf, path_of, join, parent, file_name, dot}
use rust_dfs.Domain.{FileMetadata}
use rust_dfs.Store.Codec.{Cbor}
use rust_dfs.Processing.Fs.{Fs, file, IsReliable}
use rust_dfs.Processing.Fs
use rust_dfs.Processing.Errors.{merkle_tree_creation}
use rust_dfs.Processing.Merkle.{Merkle}
use rust_dfs.Processing.Merkle
use rust_dfs.Processing.Split.{split, chunk_size, chunk_path, file_chunk_extension}
use rust_dfs.Processing.Split.Chunks.{chunks}
use rust_dfs.Processing.Split.Names.{NoSlash, metadata_ne_chunk}
use rust_dfs.Processing.Split.Laws.{split_ends, split_writes}
use rust_dfs.Processing.Publish.{metadata_file_name, save_metadata, process_opened, process_file}
use rust_dfs.Processing.Publish.Laws.{save_same, saved_there, saved_keeps}

pub plain_extension : NoSlash file_chunk_extension
plain_extension = (omega arith, (omega arith, (omega arith, (omega arith, (omega arith, tt)))))

no_piece : (f : Bytes → Bytes) (cs : List Bytes) → map f cs ≡ [] → concat cs ≡ []
no_piece f [] e = refl
no_piece f (c ∷ cs) e = cc

no_chunks : (f : Bytes → Bytes) (n size : ℕ) → map f (chunks n size []) ≡ []
unfolding chunks
no_chunks f ℕ.zero size = refl
no_chunks f (ℕ.suc n) size = refl

module _ (fs : Fs) (L : Fs.IsLawful fs) (R : IsReliable fs) (codec : Cbor FileMetadata) (M : Merkle)
    (ML : Merkle.IsLawful M) where
  -- The chunks and the metadata are in their files.
  pub record IsOnDisk (m : FileMetadata) (pieces : List Bytes) (s : fs.State) : Type 0 where
    pub chunk_there :
        (i : ℕ) (c : Bytes)
        → get_elem? pieces i ≡ some c
        → fs.read (chunk_path m.chunks_dir i m.chunk_file_extension) s ≡ ok c
    pub raw : Bytes
    pub encoded : codec.to_vec m ≡ ok raw
    pub metadata_there : fs.read (join m.chunks_dir metadata_file_name) s ≡ ok raw

  save_ok :
      (m : FileMetadata) (s : fs.State) {bytes : Bytes}
      → codec.to_vec m ≡ ok bytes
      → (save_metadata fs codec m s).0 ≡ ok m
  unfolding save_metadata
  save_ok m s {bytes} coded =
      let (w, made) = R.create_ok (join m.chunks_dir metadata_file_name) s in
      let (w', done) =
        R.write_all_ok w bytes (fs.create (join m.chunks_dir metadata_file_name) s).1 in
      ground (arith, made, coded, done)

  module _ (rounds : ℕ) (p base : PathBuf) (name : Text) (reader : fs.Reader) (public : Bool)
      (s : fs.State) (above : parent p ≡ some base) (named : file_name p ≡ some name)
      (fits : length (L.rest reader) < rounds) where
    abbrev dir : PathBuf
    dir = join base (replace dot b'_' name ++ text "_chunks")

    abbrev pieces : List Bytes
    pieces = chunks rounds chunk_size (L.rest reader)

    abbrev made : fs.State
    made = (fs.create_dir_all dir s).1

    abbrev metadata_of : Bytes → FileMetadata
    metadata_of root = record {
      original_file_name = name;
      total_chunks = length (map M.hash pieces);
      chunks_dir = dir;
      merkle_root = root;
      merkle_proofs = map (M.proof (map M.hash pieces)) (range (length (map M.hash pieces)));
      chunk_file_extension = file_chunk_extension;
      public = public;
    }

    opened_steps :
        (root : Bytes)
        → M.root (map M.hash pieces) ≡ some root
        → process_opened fs codec M rounds p reader public s
          ≡ save_metadata fs codec (metadata_of root) (split fs M rounds reader dir made).1
    unfolding process_opened
    opened_steps root rooted =
        let (hashes, _) = split_ends fs L R M rounds reader dir made fits in
        ground (arith, above, named, R.create_dir_all_ok dir s, hashes, rooted)

    -- The chunks were written before the metadata, which is none of them.
    on_disk :
        (root bytes : Bytes)
        → codec.to_vec (metadata_of root) ≡ ok bytes
        → IsOnDisk
            (metadata_of root)
            pieces
            (save_metadata fs codec (metadata_of root) (split fs M rounds reader dir made).1).1
    on_disk root bytes coded =
        let m = metadata_of root in
        let s' : fs.State = (split fs M rounds reader dir made).1 in
        let (raw, encoded, there) = saved_there fs L R codec m m s' (save_ok m s' coded) in
        record {
          chunk_there = λ i c found.
              saved_keeps fs L R codec m (chunk_path dir i file_chunk_extension) s'
                (λ e. metadata_ne_chunk dir i file_chunk_extension plain_extension (sym e))
              ∙ split_writes fs L R M rounds reader dir made i c fits found;
          raw = raw;
          encoded = encoded;
          metadata_there = there;
        }

    some_piece : L.rest reader ≢ [] → map M.hash pieces ≢ []
    some_piece more e =
        let (_, joined) = split_ends fs L R M rounds reader dir made fits in
        more (sym joined ∙ no_piece M.hash pieces e)

  module _ (rounds : ℕ) (path : Text) (base : PathBuf) (name : Text) (reader : fs.Reader)
      (public : Bool) (s : fs.State) where
    -- What `process_file` leaves, if it succeeds.
    pub process_file-IsOnDisk :
        (m : FileMetadata)
        → fs.metadata (path_of path) s ≡ ok file
        → fs.open_file (path_of path) s ≡ ok reader
        → parent (path_of path) ≡ some base
        → file_name (path_of path) ≡ some name
        → length (L.rest reader) < rounds
        → L.rest reader ≢ []
        → (process_file fs codec M rounds path public s).0 ≡ ok m
        → IsOnDisk m
            (chunks rounds chunk_size (L.rest reader))
            (process_file fs codec M rounds path public s).1
    unfolding process_file
    process_file-IsOnDisk m regular opened above named fits more e =
        let p : PathBuf = path_of path in
        let (root, rooted) =
          ML.root_some _ (some_piece rounds p base name reader public s above named fits more) in
        let want : FileMetadata =
          metadata_of rounds p base name reader public s above named fits root in
        let s' : fs.State =
          (split fs M rounds reader (dir rounds p base name reader public s above named fits)
            (made rounds p base name reader public s above named fits)).1 in
        let steps = opened_steps rounds p base name reader public s above named fits root rooted in
        let saved : (save_metadata fs codec want s').0 ≡ ok m =
          ap (λ x. x.0) (sym steps) ∙ ground (arith, regular, opened, e) in
        let (bytes, coded, _) = saved_there fs L R codec want m s' saved in
        rw (regular, opened)
          (subst (λ x. IsOnDisk m (chunks rounds chunk_size (L.rest reader)) x.1) (sym steps)
            (subst
              (λ x.
                IsOnDisk x (chunks rounds chunk_size (L.rest reader))
                  (save_metadata fs codec want s').1)
              (save_same fs codec want m s' saved)
              (on_disk rounds p base name reader public s above named fits root bytes coded)))

    -- A file that has at least one byte is published: `process_file` returns metadata, and leaves every
    -- piece of one MiB in the chunk file of its number, and the encoding of that metadata in the metadata
    -- file. The path must be a regular file with a parent and a name, no call that writes or reads may
    -- fail, encoding the metadata must not fail, and there is a round more than bytes.
    pub process_file_ends :
        fs.metadata (path_of path) s ≡ ok file
        → fs.open_file (path_of path) s ≡ ok reader
        → parent (path_of path) ≡ some base
        → file_name (path_of path) ≡ some name
        → length (L.rest reader) < rounds
        → L.rest reader ≢ []
        → ((m : FileMetadata) → (bytes : Bytes) × (codec.to_vec m ≡ ok bytes))
        → (m : FileMetadata) × ((process_file fs codec M rounds path public s).0 ≡ ok m)
          × IsOnDisk m
              (chunks rounds chunk_size (L.rest reader))
              (process_file fs codec M rounds path public s).1
    unfolding process_file
    process_file_ends regular opened above named fits more codes =
        let p : PathBuf = path_of path in
        let (root, rooted) =
          ML.root_some _ (some_piece rounds p base name reader public s above named fits more) in
        let m : FileMetadata =
          metadata_of rounds p base name reader public s above named fits root in
        let (bytes, coded) = codes m in
        let steps = opened_steps rounds p base name reader public s above named fits root rooted in
        (
          m,
          rw (regular, opened) (ap (λ x. x.0) steps ∙ save_ok m _ coded),
          rw (regular, opened)
              (subst (λ x. IsOnDisk m (chunks rounds chunk_size (L.rest reader)) x.1) (sym steps)
                (on_disk rounds p base name reader public s above named fits root bytes coded)),
        )

    -- A file without a byte is not published: the directory of the chunks is made, and then there is
    -- no root. The path must be a regular file with a parent and a name, and no call that writes or
    -- reads may fail.
    pub process_file_empty :
        fs.metadata (path_of path) s ≡ ok file
        → fs.open_file (path_of path) s ≡ ok reader
        → parent (path_of path) ≡ some base
        → file_name (path_of path) ≡ some name
        → 0 < rounds
        → L.rest reader ≡ []
        → (process_file fs codec M rounds path public s).0
          ≡ err (merkle_tree_creation (text "cannot get merkle root"))
    unfolding process_file process_opened chunks
    process_file_empty regular opened above named fits nothing =
        let d : PathBuf = join base (replace dot b'_' name ++ text "_chunks") in
        let s₁ : fs.State = (fs.create_dir_all d s).1 in
        let (hashes, _) =
          split_ends fs L R M rounds reader d s₁ (omega (arith, ap length nothing)) in
        let none_left : map M.hash (chunks rounds chunk_size (L.rest reader)) ≡ [] =
          ap (λ bs. map M.hash (chunks rounds chunk_size bs)) nothing
          ∙ no_chunks M.hash rounds chunk_size in
        let rootless : (split fs M rounds reader d s₁).0 ≡ ok [] = hashes ∙ ap ok none_left in
        ground
          (arith, regular, opened, above, named, R.create_dir_all_ok d s, rootless, ML.root-nil)
