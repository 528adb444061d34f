-- ===== src/Processing/Restore/Laws.antt =====
-- What `restore_original_file` of src/app/file_processing/processing.rs leaves on disk.
use mathlib.Core.List.{append_assoc, append-nil}
use native.Mathlib.Nat.{add-zero}
use rust_dfs.Base.{ℕ, suc, ◌+◌, ◌≡◌, ◌≢◌, refl, sym, ap, subst, ◌∙◌, false}
use rust_dfs.Base.{List, [], ◌∷◌, ◌++◌, some, length, concat, arith, get_elem?}
use rust_dfs.Base.{ok}
use rust_dfs.Base.Text.{Bytes, Text, text}
use rust_dfs.Base.Paths.{PathBuf, join, parent, parent-join, join-join_ne, IsPlain}
use rust_dfs.Domain.{FileMetadata, PendingDownloadRecord}
use rust_dfs.Store.Codec.{Cbor}
use rust_dfs.Processing.Fs.{Fs, IsReliable}
use rust_dfs.Processing.Fs
use rust_dfs.Processing.Split.{chunk_path, chunk_name}
use rust_dfs.Processing.Split.Names.{NoSlash, chunk_name-IsPlain}
use rust_dfs.Processing.Publish.{metadata_file_name}
use rust_dfs.Processing.Restore.{copy_chunks, write_original, restore_original_file}

module _ (fs : Fs) (L : Fs.IsLawful fs) (R : IsReliable fs) (codec : Cbor FileMetadata) where
  -- The files of `m`, from number `i` on, hold `cs`.
  abbrev Holds : FileMetadata → ℕ → List Bytes → fs.State → Type 0
  Holds m i cs s =
      (j : ℕ) (c : Bytes)
      → get_elem? cs j ≡ some c
      → fs.read (chunk_path m.chunks_dir (i + j) m.chunk_file_extension) s ≡ ok c

  copy_chunks_lem :
      (m : FileMetadata) (i : ℕ) (cs : List Bytes) (w : fs.Writer) (s : fs.State)
      → Holds m i cs s
      → ((j : ℕ) → chunk_path m.chunks_dir j m.chunk_file_extension ≢ L.target w)
      → (w' : fs.Writer) × ((copy_chunks fs codec m (length cs) i w s).0 ≡ ok w')
        × (L.target w' ≡ L.target w)
        × (L.written w' ≡ L.written w ++ concat cs)
  unfolding copy_chunks
  copy_chunks_lem m i [] w s held apart = (w, refl, refl, sym (append-nil (L.written w)))
  copy_chunks_lem m i (c ∷ cs) w s held apart =
      let here : fs.read (chunk_path m.chunks_dir i m.chunk_file_extension) s ≡ ok c =
        rw add-zero at (held 0 c refl) in
      let (w₁, done) = R.write_all_ok w c s in
      let (same, more) = L.write_all_appends w c s done in
      let (w', e, t, b) =
        copy_chunks_lem m (suc i) cs w₁ (fs.write_all w c s).1
          (λ j d found.
            L.read-write_all_ne w c _ s (apart (suc i + j))
            ∙ subst (λ k. fs.read (chunk_path m.chunks_dir k m.chunk_file_extension) s ≡ ok d)
                (omega arith) (held (suc j) d found))
          (λ j. rw same (apart j)) in
      (
        w',
        ground (arith, here, done, e),
        t ∙ same,
        b ∙ ap (λ x. x ++ concat cs) more ∙ append_assoc (L.written w) c (concat cs),
      )

  module _ (m : FileMetadata) (tmp file_path : PathBuf) (s s₂ : fs.State) (w w' : fs.Writer) where
    write_original_steps :
        (fs.create tmp s).0 ≡ ok w
        → copy_chunks fs codec m m.total_chunks 0 w (fs.create tmp s).1 ≡ (ok w', s₂)
        → write_original fs codec m tmp file_path s
          ≡ (ok m, (fs.rename tmp file_path (fs.flush w' s₂).1).1)
    unfolding write_original
    write_original_steps made copied =
        ground (arith, made, copied, R.flush_ok w' s₂, R.rename_ok tmp file_path (fs.flush w' s₂).1)

    renamed :
        (bytes : Bytes)
        → L.target w' ≡ tmp
        → L.written w' ≡ bytes
        → fs.read file_path (fs.rename tmp file_path (fs.flush w' s₂).1).1 ≡ ok bytes
    renamed bytes at_tmp all =
        L.read-rename tmp file_path (fs.flush w' s₂).1 (R.rename_ok tmp file_path _)
        ∙ ap (λ p. fs.read p (fs.flush w' s₂).1) (sym at_tmp)
        ∙ L.read-flush w' s₂ (R.flush_ok w' s₂)
        ∙ ap ok all

  -- The new file has what the chunks hold, in their order.
  write_original_lem :
      (m : FileMetadata) (cs : List Bytes) (tmp file_path : PathBuf) (s : fs.State)
      → length cs ≡ m.total_chunks
      → Holds m 0 cs s
      → ((j : ℕ) → chunk_path m.chunks_dir j m.chunk_file_extension ≢ tmp)
      → ((write_original fs codec m tmp file_path s).0 ≡ ok m)
        × (fs.read file_path (write_original fs codec m tmp file_path s).1 ≡ ok (concat cs))
  write_original_lem m cs tmp file_path s total held apart =
      let (w, made) = R.create_ok tmp s in
      let (at_tmp, nothing) = L.create_new tmp s made in
      let (w', copied, at_w, all) =
        copy_chunks_lem m 0 cs w (fs.create tmp s).1
          (λ j d found. L.read-create_ne tmp _ s (apart (0 + j)) ∙ held j d found)
          (λ j e. apart j (e ∙ at_tmp)) in
      let run = λ (n : ℕ). copy_chunks fs codec m n 0 w (fs.create tmp s).1 in
      let copied' : run m.total_chunks ≡ (ok w', (run m.total_chunks).1) =
        ap (λ r. (r, (run m.total_chunks).1)) (ap (λ n. (run n).0) (sym total) ∙ copied) in
      let steps = write_original_steps m tmp file_path s (run m.total_chunks).1 w w' made copied' in
      (
        ap (λ t. t.0) steps,
        ap (λ t. fs.read file_path t.1) steps
            ∙ renamed m tmp file_path s (run m.total_chunks).1 w w' (concat cs) (at_w ∙ at_tmp)
                (all ∙ ap (λ x. x ++ concat cs) nothing),
      )

  restore_steps :
      (r : PendingDownloadRecord) (m : FileMetadata) (base : PathBuf) (bytes : Bytes) (s : fs.State)
      → fs.read (join r.chunks_dir metadata_file_name) s ≡ ok bytes
      → codec.from_slice bytes ≡ ok m
      → parent m.chunks_dir ≡ some base
      → fs.try_exists (join base m.original_file_name) s ≡ ok false
      → restore_original_file fs codec r s
        ≡ write_original fs codec m
            (join base (m.original_file_name ++ text ".part"))
            (join base m.original_file_name)
            s
  unfolding restore_original_file
  restore_steps r m base bytes s stored decoded above absent = rw (stored, decoded, above, absent)

  -- If no write fails and there is no file of that name yet, the restored file stands beside the
  -- directory of the chunks and holds the chunks `0` to `total_chunks - 1` one after the other. The
  -- metadata must be readable and all these chunks be in their files, the extension must have no
  -- slash, and the names of the directory and of the `.part` file must be plain.
  pub restore_original_file_lem :
      (r : PendingDownloadRecord) (m : FileMetadata) (base : PathBuf) (sub : Text) (bytes : Bytes)
      (cs : List Bytes) (s : fs.State)
      → fs.read (join r.chunks_dir metadata_file_name) s ≡ ok bytes
      → codec.from_slice bytes ≡ ok m
      → m.chunks_dir ≡ join base sub
      → IsPlain sub
      → IsPlain (m.original_file_name ++ text ".part")
      → NoSlash m.chunk_file_extension
      → fs.try_exists (join base m.original_file_name) s ≡ ok false
      → length cs ≡ m.total_chunks
      → Holds m 0 cs s
      → ((restore_original_file fs codec r s).0 ≡ ok m)
        × (fs.read (join base m.original_file_name) (restore_original_file fs codec r s).1
            ≡ ok (concat cs))
  unfolding chunk_path
  restore_original_file_lem r m base sub bytes cs s stored decoded dir plain part plain_ext absent
        total held =
      let above : parent m.chunks_dir ≡ some base = ap parent dir ∙ parent-join base sub plain in
      let tmp : PathBuf = join base (m.original_file_name ++ text ".part") in
      let (done, content) =
        write_original_lem m cs tmp (join base m.original_file_name) s total held λ j e.
          join-join_ne base sub _ _ plain (chunk_name-IsPlain j m.chunk_file_extension plain_ext)
            part (sym (chunk_path-of dir j) ∙ e) in
      let steps = restore_steps r m base bytes s stored decoded above absent in
      (
        ap (λ t. t.0) steps ∙ done,
        ap (λ t. fs.read (join base m.original_file_name) t.1) steps ∙ content,
      )
    where
      chunk_path-of :
          {d : PathBuf}
          → m.chunks_dir ≡ d
          → (j : ℕ)
          → chunk_path m.chunks_dir j m.chunk_file_extension
            ≡ join d (chunk_name j m.chunk_file_extension)
      chunk_path-of e j = ap (λ q. join q (chunk_name j m.chunk_file_extension)) e
