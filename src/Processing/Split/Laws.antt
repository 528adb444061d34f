-- ===== src/Processing/Split/Laws.antt =====
-- What `split` of src/app/file_processing/processing.rs leaves on disk and returns.
use mathlib.Core.List.{append_assoc, append-nil}
use native.Mathlib.Nat.{add-zero, zero-add}
use mathlib.Core.Option.{some-injective}
use rust_dfs.Base.{ℕ, zero, suc, ◌+◌, ◌≤◌, ◌<◌, ◌≡◌, ◌≢◌, refl, sym, ap, subst, ◌∙◌, inl, inr}
use rust_dfs.Base.{
  List, [], ◌∷◌, ◌++◌, map, length, concat, length-append, length-take, length-drop, arith,
  get_elem?,
}
use rust_dfs.Base.{Result-cases, some, ok}
use rust_dfs.Base.Text.{Bytes}
use rust_dfs.Base.Paths.{PathBuf}
use rust_dfs.Processing.Fs.{Fs, IsReliable}
use rust_dfs.Processing.Fs
use rust_dfs.Processing.Merkle.{Merkle}
use rust_dfs.Processing.Split.{
  fill, split_loop, split, chunk_path, chunk_size, file_chunk_extension,
}
use rust_dfs.Processing.Split.Fill.{fill-take, fill_ok}
use rust_dfs.Processing.Split.Chunks.{chunks, concat-chunks, chunks-nil, chunks-cons}
use rust_dfs.Processing.Split.Names.{chunk_path-injective}

module _ (fs : Fs) (L : Fs.IsLawful fs) (M : Merkle) (size : ℕ) (dir : PathBuf)
    (positive : 0 < size) where
  abbrev path : ℕ → PathBuf
  path i = chunk_path dir i file_chunk_extension

  path_ne : (i j : ℕ) → i < j → path i ≢ path j
  path_ne i j h e =
      absurd (omega (arith, chunk_path-injective dir i j file_chunk_extension (omega arith) e))

  -- The loop appends the hashes of the chunks, and writes no file but theirs.
  record Splits (rounds : ℕ) (r : fs.Reader) (leaves out : List Bytes) (s s' : fs.State)
      : Type 0 where
    hashes : out ≡ leaves ++ map M.hash (chunks rounds size (L.rest r))
    written :
        (i : ℕ) (c : Bytes)
        → get_elem? (chunks rounds size (L.rest r)) i ≡ some c
        → fs.read (path (length leaves + i)) s' ≡ ok c
    kept : (q : PathBuf) → ((j : ℕ) → length leaves ≤ j → q ≢ path j) → fs.read q s' ≡ fs.read q s

  length-snoc : (leaves : List Bytes) (h : Bytes) → length (leaves ++ h ∷ []) ≡ suc (length leaves)
  length-snoc leaves h = omega (arith, length-append leaves (h ∷ []))

  -- The chunk just written, and those after it.
  written_then :
      (leaves : List Bytes) (c : Bytes) (more : List Bytes) (s : fs.State)
      → fs.read (path (length leaves)) s ≡ ok c
      → ((i : ℕ) (d : Bytes)
          → get_elem? more i ≡ some d
          → fs.read (path (length (leaves ++ M.hash c ∷ []) + i)) s ≡ ok d)
      → (i : ℕ) (d : Bytes) → get_elem? (c ∷ more) i ≡ some d
      → fs.read (path (length leaves + i)) s ≡ ok d
  written_then leaves c more s first later zero d e =
      rw (add-zero, some-injective _ _ (sym e)) first
  written_then leaves c more s first later (suc i) d e =
      subst (λ k. fs.read (path k) s ≡ ok d) (omega (arith, length-snoc leaves (M.hash c)))
        (later i d e)

  Splits-step :
      (rounds : ℕ) (r r' : fs.Reader) (leaves out : List Bytes) (b : ℕ) (bs : Bytes)
      (s s' : fs.State)
      → fill fs size size r [] ≡ ok (b ∷ bs, r')
      → (fs.write (path (length leaves)) (b ∷ bs) s).0 ≡ ok tt
      → Splits rounds r'
          (leaves ++ M.hash (b ∷ bs) ∷ [])
          out
          (fs.write (path (length leaves)) (b ∷ bs) s).1
          s'
      → Splits (suc rounds) r leaves out s s'
  Splits-step rounds r r' leaves out b bs s s' filled done ih =
      let (piece, left) = fill-take fs L size r (b ∷ bs) r' filled in
      let pieces : chunks (suc rounds) size (L.rest r) ≡ (b ∷ bs) ∷ chunks rounds size (L.rest r') =
        chunks-cons rounds size (L.rest r) (sym piece)
        ∙ ap (λ t. (b ∷ bs) ∷ chunks rounds size t) (sym left) in
      let after : ℕ = length (leaves ++ M.hash (b ∷ bs) ∷ []) in
      let first : fs.read (path (length leaves)) s' ≡ ok (b ∷ bs) =
        ih.kept (path (length leaves))
          (λ j le. path_ne (length leaves) j (omega (arith, length-snoc leaves (M.hash (b ∷ bs)))))
        ∙ L.read-write (path (length leaves)) (b ∷ bs) s done in
      record {
        hashes = rw pieces (ih.hashes ∙ append_assoc leaves (M.hash (b ∷ bs) ∷ []) _);
        written = rw pieces (written_then leaves (b ∷ bs) _ s' first ih.written);
        kept = λ q other.
            ih.kept q (λ j le. other j (omega (arith, length-snoc leaves (M.hash (b ∷ bs)))))
            ∙ L.read-write_ne _ (b ∷ bs) q s (other (length leaves) (omega arith));
      }

  Splits-end :
      (rounds : ℕ) (r r' : fs.Reader) (leaves out : List Bytes) (s : fs.State)
      → fill fs size size r [] ≡ ok ([], r')
      → leaves ≡ out
      → Splits (suc rounds) r leaves out s s
  Splits-end rounds r r' leaves out s filled e =
      let (piece, left) = fill-take fs L size r [] r' filled in
      let none_left : chunks (suc rounds) size (L.rest r) ≡ [] =
        chunks-nil (suc rounds) size (L.rest r) (sym piece) positive in
      record {
        hashes = rw none_left (sym e ∙ sym (append-nil leaves));
        written = λ i c found. cc (rw none_left at found);
        kept = λ q other. refl;
      }

  split_loop-Splits :
      (rounds : ℕ) (r : fs.Reader) (leaves out : List Bytes) (s : fs.State)
      → (split_loop fs M size dir rounds r leaves s).0 ≡ ok out
      → Splits rounds r leaves out s (split_loop fs M size dir rounds r leaves s).1
  unfolding split_loop
  split_loop-Splits zero r leaves out s e = cc
  split_loop-Splits (suc rounds) r leaves out s e = elim (Result-cases (fill fs size size r [])) [
    | inr (_, bad) ↦ absurd (ground arith)
    | inl (([], r'), got) ↦
        rw (got, split_loop) (Splits-end rounds r r' leaves out s got (ground arith))
    | inl ((b ∷ bs, r'), got) ↦ elim (Result-cases (fs.write (path (length leaves)) (b ∷ bs) s).0) [
      | inl (tt, done) ↦
          rw (got, split_loop, done)
            (Splits-step rounds r r' leaves out b bs s _ got done
              (split_loop-Splits rounds r' _ out _ (ground arith)))
      | inr (_, bad) ↦ absurd (ground arith)
    ]
  ]

  -- With a round for each byte and one more the loop comes to the end of the file.
  split_loop_ok :
      IsReliable fs
      → (rounds : ℕ) (r : fs.Reader) (leaves : List Bytes) (s : fs.State)
      → length (L.rest r) < rounds
      → (out : List Bytes) × ((split_loop fs M size dir rounds r leaves s).0 ≡ ok out)
  unfolding split_loop
  split_loop_ok R zero r leaves s h = elim h [ ]
  split_loop_ok R (suc rounds) r leaves s h =
      let (piece, r', got) = fill_ok fs R size size r [] in
      go piece r' got (λ more. split_loop_ok R rounds r' more)
    where
      go :
          (piece : Bytes) (r' : fs.Reader)
          → fill fs size size r [] ≡ ok (piece, r')
          → ((more : List Bytes) (t : fs.State)
              → length (L.rest r') < rounds
              → (out : List Bytes) × ((split_loop fs M size dir rounds r' more t).0 ≡ ok out))
          → (out : List Bytes) × ((split_loop fs M size dir (suc rounds) r leaves s).0 ≡ ok out)
      go [] r' got ih = (leaves, rw (got, split_loop))
      go (b ∷ bs) r' got ih =
          let (piece, left) = fill-take fs L size r (b ∷ bs) r' got in
          let done = R.write_ok (path (length leaves)) (b ∷ bs) s in
          let sizes : length (L.rest r') < rounds = omega (
            arith,
            ap length piece,
            ap length left,
            length-take size (L.rest r),
            length-drop size (L.rest r),
          ) in
          let (out, e) =
            ih (leaves ++ M.hash (b ∷ bs) ∷ []) (fs.write (path (length leaves)) (b ∷ bs) s).1
              sizes in
          (out, rw (got, split_loop, done) e)

module _ (fs : Fs) (L : Fs.IsLawful fs) (R : IsReliable fs) (M : Merkle) where
  split_all :
      (rounds : ℕ) (r : fs.Reader) (dir : PathBuf) (s : fs.State)
      → length (L.rest r) < rounds
      → ((split fs M rounds r dir s).0 ≡ ok (map M.hash (chunks rounds chunk_size (L.rest r))))
        × (concat (chunks rounds chunk_size (L.rest r)) ≡ L.rest r)
        × ((i : ℕ) (c : Bytes)
            → get_elem? (chunks rounds chunk_size (L.rest r)) i ≡ some c
            → fs.read (chunk_path dir i file_chunk_extension) (split fs M rounds r dir s).1 ≡ ok c)
        × ((q : PathBuf)
            → ((j : ℕ) → q ≢ chunk_path dir j file_chunk_extension)
            → fs.read q (split fs M rounds r dir s).1 ≡ fs.read q s)
  unfolding split chunk_size
  split_all rounds r dir s h =
      let (out, e) = split_loop_ok fs L M chunk_size dir (omega arith) R rounds r [] s h in
      let all = split_loop-Splits fs L M chunk_size dir (omega arith) rounds r [] out s e in
      (
        rw (← all.hashes) e,
        concat-chunks rounds chunk_size (L.rest r) (omega arith) (omega arith),
        λ i c found. rw (zero-add i) at (all.written i c found),
        λ q other. all.kept q (λ j _. other j),
      )

  -- If no read or write fails and there is a round more than bytes, `split` ends, whatever sizes the
  -- single reads have: it returns the hashes of the consecutive pieces of one MiB, and
  -- the pieces put together are the file.
  pub split_ends :
      (rounds : ℕ) (r : fs.Reader) (dir : PathBuf) (s : fs.State)
      → length (L.rest r) < rounds
      → ((split fs M rounds r dir s).0 ≡ ok (map M.hash (chunks rounds chunk_size (L.rest r))))
        × (concat (chunks rounds chunk_size (L.rest r)) ≡ L.rest r)
  split_ends rounds r dir s h =
      let (hashes, joined, _, _) = split_all rounds r dir s h in (hashes, joined)

  -- If no read or write fails and there is a round more than bytes, piece `i` of the file is what the file `i.chunk` of the directory
  -- holds afterwards.
  pub split_writes :
      (rounds : ℕ) (r : fs.Reader) (dir : PathBuf) (s : fs.State) (i : ℕ) (c : Bytes)
      → length (L.rest r) < rounds
      → get_elem? (chunks rounds chunk_size (L.rest r)) i ≡ some c
      → fs.read (chunk_path dir i file_chunk_extension) (split fs M rounds r dir s).1 ≡ ok c
  split_writes rounds r dir s i c h =
      let (_, _, written, _) = split_all rounds r dir s h in written i c

  -- If no read or write fails and there is a round more than bytes, a file that is no chunk of that
  -- directory keeps its content.
  pub split_keeps :
      (rounds : ℕ) (r : fs.Reader) (dir : PathBuf) (s : fs.State) (q : PathBuf)
      → length (L.rest r) < rounds
      → ((j : ℕ) → q ≢ chunk_path dir j file_chunk_extension)
      → fs.read q (split fs M rounds r dir s).1 ≡ fs.read q s
  split_keeps rounds r dir s q h = let (_, _, _, kept) = split_all rounds r dir s h in kept q
