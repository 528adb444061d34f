-- ===== src/Processing/Fs.antt =====
-- The file system, through the calls of tokio::fs and std::fs that the program makes. Errors are
-- their messages.
use rust_dfs.Base.{ℕ, ◌≤◌, ◌≡◌, ◌≢◌, ◌⊎◌, Bool, true, [], ◌++◌, Result, ok, Exec, length}
use rust_dfs.Base.Text.{Bytes, Text}
use rust_dfs.Base.Paths.{PathBuf}

-- What `metadata` tells: `is_file`, `is_dir`.
pub data FileKind : Type 0 where
  file dir special : FileKind

pub record Fs : Type 1 where
  pub State : Type 0
  pub metadata : PathBuf → State → Result Text FileKind
  pub try_exists : PathBuf → State → Result Text Bool
  pub create_dir_all : PathBuf → Exec State Text Unit
  pub read : PathBuf → State → Result Text Bytes
  pub write : PathBuf → Bytes → Exec State Text Unit
  pub rename : PathBuf → PathBuf → Exec State Text Unit
  -- `File::create` under a `BufWriter`
  pub Writer : Type 0
  pub create : PathBuf → Exec State Text Writer
  pub write_all : Writer → Bytes → Exec State Text Writer
  pub flush : Writer → Exec State Text Unit
  -- `File::open` under a `BufReader`; a read is given the room that the buffer has left
  pub Reader : Type 0
  pub open_file : PathBuf → State → Result Text Reader
  pub read_some : Reader → ℕ → Result Text (Bytes × Reader)

-- Different paths are different files. `rest` is what a reader has yet to read, `written` what a
-- writer was given for its file `target`.
pub record IsLawful (fs : Fs) : Type 0 where
  pub read-write :
      (p : PathBuf) (b : Bytes) (s : fs.State)
      → (fs.write p b s).0 ≡ ok tt
      → fs.read p (fs.write p b s).1 ≡ ok b
  pub read-write_ne :
      (p : PathBuf) (b : Bytes) (q : PathBuf) (s : fs.State)
      → q ≢ p
      → fs.read q (fs.write p b s).1 ≡ fs.read q s
  pub read-create_dir_all :
      (p q : PathBuf) (s : fs.State) {b : Bytes}
      → fs.read q s ≡ ok b
      → fs.read q (fs.create_dir_all p s).1 ≡ ok b
  pub exists_of_read :
      (p : PathBuf) (s : fs.State) {b : Bytes} → fs.read p s ≡ ok b → fs.try_exists p s ≡ ok true
  pub read-rename :
      (p q : PathBuf) (s : fs.State)
      → (fs.rename p q s).0 ≡ ok tt
      → fs.read q (fs.rename p q s).1 ≡ fs.read p s
  pub target : fs.Writer → PathBuf
  pub written : fs.Writer → Bytes
  pub create_new :
      (p : PathBuf) (s : fs.State) {w : fs.Writer}
      → (fs.create p s).0 ≡ ok w
      → (target w ≡ p) × (written w ≡ [])
  pub read-create_ne :
      (p q : PathBuf) (s : fs.State) → q ≢ p → fs.read q (fs.create p s).1 ≡ fs.read q s
  pub write_all_appends :
      (w : fs.Writer) (b : Bytes) (s : fs.State) {w' : fs.Writer}
      → (fs.write_all w b s).0 ≡ ok w'
      → (target w' ≡ target w) × (written w' ≡ written w ++ b)
  pub read-write_all_ne :
      (w : fs.Writer) (b : Bytes) (q : PathBuf) (s : fs.State)
      → q ≢ target w
      → fs.read q (fs.write_all w b s).1 ≡ fs.read q s
  pub read-flush :
      (w : fs.Writer) (s : fs.State)
      → (fs.flush w s).0 ≡ ok tt
      → fs.read (target w) (fs.flush w s).1 ≡ ok (written w)
  pub read-flush_ne :
      (w : fs.Writer) (q : PathBuf) (s : fs.State)
      → q ≢ target w
      → fs.read q (fs.flush w s).1 ≡ fs.read q s
  pub rest : fs.Reader → Bytes
  pub rest_of_open :
      (p : PathBuf) (s : fs.State) {r : fs.Reader}
      → fs.open_file p s ≡ ok r
      → fs.read p s ≡ ok (rest r)
  -- a read of nothing means that the buffer is full or the file at its end
  pub read_some_next :
      (r : fs.Reader) (n : ℕ) {b : Bytes} {r' : fs.Reader}
      → fs.read_some r n ≡ ok (b, r')
      → (b ++ rest r' ≡ rest r) × (length b ≤ n) × (b ≡ [] → (n ≡ 0) ⊎ (rest r ≡ []))

-- No call that writes, or reads from an open file, fails.
pub record IsReliable (fs : Fs) : Type 0 where
  pub write_ok : (p : PathBuf) (b : Bytes) (s : fs.State) → (fs.write p b s).0 ≡ ok tt
  pub create_dir_all_ok : (p : PathBuf) (s : fs.State) → (fs.create_dir_all p s).0 ≡ ok tt
  pub rename_ok : (p q : PathBuf) (s : fs.State) → (fs.rename p q s).0 ≡ ok tt
  pub create_ok : (p : PathBuf) (s : fs.State) → (w : fs.Writer) × ((fs.create p s).0 ≡ ok w)
  pub write_all_ok :
      (w : fs.Writer) (b : Bytes) (s : fs.State)
      → (w' : fs.Writer) × ((fs.write_all w b s).0 ≡ ok w')
  pub flush_ok : (w : fs.Writer) (s : fs.State) → (fs.flush w s).0 ≡ ok tt
  pub read_some_ok :
      (r : fs.Reader) (n : ℕ) → (b : Bytes) × (r' : fs.Reader) × (fs.read_some r n ≡ ok (b, r'))
