-- ===== src/Processing/Directory.antt =====
-- `ensure_dir_exists_or_create` of src/app/utils.rs. The path in its message is left out.
use rust_dfs.Base.{◌≡◌, true, false, if◌then◌else◌, arith, Result-cases, inl, inr}
use rust_dfs.Base.{ok, Exec, pure, fail, query, ◌>>=◌}
use rust_dfs.Base.Text.{Bytes, Text, text}
use rust_dfs.Base.Paths.{PathBuf}
use rust_dfs.Processing.Fs.{Fs}
use rust_dfs.Processing.Fs
use rust_dfs.Processing.Publish.{is_dir}

unfoldable pub ensure_dir_exists_or_create : (fs : Fs) → PathBuf → Exec fs.State Text Unit
ensure_dir_exists_or_create fs path = do
  exists ← query (fs.try_exists path)
  if exists
      then (do
        kind ← query (fs.metadata path)
        if is_dir kind then pure tt else fail (text "is not a directory"))
      else fs.create_dir_all path

-- A file that could be read still can be.
pub read-ensure_dir :
    (fs : Fs) (F : Fs.IsLawful fs) (path q : PathBuf) (s : fs.State) {b : Bytes}
    → fs.read q s ≡ ok b
    → fs.read q (ensure_dir_exists_or_create fs path s).1 ≡ ok b
unfolding ensure_dir_exists_or_create
read-ensure_dir fs F path q s h = elim (Result-cases (fs.try_exists path s)) [
  | inr (_, bad) ↦ ground (arith, bad)
  | inl (true, there) ↦ elim (Result-cases (fs.metadata path s)) [
    | inr (_, bad) ↦ ground (arith, there, bad)
    | inl (kind, known) ↦ ground (arith, there, known)
  ]
  | inl (false, absent) ↦ ground (arith, absent, F.read-create_dir_all path q s h)
]
