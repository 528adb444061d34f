-- ===== src/Tests/RestoreTests.antt =====
-- Restoring a file, and completing a download in the store.
use native.Mathlib.Decide.{ℕ_discrete}
use rust_dfs.Base.{ℕ, ◌≡◌, refl, true, false, some, [], ◌∷◌, arith, ok, ◌+◌, get_elem?}
use rust_dfs.Base.Text.{Bytes, text}
use rust_dfs.Base.Paths.{join, parent}
use rust_dfs.Base.Decimal.{show_nat}
use rust_dfs.Store.Rocksdb.{rocksdb_store}
use rust_dfs.Processing.Split.{chunk_path}
use rust_dfs.Processing.Publish.{metadata_file_name}
use rust_dfs.Processing.Restore.{restore_original_file}
use rust_dfs.Processing.Restore.Laws.{restore_original_file_lem}
use rust_dfs.Download.Service.{process_completed}
use rust_dfs.Tests.Files.{
  memory_fs, Disk, update, PathBuf-discrete, memory_fs-IsLawful, memory_fs-IsReliable,
}
use rust_dfs.Tests.StoreTests.{
  memory_store, no_rows, sample_pending, sample_metadata, chunks_dir, downloads_dir, hello,
  PublishedFileRecord-discrete,
}
use rust_dfs.Tests.DownloadTests.{
  one_codec, started, IsPlain-sub, IsPlain-part, chunk_extension, below,
}

-- The metadata and the only chunk are here.
abbrev pub fetched : Disk
fetched = update started (chunk_path chunks_dir 0 (text "chunk")) (some hello)

has_metadata : memory_fs.read (join chunks_dir metadata_file_name) fetched ≡ ok []
unfolding PathBuf-discrete ℕ_discrete chunk_path join show_nat
has_metadata = refl

absent : memory_fs.try_exists (join downloads_dir (text "f")) fetched ≡ ok false
unfolding PathBuf-discrete ℕ_discrete chunk_path join show_nat
absent = refl

held :
    (j : ℕ) (c : Bytes)
    → get_elem? (hello ∷ []) j ≡ some c
    → memory_fs.read (chunk_path chunks_dir (0 + j) (text "chunk")) fetched ≡ ok c
unfolding PathBuf-discrete ℕ_discrete chunk_path join show_nat
held ℕ.zero c e = ground arith
held (ℕ.suc j) c e = cc

restore_original_file_lem_example :
    ((restore_original_file memory_fs one_codec sample_pending fetched).0 ≡ ok sample_metadata)
    × (memory_fs.read
          (join downloads_dir (text "f"))
          (restore_original_file memory_fs one_codec sample_pending fetched).1
        ≡ ok hello)
restore_original_file_lem_example =
    restore_original_file_lem memory_fs memory_fs-IsLawful memory_fs-IsReliable one_codec
      sample_pending sample_metadata downloads_dir (text "f_chunks") [] (hello ∷ []) fetched
      has_metadata refl below IsPlain-sub IsPlain-part chunk_extension absent refl held

completed :
    (process_completed memory_fs memory_store one_codec true sample_pending (fetched, no_rows)).0
    ≡ ok sample_metadata
unfolding process_completed restore_original_file parent PathBuf-discrete ℕ_discrete chunk_path join
    show_nat rocksdb_store no_rows PublishedFileRecord-discrete
completed = refl
