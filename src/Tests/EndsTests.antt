-- ===== src/Tests/EndsTests.antt =====
-- A file of five bytes, and one without a byte.
use native.Mathlib.Decide.{ℕ_discrete}
use rust_dfs.Base.{◌≡◌, refl, true, none, some, [], ◌∷◌, arith, ok}
use rust_dfs.Base.Text.{text}
use rust_dfs.Base.Paths.{path_of, parent, file_name}
use rust_dfs.Domain.{FileMetadata}
use rust_dfs.Processing.Fs.{file}
use rust_dfs.Processing.Split.{chunk_size}
use rust_dfs.Processing.Split.Chunks.{chunks}
use rust_dfs.Processing.Publish.{process_file}
use rust_dfs.Processing.Publish.Ends.{IsOnDisk, process_file_ends}
use rust_dfs.Tests.Files.{
  memory_fs, memory_fs-IsLawful, memory_fs-IsReliable, Disk, update, PathBuf-discrete,
}
use rust_dfs.Tests.Hashes.{plain_merkle, plain_merkle-IsLawful}
use rust_dfs.Tests.StoreTests.{hello, downloads_dir}
use rust_dfs.Tests.DownloadTests.{one_codec}
use rust_dfs.Tests.PublishTests.{original, opened}

pub regular : memory_fs.metadata (path_of (text "/d/f")) original ≡ ok file
unfolding path_of PathBuf-discrete ℕ_discrete
regular = refl

pub above : parent (path_of (text "/d/f")) ≡ some downloads_dir
unfolding path_of parent
above = refl

pub named : file_name (path_of (text "/d/f")) ≡ some (text "f")
unfolding path_of file_name
named = refl

process_file_ends_example :
    (m : FileMetadata) × ((process_file memory_fs one_codec plain_merkle 9
        (text "/d/f")
        true
        original).0
      ≡ ok m)
    × IsOnDisk memory_fs memory_fs-IsLawful memory_fs-IsReliable one_codec plain_merkle
        plain_merkle-IsLawful m
        (chunks 9 chunk_size hello)
        (process_file memory_fs one_codec plain_merkle 9 (text "/d/f") true original).1
process_file_ends_example =
    process_file_ends memory_fs memory_fs-IsLawful memory_fs-IsReliable one_codec plain_merkle
      plain_merkle-IsLawful 9 (text "/d/f") downloads_dir (text "f") hello true original regular
      opened above named (omega arith) (λ e. cc) (λ m. ([], refl))

abbrev blank : Disk
blank =
    update (λ p. none) (record { absolute = true; components = text "d" ∷ text "f" ∷ [] }) (some [])

blank_regular : memory_fs.metadata (path_of (text "/d/f")) blank ≡ ok file
unfolding path_of PathBuf-discrete ℕ_discrete
blank_regular = refl

blank_opened : memory_fs.open_file (path_of (text "/d/f")) blank ≡ ok []
unfolding path_of PathBuf-discrete ℕ_discrete
blank_opened = refl
