-- ===== src/Tests/SplitTests.antt =====
-- Cutting a file into chunks, in memory.
use native.Mathlib.Decide.{ℕ_discrete}
use rust_dfs.Base.{◌≡◌, refl, true, some, none, [], ◌∷◌, arith, map, concat, ok}
use rust_dfs.Base.Text.{Bytes, text}
use rust_dfs.Base.Paths.{PathBuf, join}
use rust_dfs.Base.Decimal.{show_nat}
use rust_dfs.Processing.Split.{split, chunk_path, chunk_size, file_chunk_extension}
use rust_dfs.Processing.Split.Names.{NoSlash}
use rust_dfs.Processing.Split.Chunks.{chunks}
use rust_dfs.Processing.Split.Laws.{split_ends}
use rust_dfs.Tests.Files.{
  memory_fs, Disk, PathBuf-discrete, memory_fs-IsLawful, memory_fs-IsReliable,
}
use rust_dfs.Tests.Hashes.{plain_merkle}

abbrev empty_disk : Disk
empty_disk p = none

abbrev chunks_dir : PathBuf
chunks_dir = record { absolute = true; components = text "d" ∷ text "f_chunks" ∷ [] }

abbrev hello : Bytes
hello = text "hello"

split-hello : (split memory_fs plain_merkle 9 hello chunks_dir empty_disk).0 ≡ ok (hello ∷ [])
unfolding split
split-hello = refl

split-hello_file :
    (split memory_fs plain_merkle 9 hello chunks_dir empty_disk).1
      (join chunks_dir (text "0.chunk"))
    ≡ some hello
unfolding split PathBuf-discrete ℕ_discrete chunk_path join show_nat
split-hello_file = refl

split_ends_example :
    ((split memory_fs plain_merkle 9 hello chunks_dir empty_disk).0
      ≡ ok (map (λ b. b) (chunks 9 chunk_size hello)))
    × (concat (chunks 9 chunk_size hello) ≡ hello)
split_ends_example =
    split_ends memory_fs memory_fs-IsLawful memory_fs-IsReliable plain_merkle 9 hello chunks_dir
      empty_disk (omega arith)

chunks_plain : NoSlash file_chunk_extension
chunks_plain = (omega arith, (omega arith, (omega arith, (omega arith, (omega arith, tt)))))
