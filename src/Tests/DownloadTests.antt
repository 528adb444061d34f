-- ===== src/Tests/DownloadTests.antt =====
-- A download of one chunk and what comes of it, in memory.
use native.Mathlib.Decide.{ℕ_discrete}
use rust_dfs.Base.{
  ◌<◌, ℕ, ◌≡◌, ◌≢◌, refl, true, some, none, List, [], ◌∷◌, ◌++◌, arith, ok, get_elem?,
}
use rust_dfs.Base.Text.{Bytes, text}
use rust_dfs.Base.Sets.{contains, insert, IsReordering}
use rust_dfs.Base.Paths.{join, IsPlain}
use rust_dfs.Base.Decimal.{show_nat}
use rust_dfs.Domain.{FileMetadata, DownloadFileChunk, success}
use rust_dfs.Store.Codec.{Cbor}
use rust_dfs.Processing.Split.{chunk_path}
use rust_dfs.Processing.Split.Names.{NoSlash}
use rust_dfs.Processing.Publish.{metadata_file_name}
use rust_dfs.Download.Verify.{verify_chunk, IsTreeOf}
use rust_dfs.Download.Chunk.{Answers, download_file_chunk}
use rust_dfs.Download.Service.Download.{download, run_task}
use rust_dfs.Download.Service.Laws.Live.{download_ends}
use rust_dfs.Download.Service.Laws.Run.{IsTrusted}
use rust_dfs.Download.Service.Laws.Complete.{download_complete}
use rust_dfs.Tests.Files.{
  memory_fs, Disk, update, PathBuf-discrete, memory_fs-IsLawful, memory_fs-IsReliable,
}
use rust_dfs.Tests.Hashes.{plain_merkle, plain_merkle-IsLawful}
use rust_dfs.Tests.StoreTests.{
  memory_store, no_rows, sample_pending, sample_metadata, chunks_dir, downloads_dir, hello,
}

abbrev pub one_codec : Cbor FileMetadata
one_codec = record { to_vec = λ m. ok []; from_slice = λ bytes. ok sample_metadata }

abbrev pub started : Disk
started = update (λ p. none) (join chunks_dir metadata_file_name) (some [])

abbrev hello_sent : Answers
hello_sent = record { request_sent = true; answer = ok (some (success hello)); provide_sent = true }

abbrev first_chunk : DownloadFileChunk
first_chunk = record { file_id = 7; chunk_id = 0; target_dir = chunks_dir }

abbrev pub pieces : List Bytes
pieces = hello ∷ []

pub tree : IsTreeOf plain_merkle sample_metadata.merkle_root sample_metadata.total_chunks pieces
tree = record { root_of = refl; total_of = refl }

pub chunk_extension : NoSlash (text "chunk")
chunk_extension = (omega arith, (omega arith, (omega arith, (omega arith, (omega arith, tt)))))

pub in_order-IsReordering : IsReordering (λ xs. xs)
in_order-IsReordering = record { same_members = λ xs i. refl; still_distinct = λ xs h. h }

not_here : (i : ℕ) → contains [] i ≢ true
unfolding contains
not_here i e = cc e

pub trusted :
    IsTrusted memory_fs memory_fs-IsLawful memory_store one_codec plain_merkle plain_merkle-IsLawful
      sample_metadata pieces tree chunk_extension sample_pending started
unfolding PathBuf-discrete ℕ_discrete join
trusted = record {
  has_metadata = ([], refl, refl);
  distinct = tt;
  held = λ i member. absurd (not_here i member);
}

abbrev pub answers : ℕ → Answers
answers i = hello_sent

complete :
    (download memory_fs memory_store one_codec plain_merkle
      (λ xs. xs)
      answers
      sample_pending
      started
      no_rows).0
    ≡ ok true
unfolding download run_task download_file_chunk PathBuf-discrete ℕ_discrete chunk_path join show_nat
    verify_chunk contains insert
complete = refl

download_complete_example :
    memory_fs.read
      (chunk_path chunks_dir 0 (text "chunk"))
      (download memory_fs memory_store one_codec plain_merkle
        (λ xs. xs)
        answers
        sample_pending
        started
        no_rows).1.files
    ≡ ok hello
download_complete_example =
    download_complete memory_fs memory_fs-IsLawful memory_store one_codec plain_merkle
      plain_merkle-IsLawful sample_metadata pieces tree chunk_extension (λ xs. xs)
      in_order-IsReordering answers sample_pending started no_rows trusted refl complete 0 hello
      refl

pub IsPlain-sub : IsPlain (text "f_chunks")
IsPlain-sub = record {
  no_slash = (
    omega arith,
    (
      omega arith,
      (omega arith, (omega arith, (omega arith, (omega arith, (omega arith, (omega arith, tt)))))),
    ),
  );
  not_empty = λ e. cc;
  not_dot = λ e. cc;
}

pub IsPlain-part : IsPlain (text "f" ++ text ".part")
IsPlain-part = record {
  no_slash =
      (omega arith, (omega arith, (omega arith, (omega arith, (omega arith, (omega arith, tt))))));
  not_empty = λ e. cc;
  not_dot = λ e. cc;
}

pub below : chunks_dir ≡ join downloads_dir (text "f_chunks")
unfolding join
below = refl

has_proofs : (i : ℕ) → i < 1 → get_elem? sample_metadata.merkle_proofs i ≡ some (i ∷ [])
has_proofs ℕ.zero h = refl
has_proofs (ℕ.suc i) h = absurd (omega arith)

pub all_served :
    (i : ℕ)
    → i < 1
    → (c : Bytes) × (get_elem? pieces i ≡ some c)
      × (answers i
          ≡ record { request_sent = true; answer = ok (some (success c)); provide_sent = true })
all_served ℕ.zero h = (hello, refl, refl)
all_served (ℕ.suc i) h = absurd (omega arith)

download_ends_example :
    (download memory_fs memory_store one_codec plain_merkle
      (λ xs. xs)
      answers
      sample_pending
      started
      no_rows).0
    ≡ ok true
download_ends_example =
    download_ends memory_fs memory_fs-IsLawful memory_fs-IsReliable memory_store one_codec
      plain_merkle plain_merkle-IsLawful sample_metadata pieces tree chunk_extension has_proofs
      answers all_served (λ xs. xs) in_order-IsReordering sample_pending started no_rows refl
      trusted
