-- ===== src/Tests/GrpcTests.antt =====
-- A publication, a download and a search that a client asks for.
use native.Mathlib.Decide.{ℕ_discrete}
use rust_dfs.Base.{
  ℕ, ◌≡◌, ◌≢◌, refl, true, false, none, some, inl, List, [], ◌∷◌, arith, map, ok, Bool-cases, inr,
  ◌==◌,
}
use rust_dfs.Base.Text.{text, replace}
use rust_dfs.Base.Sets.{contains}
use rust_dfs.Base.Decimal.{show_nat}
use rust_dfs.Base.Paths.{path_of, parent, file_name, join}
use rust_dfs.Domain.{FileMetadata, FileFound, key, request_metadata}
use rust_dfs.Domain.Keys.{from_u64, to_u64}
use rust_dfs.Store.Rocksdb.{rocksdb_store}
use rust_dfs.Processing.Split.{chunk_path}
use rust_dfs.Processing.Publish.{process_file}
use rust_dfs.Grpc.State.{Display, Node}
use rust_dfs.Grpc.Publish.{publish_file}
use rust_dfs.Grpc.Publish.Laws.{publish_file-queues}
use rust_dfs.Grpc.Download.{Replies, download_file, placed}
use rust_dfs.Grpc.Download.Laws.{IsStarted, download_file-IsStarted}
use rust_dfs.Grpc.Search.{Cache, SearchEvent, message, tick, closed, new_task, search_task}
use rust_dfs.Grpc.Search.Laws.{IsSound, offers, search_task-offers}
use rust_dfs.Tests.Files.{memory_fs, memory_fs-IsLawful, memory_fs-IsReliable, PathBuf-discrete}
use rust_dfs.Tests.Hashes.{plain_merkle}
use rust_dfs.Tests.StoreTests.{
  memory_store, memory_store-IsLawful, no_rows, sample_codecs, sample_codecs-IsLawful,
  sample_metadata, hasher, FileMetadata-discrete, PendingDownloadRecord-discrete,
}
use rust_dfs.Tests.DownloadTests.{one_codec}
use rust_dfs.Tests.PublishTests.{original}

abbrev pub plain_text : Display
plain_text = record {
  processing_error = λ e. text "processing";
  store_error = λ e. text "store";
  path = λ p. text "path";
}

abbrev author : Node memory_fs memory_store
author = record { files = original; records = no_rows; sent = [] }

accepted :
    (publish_file memory_fs memory_store hasher one_codec plain_merkle plain_text 9
      (text "/d/f")
      true
      author).0
    ≡ ok 7
unfolding publish_file process_file path_of parent file_name join PathBuf-discrete ℕ_discrete
    chunk_path show_nat replace rocksdb_store no_rows key to_u64 FileMetadata-discrete
accepted = refl

publish_file-queues_example :
    (m : FileMetadata) × ((process_file memory_fs one_codec plain_merkle 9
        (text "/d/f")
        true
        original).0
      ≡ ok m)
    × ((publish_file memory_fs memory_store hasher one_codec plain_merkle plain_text 9
          (text "/d/f")
          true
          author).1.records
        ≡ (memory_store.put_file_metadata m no_rows).1)
    × (memory_store.next_file_metadata
          (publish_file memory_fs memory_store hasher one_codec plain_merkle plain_text 9
            (text "/d/f")
            true
            author).1.records
        ≢ ok none)
    × (from_u64 7 ≡ key hasher m)
publish_file-queues_example =
    publish_file-queues memory_fs memory_store memory_store-IsLawful hasher one_codec plain_merkle
      plain_text 9 (text "/d/f") true author 7 accepted

abbrev pub answered : Replies
answered = record { request_sent = true; answer = ok (some sample_metadata); provide_sent = true }

abbrev pub client : Node memory_fs memory_store
client = record { files = λ p. none; records = no_rows; sent = [] }

pub downloading :
    (download_file memory_fs memory_store hasher sample_codecs.metadata plain_text answered 3 7
      (text "/d")
      client).0
    ≡ ok tt
unfolding download_file path_of join PathBuf-discrete ℕ_discrete show_nat rocksdb_store no_rows key
    from_u64 FileMetadata-discrete PendingDownloadRecord-discrete placed replace
downloading = refl

download_file-IsStarted_example :
    (memory_store.published_file_exists (from_u64 7) no_rows ≡ ok false)
    × (memory_store.pending_download_exists (from_u64 7) no_rows ≡ ok false)
    × (m : FileMetadata) × (answered.answer ≡ ok (some m))
    × IsStarted memory_fs memory_store hasher sample_codecs.metadata plain_text
        (placed memory_fs memory_store hasher sample_codecs.metadata plain_text
          (path_of (text "/d"))
          m)
        (request_metadata (record { file_id = 7 }) 3 ∷ [])
        no_rows
        (download_file memory_fs memory_store hasher sample_codecs.metadata plain_text answered 3 7
          (text "/d")
          client).1
download_file-IsStarted_example =
    download_file-IsStarted memory_fs memory_store hasher sample_codecs.metadata plain_text
      memory_fs-IsLawful memory_fs-IsReliable sample_codecs-IsLawful.metadata memory_store-IsLawful
      answered 3 7 (text "/d") client downloading

abbrev small_cache : Cache
small_cache = record {
  State = List ℕ;
  new = [];
  contains_key = λ k s. contains s k;
  insert = λ k s. k ∷ s;
  later = λ s. s;
}

small_cache-IsSound : IsSound small_cache
unfolding contains
small_cache-IsSound = record {
  contains-new = λ k. refl;
  contains-insert = λ j k s h. elim (Bool-cases (j == k)) [
    | inl same ↦ inl (ground (arith, same))
    | inr apart ↦ inr (ground (arith, apart, h))
  ];
  contains-later = λ k s h. h;
}

abbrev found_once : FileFound
found_once = record { file_id = 7; file_name = text "f" }

abbrev events : List SearchEvent
events =
    message found_once (ok false) true true
    ∷ tick false true
    ∷ message found_once (ok false) true true
    ∷ closed
    ∷ []

search_task-offers_example :
    contains
      (map
        (λ f. f.file_id)
        (search_task small_cache (text "f") events (new_task small_cache)).to_client)
      7
    ≡ offers small_cache 7 events
search_task-offers_example = search_task-offers small_cache small_cache-IsSound (text "f") events 7
