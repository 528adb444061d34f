-- ===== src/Tests/DirectTests.antt =====
-- A file of five bytes, asked of its author alone.
use native.Mathlib.Decide.{ℕ_discrete}
use rust_dfs.Base.{◌≡◌, refl, true, false, arith, ok}
use rust_dfs.Base.Text.{text, replace}
use rust_dfs.Base.Paths.{path_of, join, parent, file_name}
use rust_dfs.Base.Sets.{contains, insert}
use rust_dfs.Base.Decimal.{show_nat}
use rust_dfs.Domain.{key}
use rust_dfs.Domain.Keys.{from_u64}
use rust_dfs.Store.Rocksdb.{rocksdb_store}
use rust_dfs.Processing.Split.{chunk_path}
use rust_dfs.Processing.Publish.{process_file}
use rust_dfs.Download.Verify.{verify_chunk}
use rust_dfs.Download.Chunk.{download_file_chunk}
use rust_dfs.Download.Service.Download.{download, run_task}
use rust_dfs.Grpc.Download.{download_file, placed}
use rust_dfs.Transfer.{final}
use rust_dfs.Domain.{published_record}
use rust_dfs.Events.Serving.{answer_file_request}
use rust_dfs.Transfer.Direct.{from_author, direct, direct_transfer}
use rust_dfs.Tests.EndsTests.{regular, above, named}
use rust_dfs.Tests.StoreTests.{downloads_dir, PublishedFileRecord-discrete}
use rust_dfs.Tests.Files.{memory_fs, memory_fs-IsLawful, memory_fs-IsReliable, PathBuf-discrete}
use rust_dfs.Tests.Hashes.{plain_merkle, plain_merkle-IsLawful}
use rust_dfs.Tests.StoreTests.{
  memory_store, memory_store-IsLawful, no_rows, sample_codecs, sample_codecs-IsLawful,
  sample_metadata, hasher, hello, FileMetadata-discrete, PendingDownloadRecord-discrete,
}
use rust_dfs.Tests.DownloadTests.{in_order-IsReordering, IsPlain-part}
use rust_dfs.Tests.PublishTests.{original, opened}
use rust_dfs.Tests.GrpcTests.{plain_text, answered, client, downloading}
use rust_dfs.Tests.TransferTests.{processed, sub-IsPlain, published_rows, row_there, same_id}

direct_absent :
    memory_fs.try_exists
      (join (path_of (text "/d")) (text "f"))
      (direct memory_fs memory_fs-IsLawful memory_fs-IsReliable memory_store memory_store-IsLawful
        hasher sample_codecs.metadata sample_codecs-IsLawful.metadata plain_text plain_merkle
        plain_merkle-IsLawful 9
        (text "/d/f")
        true
        original
        hello
        sample_metadata
        answered
        3
        7
        (text "/d")
        client
        (λ xs. xs)
        false
        published_rows
        downloads_dir
        (text "f")).1.files
    ≡ ok false
unfolding download_file path_of join PathBuf-discrete ℕ_discrete show_nat rocksdb_store no_rows key
    from_u64 FileMetadata-discrete PendingDownloadRecord-discrete placed replace download run_task
    download_file_chunk chunk_path verify_chunk contains insert answer_file_request process_file
    parent file_name published_record PublishedFileRecord-discrete
direct_absent = refl

direct_transfer_example :
    ((direct memory_fs memory_fs-IsLawful memory_fs-IsReliable memory_store memory_store-IsLawful
        hasher sample_codecs.metadata sample_codecs-IsLawful.metadata plain_text plain_merkle
        plain_merkle-IsLawful 9
        (text "/d/f")
        true
        original
        hello
        sample_metadata
        answered
        3
        7
        (text "/d")
        client
        (λ xs. xs)
        false
        published_rows
        downloads_dir
        (text "f")).0
      ≡ ok true)
    × (memory_fs.read (join (path_of (text "/d")) (text "f")) (
          final memory_fs memory_fs-IsLawful memory_fs-IsReliable memory_store hasher
            sample_codecs.metadata plain_text plain_merkle plain_merkle-IsLawful 9
            (text "/d/f")
            true
            original
            hello
            sample_metadata
            answered
            3
            7
            (text "/d")
            client
            (from_author memory_fs memory_fs-IsLawful memory_fs-IsReliable memory_store
              memory_store-IsLawful hasher sample_codecs.metadata sample_codecs-IsLawful.metadata
              plain_text plain_merkle plain_merkle-IsLawful 9
              (text "/d/f")
              true
              original
              hello
              sample_metadata
              answered
              3
              7
              (text "/d")
              client
              (λ xs. xs)
              false
              published_rows
              downloads_dir
              (text "f"))
            (λ xs. xs)
            false)
        ≡ memory_fs.read (path_of (text "/d/f")) original)
direct_transfer_example =
    direct_transfer memory_fs memory_fs-IsLawful memory_fs-IsReliable memory_store
      memory_store-IsLawful hasher sample_codecs.metadata sample_codecs-IsLawful.metadata plain_text
      plain_merkle plain_merkle-IsLawful 9 (text "/d/f") true original hello sample_metadata
      answered 3 7 (text "/d") client (λ xs. xs) false published_rows downloads_dir (text "f")
      regular opened above named (omega arith) (λ e. cc) processed row_there same_id refl
      downloading in_order-IsReordering sub-IsPlain IsPlain-part direct_absent
