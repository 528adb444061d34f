-- ===== src/Tests/StoredTests.antt =====
-- A download of two chunks that is cut off when the first one is here.
use mathlib.Core.Logic.{ite}
use native.Mathlib.Decide.{ℕ_discrete}
use rust_dfs.Base.{
  ℕ, ◌≡◌, ◌≢◌, ◌<◌, refl, sym, ap, ◌∙◌, true, some, List, [], ◌∷◌, arith, ok, err, length,
  get_elem?, map,
}
use rust_dfs.Base.Text.{Bytes, text}
use rust_dfs.Base.Sets.{contains}
use rust_dfs.Base.Paths.{join}
use rust_dfs.Domain.{FileMetadata, PendingDownloadRecord, success}
use rust_dfs.Store.Codec.{Cbor, ReadsBack, Codecs}
use rust_dfs.Store.Codec
use rust_dfs.Store.Interface.{FileStore}
use rust_dfs.Store.Interface
use rust_dfs.Store.Rocksdb.{rocksdb_store}
use rust_dfs.Store.Rocksdb.Laws.{rocksdb_store-IsLawful}
use rust_dfs.Download.Verify.{IsTreeOf}
use rust_dfs.Download.Chunk.{Answers}
use rust_dfs.Download.Service.Download.{download}
use rust_dfs.Download.Service.Laws.Run.{IsTrusted}
use rust_dfs.Download.Concurrent.{
  Tasks, spawned, spawn_tasks, work, acquired, worked, taken, own, Reach, here, next,
}
use rust_dfs.Download.Concurrent.Stored.{
  SparesRecord, TakesRecord, interleaved_resumable, cut_off_completes,
}
use rust_dfs.Tests.Files.{memory_fs, memory_fs-IsLawful, memory_fs-IsReliable, PathBuf-discrete}
use rust_dfs.Tests.Hashes.{plain_merkle, plain_merkle-IsLawful, encode}
use rust_dfs.Tests.Database.{memory_db, memory_db-IsLawful}
use rust_dfs.Tests.StoreTests.{
  sample_codecs, sample_codecs-IsLawful, sample_metadata, sample_pending, hasher, hello,
  PendingDownloadRecord-discrete,
}
use rust_dfs.Tests.DownloadTests.{started, chunk_extension, in_order-IsReordering}

abbrev metadata : FileMetadata
metadata = record sample_metadata {
  total_chunks = 2;
  merkle_root = encode (hello ∷ text "hi" ∷ []);
  merkle_proofs = (0 ∷ []) ∷ (1 ∷ []) ∷ [];
}

abbrev pieces : List Bytes
pieces = hello ∷ text "hi" ∷ []

tree : IsTreeOf plain_merkle metadata.merkle_root metadata.total_chunks pieces
tree = record { root_of = refl; total_of = refl }

abbrev codec : Cbor FileMetadata
codec = record { to_vec = λ m. ok []; from_slice = λ bytes. ok metadata }

-- The records of one download, each encoded as the chunks that it counts.
abbrev counted : List ℕ → PendingDownloadRecord
counted chunks = record sample_pending { downloaded_chunks = chunks }

abbrev by_chunks : Cbor PendingDownloadRecord
by_chunks = record {
  to_vec = λ r.
      ite (PendingDownloadRecord-discrete (record r { downloaded_chunks = [] }) sample_pending)
        (ok r.downloaded_chunks) (err (text "unknown record"));
  from_slice = λ bytes. ok (counted bytes);
}

by_chunks-ReadsBack : ReadsBack by_chunks
by_chunks-ReadsBack = record {
  reads_back = λ r {b} e.
      elim (PendingDownloadRecord-discrete (record r { downloaded_chunks = [] }) sample_pending) [
        | yes same ↦
            let chunks : r.downloaded_chunks ≡ b = ground arith in
            ap (λ cs. ok (counted cs)) (sym chunks)
            ∙ ap
                (λ (x : PendingDownloadRecord).
                  ok (record x { downloaded_chunks = r.downloaded_chunks }))
                (sym same)
        | no other ↦ absurd (ground arith)
      ];
}

abbrev codecs : Codecs
codecs = record sample_codecs { pending = by_chunks }

codecs-IsLawful : Codec.IsLawful codecs
codecs-IsLawful = record {
  metadata = sample_codecs-IsLawful.metadata;
  published = sample_codecs-IsLawful.published;
  pending = by_chunks-ReadsBack;
  published_file = sample_codecs-IsLawful.published_file;
  chunk_request = sample_codecs-IsLawful.chunk_request;
  search_request = sample_codecs-IsLawful.search_request;
}

abbrev store : FileStore
store = rocksdb_store hasher codecs memory_db

store-IsLawful : Interface.IsLawful store
store-IsLawful = rocksdb_store-IsLawful hasher codecs memory_db codecs-IsLawful memory_db-IsLawful

takes : TakesRecord store sample_pending
unfolding rocksdb_store PendingDownloadRecord-discrete PathBuf-discrete ℕ_discrete
takes chunks s = refl

empty_rows : store.State
unfolding rocksdb_store
empty_rows = []

abbrev rows : store.State
rows = (store.put_pending_download sample_pending empty_rows).1

there : store.get_pending_download sample_pending.key rows ≡ ok (some sample_pending)
unfolding rocksdb_store empty_rows PendingDownloadRecord-discrete PathBuf-discrete ℕ_discrete
there = refl

not_here : (i : ℕ) → contains [] i ≢ true
unfolding contains
not_here i e = cc e

trusted :
    IsTrusted memory_fs memory_fs-IsLawful store codec plain_merkle plain_merkle-IsLawful metadata
      pieces tree chunk_extension sample_pending started
unfolding PathBuf-discrete ℕ_discrete join
trusted = record {
  has_metadata = ([], refl, refl);
  distinct = tt;
  held = λ i member. absurd (not_here i member);
}

abbrev sends : Bytes → Answers
sends b = record { request_sent = true; answer = ok (some (success b)); provide_sent = true }

abbrev answers : ℕ → Answers
answers ℕ.zero = sends hello
answers (ℕ.suc i) = sends (text "hi")

has_proofs :
    (i : ℕ)
    → i < length pieces
    → get_elem? metadata.merkle_proofs i
      ≡ some (plain_merkle.proof (map plain_merkle.hash pieces) i)
has_proofs ℕ.zero lt = refl
has_proofs (ℕ.suc ℕ.zero) lt = refl
has_proofs (ℕ.suc (ℕ.suc i)) lt = absurd (omega (arith, lt))

all_served :
    (i : ℕ)
    → i < length pieces
    → (c : Bytes) × (get_elem? pieces i ≡ some c)
      × (answers i
          ≡ record { request_sent = true; answer = ok (some (success c)); provide_sent = true })
all_served ℕ.zero lt = (hello, refl, refl)
all_served (ℕ.suc ℕ.zero) lt = (text "hi", refl, refl)
all_served (ℕ.suc (ℕ.suc i)) lt = absurd (omega (arith, lt))

abbrev World : Type 0
World = Tasks memory_fs store

abbrev Run : World → Type 0
Run u =
    Reach memory_fs store codec plain_merkle
      (spawn_tasks memory_fs store codec plain_merkle sample_pending 2 1 0 started rows) u

-- The first chunk is here, and the task of the second one waits.
abbrev half : (u : World) × Run u
unfolding spawn_tasks spawned contains work
half = (
  _,
  next (next (next here (own (acquired 0 refl (omega arith)))) (own (worked 0 (answers 0) refl)))
      (own (taken 0 _ refl)),
)

spared : SparesRecord half.1
unfolding SparesRecord half
spared = tt

interleaved_resumable_example :
    (store.get_pending_download sample_pending.key half.0.progress.records
      ≡ ok (some half.0.progress.pending))
    × IsTrusted memory_fs memory_fs-IsLawful store codec plain_merkle plain_merkle-IsLawful metadata
        pieces tree chunk_extension half.0.progress.pending half.0.progress.files
interleaved_resumable_example =
    interleaved_resumable memory_fs memory_fs-IsLawful store store-IsLawful codec plain_merkle
      plain_merkle-IsLawful metadata pieces tree chunk_extension sample_pending 1 0 started rows
      half.0 half.1 trusted there takes spared

cut_off_completes_example :
    (r : PendingDownloadRecord) × (store.get_pending_download sample_pending.key
        half.0.progress.records
      ≡ ok (some r))
    × ((download memory_fs store codec plain_merkle
          (λ xs. xs)
          answers
          r
          half.0.progress.files
          half.0.progress.records).0
        ≡ ok true)
cut_off_completes_example =
    cut_off_completes memory_fs memory_fs-IsLawful store store-IsLawful codec plain_merkle
      plain_merkle-IsLawful metadata pieces tree chunk_extension sample_pending 1 0 started rows
      half.0 half.1 trusted there takes spared memory_fs-IsReliable has_proofs answers all_served
      (λ xs. xs) in_order-IsReordering refl
