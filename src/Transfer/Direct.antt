-- ===== src/Transfer/Direct.antt =====
-- A file on its way from one node to another that asks only the first: Transfer and Transfer.Serving
-- together.
use rust_dfs.Base.{ℕ, ◌<◌, ◌≡◌, ◌≢◌, ap, Bool, true, false, some, List, [], ◌++◌}
use rust_dfs.Base.{length, get_elem?-lt, Result, ok}
use rust_dfs.Base.Text.{Text, text}
use rust_dfs.Base.Sets.{IsReordering}
use rust_dfs.Base.Paths.{PathBuf, path_of, join, parent, file_name, IsPlain}
use rust_dfs.Domain.{FileMetadata, Sha256Hasher, key, published_record, get_chunks_dir_name_prefix}
use rust_dfs.Domain.Keys.{from_u64}
use rust_dfs.Store.Codec.{Cbor, ReadsBack}
use rust_dfs.Store.Interface.{FileStore, StoreError}
use rust_dfs.Store.Interface
use rust_dfs.Processing.Fs.{Fs, file, IsReliable}
use rust_dfs.Processing.Fs
use rust_dfs.Processing.Merkle.{Merkle}
use rust_dfs.Processing.Merkle
use rust_dfs.Processing.Publish.{process_file}
use rust_dfs.Download.Chunk.{Answers}
use rust_dfs.Download.Service.Download.{Progress}
use rust_dfs.Events.Serving.{answer_file_request}
use rust_dfs.Grpc.State.{Display, Node}
use rust_dfs.Grpc.Download.{Replies, download_file}
use rust_dfs.Transfer.{fetched, final, transfer_lem}
use rust_dfs.Transfer.Serving.{publication_served}

module _ (fs : Fs) (F : Fs.IsLawful fs) (R : IsReliable fs) (S : FileStore)
    (L : Interface.IsLawful S) (h : Sha256Hasher) (codec : Cbor FileMetadata) (C : ReadsBack codec)
    (show : Display) (M : Merkle) (ML : Merkle.IsLawful M) (rounds : ℕ) (path : Text)
    (public : Bool) (author : fs.State) (reader : fs.Reader) (m : FileMetadata) (replies : Replies)
    (channel file_id : ℕ) (target : Text) (n : Node fs S) (order : List ℕ → List ℕ) (sent : Bool)
    (rows : S.State) (base : PathBuf) (name : Text) where
  -- What the author's node sends for the chunk of a number.
  abbrev pub from_author : ℕ → Answers
  from_author i = record {
    request_sent = true;
    answer = ok (
        some (
          answer_file_request fs S codec show.store_error
            (process_file fs codec M rounds path public author).1 rows
            (record { file_id = file_id; chunk_id = i })));
    provide_sent = true;
  }

  abbrev pub direct : Result Text Bool × Progress fs S
  direct =
      fetched fs F R S h codec show M ML rounds path public author reader m replies channel file_id
        target n from_author order sent

  -- If every chunk is asked of the node that published the file, the download completes and the file
  -- arrives unchanged. The author's file is regular, has a byte, a parent and a name, its record is
  -- stored under the id that is asked for, and the metadata that comes back is that of `process_file`;
  -- no call that writes or reads fails, what was encoded reads back, the tasks end in any order, there
  -- is a round more than bytes, the names of the directory of the chunks and of the `.part` file are
  -- plain, and no such file is there before.
  pub direct_transfer :
      fs.metadata (path_of path) author ≡ ok file
      → fs.open_file (path_of path) author ≡ ok reader
      → parent (path_of path) ≡ some base
      → file_name (path_of path) ≡ some name
      → length (F.rest reader) < rounds
      → F.rest reader ≢ []
      → (process_file fs codec M rounds path public author).0 ≡ ok m
      → S.get_published_file (key h m) rows ≡ ok (some (published_record h m))
      → from_u64 file_id ≡ key h m
      → replies.answer ≡ ok (some m)
      → (download_file fs S h codec show replies channel file_id target n).0 ≡ ok tt
      → IsReordering order
      → IsPlain (get_chunks_dir_name_prefix m ++ text "_chunks")
      → IsPlain (m.original_file_name ++ text ".part")
      → fs.try_exists (join (path_of target) m.original_file_name) direct.1.files ≡ ok false
      → (direct.0 ≡ ok true)
        × (fs.read (join (path_of target) m.original_file_name) (
              final fs F R S h codec show M ML rounds path public author reader m replies channel
                file_id target n from_author order sent)
            ≡ fs.read (path_of path) author)
  direct_transfer regular opened above named fits more made stored same answered accepted reorders
        plain_sub plain_part absent =
      let (serves, _, _, _) =
        publication_served fs F R S h codec C show.store_error M ML rounds path base name reader
          public author m rows file_id regular opened above named fits more made stored same in
      let (_, complete, content) =
        transfer_lem fs F R S h codec show M ML rounds path public author reader m replies channel
          file_id target n from_author order sent C L opened fits made answered accepted
          (λ i lt.
            let (c, found) = get_elem?-lt _ i lt in
            (
              c,
              found,
              ap (λ r. record { request_sent = true; answer = ok (some r); provide_sent = true })
                  (serves i c found),
            ))
          reorders plain_sub plain_part absent in
      (complete, content)
