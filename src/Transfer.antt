-- ===== src/Transfer.antt =====
-- A file on its way from one node to another: `process_file` on the first, and on the second
-- `download_file` (src/app/grpc/server.rs), `download` and `process_completed`
-- (src/app/file_download_service.rs), one after the other.
pub mod Serving
pub mod Direct
pub mod Interleaved
pub mod Queued
pub mod Clash
use rust_dfs.Base.{
  ℕ, zero, suc, ◌+◌, ◌<◌, ◌≡◌, refl, sym, ap, subst, ◌∙◌, Bool, true, false, Option, some, List,
  ◌∷◌, ◌++◌, map, arith,
}
use rust_dfs.Base.{
  length, length-map, range, range_from, length-range_from, get_elem?, concat, Result, ok,
}
use rust_dfs.Base.Text.{Bytes, Text, text}
use rust_dfs.Base.Sets.{IsReordering, contains}
use rust_dfs.Base.Paths.{PathBuf, path_of, join, IsPlain}
use rust_dfs.Domain.{
  FileMetadata, PendingDownloadRecord, Sha256Hasher, get_chunks_dir_name_prefix, success,
  new_pending_download, P2pCommand, request_metadata,
}
use rust_dfs.Store.Codec.{Cbor, ReadsBack}
use rust_dfs.Store.Interface.{FileStore}
use rust_dfs.Store.Interface
use rust_dfs.Processing.Fs.{Fs, IsReliable}
use rust_dfs.Processing.Fs
use rust_dfs.Processing.Merkle.{Merkle}
use rust_dfs.Processing.Merkle
use rust_dfs.Processing.Split.{chunk_size}
use rust_dfs.Processing.Split.Names.{NoSlash}
use rust_dfs.Processing.Split.Chunks.{chunks, concat-chunks}
use rust_dfs.Processing.Publish.{process_file}
use rust_dfs.Processing.Publish.Ends.{plain_extension}
use rust_dfs.Processing.Publish.Laws.{Describes, process_file-Describes}
use rust_dfs.Download.Verify.{IsTreeOf}
use rust_dfs.Download.Chunk.{Answers}
use rust_dfs.Download.Service.{process_completed}
use rust_dfs.Download.Service.Download.{Progress, download}
use rust_dfs.Download.Service.Laws.Run.{IsTrusted}
use rust_dfs.Download.Service.Laws.Live.{download_ends}
use rust_dfs.Download.Service.Laws.Complete.{process_completed_restores}
use rust_dfs.Grpc.State.{Display, Node}
use rust_dfs.Grpc.Download.{Replies, placed, pending_of, download_file}
use rust_dfs.Grpc.Download.Laws.{IsStarted, download_file-IsStarted}

get_elem?-map_range :
    {A : Type 0} (f : ℕ → A) (n i j : ℕ)
    → j < n
    → get_elem? (map f (range_from i n)) j ≡ some (f (i + j))
get_elem?-map_range f zero i j h = absurd (omega arith)
get_elem?-map_range f (suc n) i zero h = ap (λ k. some (f k)) (omega arith)
get_elem?-map_range f (suc n) i (suc j) h =
    get_elem?-map_range f n (suc i) j (omega arith) ∙ ap (λ k. some (f k)) (omega arith)

answer_same :
    {m m' : FileMetadata}
    → ◌≡◌ {A = Result Text (Option FileMetadata)} (ok (some m')) (ok (some m))
    → m' ≡ m
answer_same e = ground (arith, e)

module _ (fs : Fs) (F : Fs.IsLawful fs) (R : IsReliable fs) (S : FileStore) (h : Sha256Hasher)
    (codec : Cbor FileMetadata) (show : Display) (M : Merkle) (ML : Merkle.IsLawful M) where
  -- The metadata of the published pieces, and their place on this node.
  module _ (m : FileMetadata) (pieces : List Bytes) (d : Describes fs F R codec M m pieces)
      (path : PathBuf) where
    abbrev here : FileMetadata
    here = placed fs S h codec show path m

    here-IsTreeOf : IsTreeOf M here.merkle_root here.total_chunks pieces
    unfolding placed
    here-IsTreeOf = record { root_of = d.root_of; total_of = d.total_of }

    here-NoSlash : NoSlash here.chunk_file_extension
    unfolding placed
    here-NoSlash = subst NoSlash (sym d.extension_of) plain_extension

    proofs_there :
        (i : ℕ)
        → i < length pieces
        → get_elem? here.merkle_proofs i ≡ some (M.proof (map M.hash pieces) i)
    unfolding placed
    proofs_there i lt =
        ap (λ ps. get_elem? ps i) d.proofs_of
        ∙ get_elem?-map_range (M.proof (map M.hash pieces)) (length (map M.hash pieces)) 0 i
            (omega (arith, lt, length-map M.hash pieces))
        ∙ ap (λ k. some (M.proof (map M.hash pieces) k)) (omega arith)

    proof_each : length here.merkle_proofs ≡ here.total_chunks
    unfolding placed
    proof_each =
        ap length d.proofs_of
        ∙ length-map (M.proof (map M.hash pieces)) (range (length (map M.hash pieces)))
        ∙ length-range_from 0 (length (map M.hash pieces))
        ∙ length-map M.hash pieces
        ∙ d.total_of

    -- A download that has just been registered claims no chunk.
    started-IsTrusted :
        (before : List (P2pCommand ℕ)) (old : S.State) (n : Node fs S)
        → IsStarted fs S h codec show here before old n
        → IsTrusted fs F S codec M ML here pieces here-IsTreeOf here-NoSlash
            (pending_of fs S h codec show here)
            n.files
    unfolding pending_of new_pending_download contains
    started-IsTrusted before old n s = record {
      has_metadata = (s.raw, s.has_raw, s.decoded);
      distinct = tt;
      held = λ i member. absurd (cc member);
    }

  -- The node after `download_file` has accepted the file whose metadata is `m`.
  pub registered :
      {m : FileMetadata} {pieces : List Bytes} (d : Describes fs F R codec M m pieces)
      (replies : Replies) (channel file_id : ℕ) (target : Text) (n : Node fs S)
      → ReadsBack codec
      → Interface.IsLawful S
      → replies.answer ≡ ok (some m)
      → (download_file fs S h codec show replies channel file_id target n).0 ≡ ok tt
      → IsStarted fs S h codec show
          (here m pieces d (path_of target))
          (request_metadata (record { file_id = file_id }) channel ∷ n.sent)
          n.records
          (download_file fs S h codec show replies channel file_id target n).1
  registered d replies channel file_id target n C L answered accepted =
      let (_, _, m', came, s) =
        download_file-IsStarted fs S h codec show F R C L replies channel file_id target n
          accepted in
      subst
        (λ x.
          IsStarted fs S h codec show (placed fs S h codec show (path_of target) x)
            (request_metadata (record { file_id = file_id }) channel ∷ n.sent) n.records
            (download_file fs S h codec show replies channel file_id target n).1)
        (answer_same (sym came ∙ answered)) s

  module _ (rounds : ℕ) (path : Text) (public : Bool) (author : fs.State) (reader : fs.Reader)
      (m : FileMetadata) (replies : Replies) (channel file_id : ℕ) (target : Text) (n : Node fs S)
      (a : ℕ → Answers) (order : List ℕ → List ℕ) (sent : Bool) where
    abbrev pub pieces_of : List Bytes
    pieces_of = chunks rounds chunk_size (F.rest reader)

    -- The node after `download_file`.
    abbrev pub began : Node fs S
    began = (download_file fs S h codec show replies channel file_id target n).1

    abbrev pub pending : PendingDownloadRecord
    pending = pending_of fs S h codec show (placed fs S h codec show (path_of target) m)

    abbrev pub fetched : Result Text Bool × Progress fs S
    fetched = download fs S codec M order a pending began.files began.records

    -- The files after `process_completed`.
    abbrev pub final : fs.State
    final =
        (process_completed fs S codec sent fetched.1.pending
          (fetched.1.files, fetched.1.records)).1.0

    -- A file that one node publishes and another one downloads arrives unchanged: the download that
    -- `download_file` has registered is found in the store, `download` completes it, and then the
    -- file of that name in the directory of the download has the content of the author's file. The
    -- metadata that comes back is that of `process_file`, each chunk is sent by some peer, the tasks
    -- end in any order, no call that writes fails, there is a round more than bytes, the names of the
    -- directory of the chunks and of the `.part` file are plain, and no such file is there before.
    pub transfer_lem :
        ReadsBack codec
        → Interface.IsLawful S
        → fs.open_file (path_of path) author ≡ ok reader
        → length (F.rest reader) < rounds
        → (process_file fs codec M rounds path public author).0 ≡ ok m
        → replies.answer ≡ ok (some m)
        → (download_file fs S h codec show replies channel file_id target n).0 ≡ ok tt
        → ((i : ℕ)
            → i < length pieces_of
            → (c : Bytes) × (get_elem? pieces_of i ≡ some c)
              × (a i ≡ record {
                request_sent = true;
                answer = ok (some (success c));
                provide_sent = true;
              }))
        → IsReordering order
        → IsPlain (get_chunks_dir_name_prefix m ++ text "_chunks")
        → IsPlain (m.original_file_name ++ text ".part")
        → fs.try_exists (join (path_of target) m.original_file_name) fetched.1.files ≡ ok false
        → (S.get_pending_download pending.key began.records ≡ ok (some pending))
          × (fetched.0 ≡ ok true)
          × (fs.read (join (path_of target) m.original_file_name) final
              ≡ fs.read (path_of path) author)
    unfolding placed pending_of new_pending_download chunk_size
    transfer_lem C L opened fits made answered accepted served reorders plain_sub plain_part
          absent =
        let d =
          process_file-Describes fs F R codec M rounds path public author reader m opened fits
            made in
        let before : List (P2pCommand ℕ) =
          request_metadata (record { file_id = file_id }) channel ∷ n.sent in
        let s' : IsStarted fs S h codec show (here m pieces_of d (path_of target)) before n.records
            began =
          registered d replies channel file_id target n C L answered accepted in
        let tree = here-IsTreeOf m pieces_of d (path_of target) in
        let plain = here-NoSlash m pieces_of d (path_of target) in
        let each = proof_each m pieces_of d (path_of target) in
        let trusted = started-IsTrusted m pieces_of d (path_of target) before n.records began s' in
        let complete : fetched.0 ≡ ok true =
          download_ends fs F R S codec M ML (here m pieces_of d (path_of target)) pieces_of tree
            plain (proofs_there m pieces_of d (path_of target)) a served order reorders pending
            began.files began.records each trusted in
        let all_pieces : concat pieces_of ≡ F.rest reader =
          concat-chunks rounds chunk_size (F.rest reader) (omega arith) (omega (arith, fits)) in
        (
          s'.stored,
          complete,
          process_completed_restores fs F S codec M ML (here m pieces_of d (path_of target))
                pieces_of tree plain order reorders a pending began.files began.records trusted each
                complete R (path_of target) (get_chunks_dir_name_prefix m ++ text "_chunks") refl
                refl plain_sub plain_part absent sent
              ∙ ap ok all_pieces
              ∙ sym (F.rest_of_open (path_of path) author opened),
        )
