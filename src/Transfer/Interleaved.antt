-- ===== src/Transfer/Interleaved.antt =====
-- A file on its way from one node to another, whose chunks are fetched side by side: `process_file`
-- on the first node, `download_file` (src/app/grpc/server.rs), the tasks of `download`, and
-- `process_completed` (src/app/file_download_service.rs) on the second.
use rust_dfs.Base.{ℕ, ◌<◌, ◌≡◌, refl, sym, ap, ◌∙◌, arith, Bool, true, false, some, List, ◌∷◌}
use rust_dfs.Base.{length, ok, ◌==◌, ◌++◌, concat}
use rust_dfs.Base.Text.{Bytes, Text, text}
use rust_dfs.Base.Paths.{path_of, join, IsPlain}
use rust_dfs.Domain.{FileMetadata, Sha256Hasher, get_chunks_dir_name_prefix}
use rust_dfs.Domain.{request_metadata, new_pending_download}
use rust_dfs.Store.Codec.{Cbor, ReadsBack}
use rust_dfs.Store.Interface.{FileStore}
use rust_dfs.Store.Interface
use rust_dfs.Processing.Fs.{Fs, IsReliable}
use rust_dfs.Processing.Fs
use rust_dfs.Processing.Merkle.{Merkle}
use rust_dfs.Processing.Merkle
use rust_dfs.Processing.Split.{chunk_size}
use rust_dfs.Processing.Split.Chunks.{chunks, concat-chunks}
use rust_dfs.Processing.Publish.{process_file}
use rust_dfs.Processing.Publish.Laws.{process_file-Describes}
use rust_dfs.Download.Service.{process_completed}
use rust_dfs.Download.Service.Download.{outcome}
use rust_dfs.Download.Concurrent.{Tasks, spawn_tasks, Reach}
use rust_dfs.Download.Concurrent.Restored.{interleaved_restores}
use rust_dfs.Grpc.State.{Display, Node}
use rust_dfs.Grpc.Download.{Replies, placed, pending_of, download_file}
use rust_dfs.Transfer.{here-IsTreeOf, here-NoSlash, proof_each, started-IsTrusted, registered}

module _ (fs : Fs) (F : Fs.IsLawful fs) (R : IsReliable fs) (S : FileStore) (h : Sha256Hasher)
    (codec : Cbor FileMetadata) (show : Display) (M : Merkle) (ML : Merkle.IsLawful M)
    (m : FileMetadata) (replies : Replies) (channel file_id : ℕ) (target : Text)
    (n : Node fs S) where
  -- The tasks of the download that `download_file` has registered.
  abbrev pub tasks_of : ℕ → ℕ → Tasks fs S
  tasks_of permits elsewhere =
      let began = (download_file fs S h codec show replies channel file_id target n).1 in
      spawn_tasks fs S codec M
        (pending_of fs S h codec show (placed fs S h codec show (path_of target) m))
        (length m.merkle_proofs) permits elsewhere began.files began.records

  -- When the download of a file says that it is complete, the file that `process_completed` leaves
  -- has the content of the author's file, whatever the peers have answered to each request for a
  -- chunk, and however the tasks of the download took turns with each other and with the rest of
  -- the program, as long as the rest of the program leaves the directory of this download alone. The
  -- metadata that came back is that of `process_file`, `download_file` has accepted the file, no
  -- call that writes fails, what was encoded reads back, there is a round more than bytes, the names
  -- of the directory of the chunks and of the `.part` file are plain, and no file of that name is
  -- there before.
  pub interleaved_transfer :
      (rounds : ℕ) (path : Text) (public : Bool) (author : fs.State) (reader : fs.Reader)
      (permits elsewhere : ℕ) (u : Tasks fs S)
      → ReadsBack codec
      → Interface.IsLawful S
      → fs.open_file (path_of path) author ≡ ok reader
      → length (F.rest reader) < rounds
      → (process_file fs codec M rounds path public author).0 ≡ ok m
      → replies.answer ≡ ok (some m)
      → (download_file fs S h codec show replies channel file_id target n).0 ≡ ok tt
      → Reach fs S codec M (tasks_of permits elsewhere) u
      → outcome u.progress.first_error
          (length u.progress.pending.downloaded_chunks == length m.merkle_proofs)
        ≡ ok true
      → IsPlain (get_chunks_dir_name_prefix m ++ text "_chunks")
      → IsPlain (m.original_file_name ++ text ".part")
      → fs.try_exists (join (path_of target) m.original_file_name) u.progress.files ≡ ok false
      → (sent : Bool)
      → fs.read
          (join (path_of target) m.original_file_name)
          (process_completed fs S codec sent u.progress.pending
            (u.progress.files, u.progress.records)).1.0
        ≡ fs.read (path_of path) author
  unfolding placed pending_of new_pending_download chunk_size
  interleaved_transfer rounds path public author reader permits elsewhere u C L opened fits made
        answered accepted reached complete plain_sub plain_part absent sent =
      let pieces : List Bytes = chunks rounds chunk_size (F.rest reader) in
      let d =
        process_file-Describes fs F R codec M rounds path public author reader m opened fits made in
      let dir = path_of target in
      let s =
        registered fs F R S h codec show M ML d replies channel file_id target n C L answered
          accepted in
      let began = (download_file fs S h codec show replies channel file_id target n).1 in
      let all_pieces : concat pieces ≡ F.rest reader =
        concat-chunks rounds chunk_size (F.rest reader) (omega arith) (omega (arith, fits)) in
      interleaved_restores fs F S codec M ML (placed fs S h codec show dir m) pieces
        (here-IsTreeOf fs F R S h codec show M ML m pieces d dir)
        (here-NoSlash fs F R S h codec show M ML m pieces d dir)
        (pending_of fs S h codec show (placed fs S h codec show dir m)) permits elsewhere
        began.files began.records
        (started-IsTrusted fs F R S h codec show M ML m pieces d dir
          (request_metadata (record { file_id = file_id }) channel ∷ n.sent) n.records began s)
        u reached (proof_each fs F R S h codec show M ML m pieces d dir) complete R dir
        (get_chunks_dir_name_prefix m ++ text "_chunks") refl refl plain_sub plain_part absent sent
      ∙ ap ok all_pieces
      ∙ sym (F.rest_of_open (path_of path) author opened)
