-- ===== src/Download/Concurrent/Complete.antt =====
-- What the tasks of `download` (src/app/file_download_service.rs) have brought, however they take
-- turns.
use mathlib.Core.Option.{some-injective}
use rust_dfs.Base.{ℕ, ◌<◌, ◌≡◌, ◌≢◌, refl, sym, ap, ◌∙◌, true, false, arith}
use rust_dfs.Base.{Option, some, List, get_elem?, Result, ok, Bool-cases, inl, inr, ◌==◌}
use rust_dfs.Base.{length, lt-get_elem?}
use rust_dfs.Base.Text.{Bytes, Text}
use rust_dfs.Base.Sets.{contains, contains-All, All-of_contains}
use rust_dfs.Domain.{FileMetadata, PendingDownloadRecord}
use rust_dfs.Store.Codec.{Cbor}
use rust_dfs.Store.Interface.{FileStore}
use rust_dfs.Processing.Fs.{Fs}
use rust_dfs.Processing.Fs
use rust_dfs.Processing.Merkle.{Merkle}
use rust_dfs.Processing.Merkle
use rust_dfs.Processing.Split.{chunk_path}
use rust_dfs.Processing.Split.Names.{NoSlash}
use rust_dfs.Download.Verify.{IsTreeOf}
use rust_dfs.Download.Service.Download.{outcome}
use rust_dfs.Download.Service.Laws.Tasks.{result}
use rust_dfs.Download.Concurrent.Sound.{IsSound, Reach-IsSound}
use rust_dfs.Download.Service.Laws.Run.{IsTrusted, chunks_dir-joined}
use rust_dfs.Download.Concurrent.{
  gone, ended, Tasks, spawned, spawn_tasks, work, acquired, worked, taken, Step, own, other, Reach,
  here, next,
}

complete_count : (e : Option Text) (n k : ℕ) → outcome e (n == k) ≡ ok true → n ≡ k
complete_count e n k h = ground (arith, h)

spawned_new :
    (r : PendingDownloadRecord) (n i : ℕ)
    → spawned r n i ≢ gone
    → contains r.downloaded_chunks i ≡ false
unfolding spawned
spawned_new r n i there = elim (Bool-cases (contains r.downloaded_chunks i)) [
  | inl old ↦ absurd (there (ground (arith, old)))
  | inr new ↦ new
]

spawned_runs :
    (r : PendingDownloadRecord) (n i : ℕ) (result : Result Text (Option ℕ))
    → spawned r n i ≢ ended result
unfolding spawned
spawned_runs r n i result e = ground (arith, e)

chunks_dir-Step :
    {fs : Fs} {S : FileStore} {codec : Cbor FileMetadata} {M : Merkle} {u v : Tasks fs S}
    → Step fs S codec M u v
    → v.progress.pending.chunks_dir ≡ u.progress.pending.chunks_dir
unfolding work
chunks_dir-Step (own (acquired i e free)) = refl
chunks_dir-Step (own (worked i a e)) = refl
chunks_dir-Step {fs} {S} {codec} {M} {u} (own (taken i r e)) =
    chunks_dir-joined fs S codec M r u.progress
chunks_dir-Step (other permits elsewhere files records same apart) = refl

chunks_dir-Reach :
    {fs : Fs} {S : FileStore} {codec : Cbor FileMetadata} {M : Merkle} {u v : Tasks fs S}
    → Reach fs S codec M u v
    → v.progress.pending.chunks_dir ≡ u.progress.pending.chunks_dir
chunks_dir-Reach here = refl
chunks_dir-Reach (next r s) = chunks_dir-Step s ∙ chunks_dir-Reach r

module _ (fs : Fs) (F : Fs.IsLawful fs) (S : FileStore) (codec : Cbor FileMetadata) (M : Merkle)
    (ML : Merkle.IsLawful M) (m : FileMetadata) (pieces : List Bytes)
    (t : IsTreeOf M m.merkle_root m.total_chunks pieces) (plain : NoSlash m.chunk_file_extension)
    (r : PendingDownloadRecord) (permits elsewhere : ℕ) (files : fs.State) (records : S.State)
    (trusted : IsTrusted fs F S codec M ML m pieces t plain r files) (u : Tasks fs S)
    (reached : Reach fs S codec M
      (spawn_tasks fs S codec M r (length m.merkle_proofs) permits elsewhere files records)
      u) where
  spawned-IsSound :
      IsSound fs F S codec M ML m pieces t plain
        (spawn_tasks fs S codec M r (length m.merkle_proofs) permits elsewhere files records)
  unfolding spawn_tasks spawned
  spawned-IsSound = record {
    inv = record {
      has_metadata = trusted.has_metadata;
      distinct = trusted.distinct;
      held = trusted.held;
    };
    fresh = spawned_new r (length m.merkle_proofs);
    brought = λ i k done. absurd (spawned_runs r (length m.merkle_proofs) i _ done);
  }

  pub sound : IsSound fs F S codec M ML m pieces t plain u
  sound = Reach-IsSound fs F S codec M ML m pieces t plain reached spawned-IsSound

  pub same_dir : u.progress.pending.chunks_dir ≡ r.chunks_dir
  unfolding spawn_tasks
  same_dir = chunks_dir-Reach reached

  all_counted :
      length m.merkle_proofs ≡ m.total_chunks
      → outcome u.progress.first_error
          (length u.progress.pending.downloaded_chunks == length m.merkle_proofs)
        ≡ ok true
      → (i : ℕ) → i < length pieces
      → contains u.progress.pending.downloaded_chunks i ≡ true
  all_counted proofs complete i lt =
      contains-All (length pieces) u.progress.pending.downloaded_chunks sound.inv.distinct
        (All-of_contains (λ j. j < length pieces) u.progress.pending.downloaded_chunks
          λ j member.
            let (b, published, _) = sound.inv.held j member in lt-get_elem? pieces j published)
        (complete_count u.progress.first_error _ _ complete ∙ proofs ∙ sym t.total_of) i lt

  pub progress-IsTrusted :
      IsTrusted fs F S codec M ML m pieces t plain u.progress.pending u.progress.files
  progress-IsTrusted = record {
    has_metadata = sound.inv.has_metadata;
    distinct = sound.inv.distinct;
    held = sound.inv.held;
  }

  -- However the tasks of a download take turns, with each other and with the rest of the program,
  -- and whatever peers answer: if `download` says that the file is complete, every published chunk
  -- is on disk in its file. The directory has to hold the metadata of the published chunks, with a
  -- proof for each, the chunks that count at the start have to be there, and the rest of the program
  -- may not write into the directory.
  pub interleaved_complete :
      length m.merkle_proofs ≡ m.total_chunks
      → outcome u.progress.first_error
          (length u.progress.pending.downloaded_chunks == length m.merkle_proofs)
        ≡ ok true
      → (i : ℕ) (c : Bytes) → get_elem? pieces i ≡ some c
      → fs.read (chunk_path r.chunks_dir i m.chunk_file_extension) u.progress.files ≡ ok c
  interleaved_complete proofs complete i c e =
      let (b, published, there) =
        sound.inv.held i (all_counted proofs complete i (lt-get_elem? pieces i e)) in
      ap (λ dir. fs.read (chunk_path dir i m.chunk_file_extension) u.progress.files) (sym same_dir)
      ∙ there
      ∙ ap ok (some-injective b c (sym published ∙ e))
