-- ===== src/Download/Concurrent/Sound.antt =====
-- An invariant of the tasks of `download` (src/app/file_download_service.rs), kept by every step.
use rust_dfs.Base.{ℕ, ◌≡◌, ◌≢◌, refl, sym, ap, subst, ◌∙◌, false, arith}
use rust_dfs.Base.{Option, some, none, List, Result, ok, err, inl, inr}
use rust_dfs.Base.Text.{Bytes, Text}
use rust_dfs.Base.Sets.{contains, contains-insert}
use rust_dfs.Domain.{FileMetadata}
use rust_dfs.Store.Codec.{Cbor}
use rust_dfs.Store.Interface.{FileStore}
use rust_dfs.Processing.Fs.{Fs}
use rust_dfs.Processing.Fs
use rust_dfs.Processing.Merkle.{Merkle}
use rust_dfs.Processing.Merkle
use rust_dfs.Base.Paths.{IsPlain, join}
use rust_dfs.Processing.Split.{chunk_path}
use rust_dfs.Processing.Split.Names.{NoSlash, metadata_name-IsPlain, chunk_name-IsPlain}
use rust_dfs.Download.Verify.{IsTreeOf}
use rust_dfs.Download.Chunk.{Answers}
use rust_dfs.Download.Service.Download.{Progress, joined}
use rust_dfs.Download.Service.Laws.Tasks.{
  IsHeld, Inv, worked-Inv, brought-IsHeld, kept-IsHeld, joined-Inv, result,
}
use rust_dfs.Download.Concurrent.Total.{set-cases}
use rust_dfs.Download.Service.Laws.Run.{chunks_dir-joined}
use rust_dfs.Download.Concurrent.{
  Task, gone, waiting, running, ended, Tasks, set, work, acquired, worked, taken, own, other, Reach,
  here, next,
}

-- A result of the loop over `join_next` adds at most its own chunk.
joined_others :
    (fs : Fs) (S : FileStore) (codec : Cbor FileMetadata) (M : Merkle) (r : Result Text (Option ℕ))
    (p : Progress fs S) (j : ℕ)
    → ((k : ℕ) → r ≡ ok (some k) → k ≢ j)
    → contains (joined fs S codec M r p).pending.downloaded_chunks j
      ≡ contains p.pending.downloaded_chunks j
unfolding joined
joined_others fs S codec M (err e) p j ne = refl
joined_others fs S codec M (ok none) p j ne = refl
joined_others fs S codec M (ok (some k)) p j ne =
    let apart : k ≢ j = ne k refl in ground (arith, contains-insert k j p.pending.downloaded_chunks)

files-joined :
    (fs : Fs) (S : FileStore) (codec : Cbor FileMetadata) (M : Merkle) (r : Result Text (Option ℕ))
    (p : Progress fs S)
    → (joined fs S codec M r p).files ≡ p.files
unfolding joined
files-joined fs S codec M (err e) p = refl
files-joined fs S codec M (ok none) p = refl
files-joined fs S codec M (ok (some i)) p = ground arith

ended-injective : {r s : Result Text (Option ℕ)} → ended r ≡ ended s → r ≡ s
ended-injective e = cc e

module _ (fs : Fs) (F : Fs.IsLawful fs) (S : FileStore) (codec : Cbor FileMetadata) (M : Merkle)
    (ML : Merkle.IsLawful M) (m : FileMetadata) (pieces : List Bytes)
    (t : IsTreeOf M m.merkle_root m.total_chunks pieces)
    (plain : NoSlash m.chunk_file_extension) where
  abbrev Held : Tasks fs S → ℕ → Type 0
  Held u i =
      IsHeld fs F S codec M ML m pieces t plain u.progress.pending.chunks_dir u.progress.files i

  IsHeld-joined :
      (r : Result Text (Option ℕ)) (p : Progress fs S) (k : ℕ)
      → IsHeld fs F S codec M ML m pieces t plain p.pending.chunks_dir p.files k
      → IsHeld fs F S codec M ML m pieces t plain
          (joined fs S codec M r p).pending.chunks_dir
          (joined fs S codec M r p).files
          k
  IsHeld-joined r p k h = rw (chunks_dir-joined fs S codec M r p, files-joined fs S codec M r p) h

  -- What is counted is there, what has a task is not counted, and what a task brought is there.
  pub record IsSound (u : Tasks fs S) : Type 0 where
    pub inv : Inv fs F S codec M ML m pieces t plain u.progress
    pub fresh : (i : ℕ) → u.task i ≢ gone → contains u.progress.pending.downloaded_chunks i ≡ false
    pub brought : (i k : ℕ) → u.task i ≡ ended (ok (some k)) → (k ≡ i) × Held u k

  work-IsSound :
      (i : ℕ) (a : Answers) (u : Tasks fs S)
      → IsSound u
      → u.task i ≡ running
      → IsSound (work fs S codec M i a u)
  unfolding work
  work-IsSound i a u h e =
      let new : contains u.progress.pending.downloaded_chunks i ≡ false =
        h.fresh i (λ g. cc (sym e ∙ g)) in
      let done : Task =
        ended (result fs F S codec M ML m pieces t plain a i u.progress h.inv new).0 in
      record {
        inv = worked-Inv fs F S codec M ML m pieces t plain a i u.progress h.inv new;
        fresh = λ j there. elim (set-cases i j done u.task) [
          | inl (same, _) ↦
              subst (λ k. contains u.progress.pending.downloaded_chunks k ≡ false) same new
          | inr (_, old) ↦ h.fresh j (λ g. there (old ∙ g))
        ];
        brought = λ j k came. elim (set-cases i j done u.task) [
          | inl (same, at) ↦
              let (same_k, there) =
                brought-IsHeld fs F S codec M ML m pieces t plain a i u.progress h.inv new k
                  (ended-injective (sym at ∙ came)) in
              (same_k ∙ same, there)
          | inr (apart, old) ↦
              let (same_k, there) = h.brought j k (sym old ∙ came) in
              (
                same_k,
                kept-IsHeld fs F S codec M ML m pieces t plain a i u.progress h.inv new k
                    (λ e. apart (sym e ∙ same_k)) there,
              )
        ];
      }

  acquired-IsSound :
      (i permits : ℕ) (u : Tasks fs S)
      → IsSound u
      → u.task i ≡ waiting
      → IsSound (record u { task = set i running u.task; permits = permits })
  acquired-IsSound i permits u h e = record {
    inv = h.inv;
    fresh = λ j there. elim (set-cases i j running u.task) [
      | inl (same, _) ↦ h.fresh j (λ g. cc (sym e ∙ ap u.task same ∙ g))
      | inr (_, old) ↦ h.fresh j (λ g. there (old ∙ g))
    ];
    brought = λ j k done. elim (set-cases i j running u.task) [
      | inl (_, at) ↦ cc (sym at ∙ done)
      | inr (_, old) ↦ h.brought j k (sym old ∙ done)
    ];
  }

  taken-IsSound :
      (i : ℕ) (r : Result Text (Option ℕ)) (u : Tasks fs S)
      → IsSound u
      → u.task i ≡ ended r
      → IsSound (record u { task = set i gone u.task; progress = joined fs S codec M r u.progress })
  taken-IsSound i r u h e = record {
    inv =
        joined-Inv fs F S codec M ML m pieces t plain r u.progress h.inv
          (λ k done. (h.brought i k (e ∙ ap ended done)).1);
    fresh = λ j there. elim (set-cases i j gone u.task) [
      | inl (_, at) ↦ absurd (there at)
      | inr (apart, old) ↦
          joined_others fs S codec M r u.progress j
            (λ k done f. apart (sym (h.brought i k (e ∙ ap ended done)).0 ∙ f))
          ∙ h.fresh j (λ g. there (old ∙ g))
    ];
    brought = λ j k done. elim (set-cases i j gone u.task) [
      | inl (_, at) ↦ cc (sym at ∙ done)
      | inr (_, old) ↦
          let (same_k, there) = h.brought j k (sym old ∙ done) in
          (same_k, IsHeld-joined r u.progress k there)
    ];
  }

  other-IsSound :
      (files : fs.State) (records : S.State) (permits elsewhere : ℕ) (u : Tasks fs S)
      → IsSound u
      → ((name : Text)
          → IsPlain name
          → fs.read (join u.progress.pending.chunks_dir name) files
            ≡ fs.read (join u.progress.pending.chunks_dir name) u.progress.files)
      → IsSound (record u {
        permits = permits;
        elsewhere = elsewhere;
        progress = record u.progress { files = files; records = records };
      })
  unfolding chunk_path
  other-IsSound files records permits elsewhere u h same =
      let (raw, stored, decoded) = h.inv.has_metadata in
      record {
        inv = record {
          has_metadata = (raw, same _ metadata_name-IsPlain ∙ stored, decoded);
          distinct = h.inv.distinct;
          held = λ i counted.
              let (b, published, there) = h.inv.held i counted in
              (b, published, same _ (chunk_name-IsPlain _ m.chunk_file_extension plain) ∙ there);
        };
        fresh = h.fresh;
        brought = λ i k done.
            let (own_k, piece) = h.brought i k done in
            let (b, published, there) = piece in
            (
              own_k,
              (b, published, same _ (chunk_name-IsPlain _ m.chunk_file_extension plain) ∙ there),
            );
      }

  pub Reach-IsSound : {u v : Tasks fs S} → Reach fs S codec M u v → IsSound u → IsSound v
  Reach-IsSound here h = h
  Reach-IsSound (next r (own (acquired i e free))) h = acquired-IsSound i _ _ (Reach-IsSound r h) e
  Reach-IsSound (next r (own (worked i a e))) h = work-IsSound i a _ (Reach-IsSound r h) e
  Reach-IsSound (next r (own (taken i result e))) h = taken-IsSound i result _ (Reach-IsSound r h) e
  Reach-IsSound (next r (other permits elsewhere files records same apart)) h =
      other-IsSound files records permits elsewhere _ (Reach-IsSound r h) apart
