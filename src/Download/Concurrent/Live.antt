-- ===== src/Download/Concurrent/Live.antt =====
-- What the tasks of `download` (src/app/file_download_service.rs) wait for, and how many steps they
-- make.
use rust_dfs.Base.{
  ℕ, zero, suc, ◌+◌, ◌*◌, ◌≤◌, ◌<◌, ◌≡◌, ◌≢◌, ◌⊎◌, inl, inr, refl, sym, ap, ◌∙◌, arith,
}
use rust_dfs.Base.{Option, Result}
use rust_dfs.Base.Text.{Text}
use rust_dfs.Domain.{FileMetadata, PendingDownloadRecord}
use rust_dfs.Store.Codec.{Cbor}
use rust_dfs.Store.Interface.{FileStore}
use rust_dfs.Processing.Fs.{Fs}
use rust_dfs.Processing.Merkle.{Merkle}
use rust_dfs.Download.Concurrent.{
  Task, gone, waiting, running, ended, Tasks, spawn_tasks, work, Own, acquired, worked, taken,
  Reach,
}
use rust_dfs.Download.Concurrent.Total.{held_by, left_of, total, total-set, total-part, total-ge}
use rust_dfs.Download.Concurrent.Permits.{IsBounded, Reach-IsBounded, spawned-IsBounded}

zero_or_more : (k : ℕ) → (k ≡ 0) ⊎ (0 < k)
zero_or_more zero = inl refl
zero_or_more (suc k) = inr (omega arith)

Task-cases :
    (t : Task)
    → (t ≡ gone) ⊎ (t ≡ waiting) ⊎ (t ≡ running) ⊎ ((r : Result Text (Option ℕ)) × (t ≡ ended r))
Task-cases gone = inl refl
Task-cases waiting = inr (inl refl)
Task-cases running = inr (inr (inl refl))
Task-cases (ended r) = inr (inr (inr (r, refl)))

gone_or_left : (t : Task) → (t ≡ gone) ⊎ (0 < left_of t)
gone_or_left gone = inl refl
gone_or_left waiting = inr (omega arith)
gone_or_left running = inr (omega arith)
gone_or_left (ended r) = inr (omega arith)

left_of-le : (t : Task) → left_of t ≤ 3
left_of-le gone = omega arith
left_of-le waiting = omega arith
left_of-le running = omega arith
left_of-le (ended r) = omega arith

total_small : (n : ℕ) (tasks : ℕ → Task) → total left_of n tasks ≤ 3 * n
unfolding total
total_small zero tasks = omega arith
total_small (suc n) tasks = omega (arith, total_small n tasks, left_of-le (tasks n))

holds_permit : (t : Task) → 0 < held_by t → t ≡ running
holds_permit gone h = absurd (omega arith)
holds_permit waiting h = absurd (omega arith)
holds_permit running h = refl
holds_permit (ended r) h = absurd (omega arith)

module _ {fs : Fs} {S : FileStore} {codec : Cbor FileMetadata} {M : Merkle} {n max : ℕ} where
  -- Every step of a task leaves one step less.
  Own-left :
      {t u : Tasks fs S}
      → Own fs S codec M t u
      → IsBounded n max t
      → total left_of n u.task + 1 ≡ total left_of n t.task
  unfolding work
  Own-left {t} (acquired i e free) b =
      omega (arith, total-set left_of n i running t.task (below_of i e), ap left_of e)
    where
      below_of : (i : ℕ) → t.task i ≡ waiting → i < n
      below_of i e = b.below i (λ g. cc (sym e ∙ g))
  Own-left {t} (worked i a e) b =
      omega (arith, total-set left_of n i _ t.task (b.below i (λ g. cc (sym e ∙ g))), ap left_of e)
  Own-left {t} (taken i r e) b =
      omega
        (arith, total-set left_of n i gone t.task (b.below i (λ g. cc (sym e ∙ g))), ap left_of e)

  some_step :
      (t : Tasks fs S) (i : ℕ)
      → IsBounded n max t
      → 0 < max
      → t.elsewhere ≡ 0
      → t.task i ≢ gone
      → ((j : ℕ) × (t.task j ≡ running)) ⊎ ((u : Tasks fs S) × Own fs S codec M t u)
  some_step t i b some_permit alone there = elim (Task-cases (t.task i)) [
    | inl none_here ↦ absurd (there none_here)
    | inr (inl waits) ↦ elim (zero_or_more t.permits) [
      | inr free ↦ inr (_, acquired i waits free)
      | inl all_held ↦
          let (j, held) = total-part held_by n t.task (omega (arith, b.conserved)) in
          inl (j, holds_permit (t.task j) held)
    ]
    | inr (inr (inl runs)) ↦ inl (i, runs)
    | inr (inr (inr (r, done))) ↦ inr (_, taken i r done)
  ]

-- The tasks of a download make three steps each at most, and each step that they make, whatever a peer
-- answers, leaves one less. As long as no other download holds a permit and the service has one at
-- all, only a peer can keep them waiting: either the results of all have been taken, or a task holds
-- a permit and awaits the answer to its request, or one of them can make a step.
pub only_answers_awaited :
    (fs : Fs) (S : FileStore) (codec : Cbor FileMetadata) (M : Merkle) (r : PendingDownloadRecord)
    (n permits elsewhere : ℕ) (files : fs.State) (records : S.State) (u : Tasks fs S)
    → Reach fs S codec M (spawn_tasks fs S codec M r n permits elsewhere files records) u
    → 0 < permits + elsewhere
    → u.elsewhere ≡ 0
    → (total left_of n u.task ≤ 3 * n)
      × ((v : Tasks fs S)
          → Own fs S codec M u v
          → total left_of n v.task + 1 ≡ total left_of n u.task)
      × (((i : ℕ) → u.task i ≡ gone)
          ⊎ ((j : ℕ) × (u.task j ≡ running))
          ⊎ ((v : Tasks fs S) × Own fs S codec M u v))
only_answers_awaited fs S codec M r n permits elsewhere files records u reached some_permit alone =
    (
      total_small n u.task,
      λ v step. Own-left step b,
      elim (zero_or_more (total left_of n u.task)) [
        | inl done ↦ inl (λ i. elim (gone_or_left (u.task i)) [
          | inl none_here ↦ none_here
          | inr part ↦
              let lt : i < n = b.below i (λ g. omega (arith, part, ap left_of g)) in
              absurd (omega (arith, total-ge left_of n i u.task lt))
        ])
        | inr left ↦
            let (i, part) = total-part left_of n u.task left in
            inr (some_step u i b some_permit alone (λ g. omega (arith, part, ap left_of g)))
      ],
    )
  where
    b : IsBounded n (permits + elsewhere) u
    b =
        Reach-IsBounded codec M n (permits + elsewhere) reached
          (spawned-IsBounded fs S codec M r n permits elsewhere files records)
