-- ===== src/Download/Concurrent/Schedule.antt =====
-- The tasks of `download` (src/app/file_download_service.rs) one after the other are one way in
-- which they take turns.
use rust_dfs.Base.{ℕ, ◌<◌, ◌≡◌, ◌≢◌, refl, sym, ap, subst, ◌∙◌, true, false, arith}
use rust_dfs.Base.{List, [], ◌∷◌, All, length, range, ok, none, inl, inr, Bool-cases, ltb, ◌==◌}
use rust_dfs.Base.Sets.{
  contains, Distinct, IsReordering, range_from-Distinct, range_from-contains, contains-range_from,
  All-of_contains,
}
use rust_dfs.Domain.{FileMetadata, PendingDownloadRecord}
use rust_dfs.Store.Codec.{Cbor}
use rust_dfs.Store.Interface.{FileStore}
use rust_dfs.Processing.Fs.{Fs}
use rust_dfs.Processing.Merkle.{Merkle}
use rust_dfs.Download.Chunk.{Answers, download_file_chunk}
use rust_dfs.Download.Service.Download.{
  Progress, chunk_of, missing, run_task, run_tasks, outcome, download,
}
use rust_dfs.Processing.Publish.{metadata_file_name}
use rust_dfs.Base.Paths.{join}
use rust_dfs.Base.Text.{Bytes}
use rust_dfs.Download.Service.Laws.Run.{contains-missing, missing-Distinct}
use rust_dfs.Download.Concurrent.{
  Task, gone, waiting, running, ended, Tasks, set, spawned, spawn_tasks, work, acquired, worked,
  taken, own, Reach, here, next,
}
use rust_dfs.Download.Concurrent.Total.{set-cases}

All-at : (P : ℕ → Type 0) (xs : List ℕ) (a : ℕ) → All P xs → contains xs a ≡ true → P a
unfolding contains
All-at P [] a h e = cc
All-at P (x ∷ xs) a h e = elim (Bool-cases (x == a)) [
  | inl same ↦ let at : x ≡ a = ground (arith, same) in subst P at h.0
  | inr apart ↦ All-at P xs a h.1 (ground (arith, apart))
]

not_first :
    (i j : ℕ) (is : List ℕ) → contains (i ∷ is) j ≡ false → (i ≢ j) × (contains is j ≡ false)
unfolding contains
not_first i j is h = (λ e. ground arith, ground arith)

stay_waiting :
    (i : ℕ) (is : List ℕ) (before after : ℕ → Task)
    → contains is i ≡ false
    → ((j : ℕ) → i ≢ j → after j ≡ before j)
    → All (λ j. before j ≡ waiting) is
    → All (λ j. after j ≡ waiting) is
unfolding contains
stay_waiting i [] before after apart same waits = tt
stay_waiting i (j ∷ is) before after apart same waits = (
  same j (λ e. ground arith) ∙ waits.0,
  stay_waiting i is before after (ground arith) same waits.1,
)

module _ (fs : Fs) (S : FileStore) (codec : Cbor FileMetadata) (M : Merkle) where
  Reach-trans :
      {t u v : Tasks fs S}
      → Reach fs S codec M t u
      → Reach fs S codec M u v
      → Reach fs S codec M t v
  Reach-trans r here = r
  Reach-trans r (next s step) = next (Reach-trans r s) step

  at_set : (i : ℕ) (new : Task) (tasks : ℕ → Task) → set i new tasks i ≡ new
  at_set i new tasks = elim (set-cases i i new tasks) [
    | inl (_, at) ↦ at
    | inr (apart, _) ↦ absurd (apart refl)
  ]

  beside_set : (i j : ℕ) (new : Task) (tasks : ℕ → Task) → i ≢ j → set i new tasks j ≡ tasks j
  beside_set i j new tasks ne = elim (set-cases i j new tasks) [
    | inl (same, _) ↦ absurd (ne same)
    | inr (_, old) ↦ old
  ]

  -- A task gets its permit, works and is joined, before another one does anything.
  task_alone :
      (a : ℕ → Answers) (i : ℕ) (t : Tasks fs S)
      → t.task i ≡ waiting
      → 0 < t.permits
      → (u : Tasks fs S) × Reach fs S codec M t u
        × (u.progress ≡ run_task fs S codec M a i t.progress)
        × (0 < u.permits)
        × (u.task i ≡ gone)
        × ((j : ℕ) → i ≢ j → u.task j ≡ t.task j)
  unfolding run_task work chunk_of
  task_alone a i t waits free =
      let before : ℕ → Task = set i running t.task in
      let result : Task =
        ended
          (download_file_chunk fs codec M (chunk_of fs S codec M t.progress.pending i) (a i)
            t.progress.files).0 in
      let after : ℕ → Task = set i result before in
      (
        _,
        next
            (next (next here (own (acquired i waits free)))
              (own (worked i (a i) (at_set i running t.task))))
            (own (taken i _ (at_set i result before))),
        refl,
        omega arith,
        at_set i gone after,
        λ j ne.
            beside_set i j gone after ne
            ∙ beside_set i j result before ne
            ∙ beside_set i j running t.task ne,
      )

  -- The tasks of the list, one after the other.
  tasks_in_turn :
      (a : ℕ → Answers) (is : List ℕ) (t : Tasks fs S)
      → Distinct is
      → All (λ i. t.task i ≡ waiting) is
      → 0 < t.permits
      → (u : Tasks fs S) × Reach fs S codec M t u
        × (u.progress ≡ run_tasks fs S codec M a is t.progress)
        × ((j : ℕ) → contains is j ≡ false → u.task j ≡ t.task j)
        × All (λ i. u.task i ≡ gone) is
  unfolding run_tasks contains
  tasks_in_turn a [] t distinct waits free = (t, here, refl, λ j _. refl, tt)
  tasks_in_turn a (i ∷ is) t distinct waits free =
      let (u, alone, did, left, done, same) = task_alone a i t waits.0 free in
      let (v, rest, rest_did, rest_same, rest_done) =
        tasks_in_turn a is u distinct.1 (stay_waiting i is t.task u.task distinct.0 same waits.1)
          left in
      (
        v,
        Reach-trans alone rest,
        rest_did ∙ ap (run_tasks fs S codec M a is) did,
        λ j apart. let (ne, later) = not_first i j is apart in rest_same j later ∙ same j ne,
        (rest_same i distinct.0 ∙ done, rest_done),
      )

-- The tasks of a file of `n` chunks, in some order.
module _ (r : PendingDownloadRecord) (n : ℕ) (order : List ℕ → List ℕ)
    (reorders : IsReordering order) where
  all_waiting : All (λ i. spawned r n i ≡ waiting) (order (missing r (range n)))
  unfolding spawned
  all_waiting =
      All-of_contains (λ i. spawned r n i ≡ waiting) (order (missing r (range n)))
        λ i member.
          let both = reorders.same_members (missing r (range n)) i in
          let which = contains-missing r (range n) i in
          let lt : i < n = omega (arith, (contains-range_from 0 n i (ground arith)).1) in
          ground arith

  gone_besides : (i : ℕ) → contains (order (missing r (range n))) i ≡ false → spawned r n i ≡ gone
  unfolding spawned
  gone_besides i apart = elim (Bool-cases (ltb i n)) [
    | inr above ↦ ground arith
    | inl lt ↦
        let both = reorders.same_members (missing r (range n)) i in
        let which = contains-missing r (range n) i in
        let in_range = range_from-contains 0 n i (ground arith) (ground arith) in ground arith
  ]

module _ (fs : Fs) (S : FileStore) (codec : Cbor FileMetadata) (M : Merkle)
    (order : List ℕ → List ℕ) (reorders : IsReordering order) (a : ℕ → Answers)
    (r : PendingDownloadRecord) (permits elsewhere : ℕ) (files : fs.State) (records : S.State) where
  in_turn : FileMetadata → Progress fs S
  in_turn m =
      run_tasks fs S codec M a (order (missing r (range (length m.merkle_proofs))))
        (record { files = files; records = records; pending = r; first_error = none })

  download_lem :
      (m : FileMetadata) (raw : Bytes)
      → fs.read (join r.chunks_dir metadata_file_name) files ≡ ok raw
      → codec.from_slice raw ≡ ok m
      → download fs S codec M order a r files records ≡ (
        outcome
            (in_turn m).first_error
            (length (in_turn m).pending.downloaded_chunks == length m.merkle_proofs),
        in_turn m,
      )
  unfolding download in_turn
  download_lem m raw stored decoded = rw (stored, download, decoded) refl

  -- What `download` does with its tasks one after the other, in whatever order, is one of the ways
  -- in which they take turns: it ends with the result of every task taken, the same files and records,
  -- and the outcome that the loop over `join_next` gives. The metadata has to be there, and a permit.
  pub download_schedule :
      (m : FileMetadata) (raw : Bytes)
      → fs.read (join r.chunks_dir metadata_file_name) files ≡ ok raw
      → codec.from_slice raw ≡ ok m
      → 0 < permits
      → (u : Tasks fs S) × Reach fs S codec M
          (spawn_tasks fs S codec M r (length m.merkle_proofs) permits elsewhere files records)
          u
        × ((i : ℕ) → u.task i ≡ gone)
        × (download fs S codec M order a r files records ≡ (
          outcome u.progress.first_error
              (length u.progress.pending.downloaded_chunks == length m.merkle_proofs),
          u.progress,
        ))
  unfolding spawn_tasks in_turn
  download_schedule m raw stored decoded free =
      let n = length m.merkle_proofs in
      let is = order (missing r (range n)) in
      let (u, reached, did, beside, all_done) =
        tasks_in_turn fs S codec M a is
          (spawn_tasks fs S codec M r n permits elsewhere files records)
          (reorders.still_distinct _ (missing-Distinct r _ (range_from-Distinct 0 _)))
          (all_waiting r n order reorders) free in
      (
        u,
        reached,
        λ i. elim (Bool-cases (contains is i)) [
          | inl member ↦ All-at (λ j. u.task j ≡ gone) is i all_done member
          | inr apart ↦ beside i apart ∙ gone_besides r n order reorders i apart
        ],
        download_lem m raw stored decoded
            ∙ ap
                (λ (p : Progress fs S).
                  (outcome p.first_error (length p.pending.downloaded_chunks == n), p))
                (sym did),
      )
