-- ===== src/Download/Concurrent/Total.antt =====
-- Sums over the tasks of a download (src/app/file_download_service.rs).
use rust_dfs.Base.{
  ℕ, zero, suc, ◌+◌, ◌≤◌, ◌<◌, ◌≡◌, ◌≢◌, refl, ◌⊎◌, inl, inr, arith, ◌==◌, Bool-cases,
}
use rust_dfs.Download.Concurrent.{Task, gone, waiting, running, ended, set}

pub set-cases :
    (i j : ℕ) (new : Task) (tasks : ℕ → Task)
    → ((i ≡ j) × (set i new tasks j ≡ new)) ⊎ ((i ≢ j) × (set i new tasks j ≡ tasks j))
set-cases i j new tasks = elim (Bool-cases (i == j)) [
  | inl same ↦ inl (ground (arith, same), ground (arith, same))
  | inr apart ↦ inr (λ e. ground (arith, apart), ground (arith, apart))
]

-- The permits that a task holds.
abbrev pub held_by : Task → ℕ
held_by running = 1
held_by _ = 0

-- The steps that a task has before it.
abbrev pub left_of : Task → ℕ
left_of gone = 0
left_of waiting = 3
left_of running = 2
left_of (ended _) = 1

module _ (w : Task → ℕ) where
  unfoldable pub total : ℕ → (ℕ → Task) → ℕ
  total zero tasks = 0
  total (suc n) tasks = total n tasks + w (tasks n)

  total-set_above :
      (n i : ℕ) (t : Task) (tasks : ℕ → Task) → n ≤ i → total n (set i t tasks) ≡ total n tasks
  unfolding total
  total-set_above zero i t tasks h = refl
  total-set_above (suc n) i t tasks h = ground (arith, total-set_above n i t tasks)

  pub total-set :
      (n i : ℕ) (t : Task) (tasks : ℕ → Task)
      → i < n
      → total n (set i t tasks) + w (tasks i) ≡ total n tasks + w t
  unfolding total
  total-set zero i t tasks h = absurd (omega arith)
  total-set (suc n) i t tasks h = elim (Bool-cases (i == n)) [
    | inl last ↦
        let same : i ≡ n = ground (arith, last) in ground (arith, total-set_above n i t tasks)
    | inr before ↦ ground (arith, before, total-set n i t tasks)
  ]

  -- A sum that is not 0 has a part that is not 0.
  pub total-part : (n : ℕ) (tasks : ℕ → Task) → 0 < total n tasks → (i : ℕ) × (0 < w (tasks i))
  unfolding total
  total-part zero tasks h = absurd (omega arith)
  total-part (suc n) tasks h = elim (zero_or_more (w (tasks n))) [
    | inl nothing ↦ total-part n tasks (omega arith)
    | inr part ↦ (n, part)
  ]
    where
      zero_or_more : (k : ℕ) → (k ≡ 0) ⊎ (0 < k)
      zero_or_more zero = inl refl
      zero_or_more (suc k) = inr (omega arith)

  pub total-ge : (n i : ℕ) (tasks : ℕ → Task) → i < n → w (tasks i) ≤ total n tasks
  unfolding total
  total-ge zero i tasks h = absurd (omega arith)
  total-ge (suc n) i tasks h = elim (Bool-cases (i == n)) [
    | inl last ↦ let same : i ≡ n = ground (arith, last) in rw same (omega arith)
    | inr before ↦ let lt : i < n = ground (arith, before) in omega (arith, total-ge n i tasks lt)
  ]
