-- ===== src/Download/Concurrent/Permits.antt =====
-- The permits of the tasks of `download` (src/app/file_download_service.rs).
use rust_dfs.Base.{ℕ, suc, ◌+◌, ◌≤◌, ◌<◌, ◌≡◌, ◌≢◌, refl, sym, ap, subst, ◌∙◌, arith}
use rust_dfs.Base.{Bool-cases, inl, inr, ◌==◌}
use rust_dfs.Base.{ltb}
use rust_dfs.Domain.{FileMetadata, PendingDownloadRecord}
use rust_dfs.Store.Codec.{Cbor}
use rust_dfs.Store.Interface.{FileStore}
use rust_dfs.Processing.Fs.{Fs}
use rust_dfs.Processing.Merkle.{Merkle}
use rust_dfs.Download.Concurrent.{
  Task, gone, running, Tasks, set, spawned, spawn_tasks, work, Own, acquired, worked, taken, Step,
  own, other, Reach, here, next,
}
use rust_dfs.Download.Concurrent.Total.{held_by, total, total-set}

-- The tasks belong to chunks below `n`, and the permits add up to those the service started with.
pub record IsBounded {fs : Fs} {S : FileStore} (n max : ℕ) (t : Tasks fs S) : Type 0 where
  pub below : (i : ℕ) → t.task i ≢ gone → i < n
  pub conserved : t.permits + t.elsewhere + total held_by n t.task ≡ max

below-set :
    (n i : ℕ) (new : Task) (tasks : ℕ → Task)
    → ((j : ℕ) → tasks j ≢ gone → j < n)
    → tasks i ≢ gone
    → (j : ℕ) → set i new tasks j ≢ gone
    → j < n
below-set n i new tasks h there j = elim (Bool-cases (i == j)) [
  | inl same ↦ λ _. let e : i ≡ j = ground (arith, same) in subst (λ k. k < n) e (h i there)
  | inr apart ↦ rw apart (h j)
]

module _ {fs : Fs} {S : FileStore} (codec : Cbor FileMetadata) (M : Merkle) (n max : ℕ) where
  pub Own-IsBounded :
      {t u : Tasks fs S} → Own fs S codec M t u → IsBounded n max t → IsBounded n max u
  unfolding work
  Own-IsBounded {t} (acquired i e free) b =
      let there : t.task i ≢ gone = λ g. cc (sym e ∙ g) in
      record {
        below = below-set n i running t.task b.below there;
        conserved = omega (
          arith,
          total-set held_by n i running t.task (b.below i there),
          ap held_by e,
          b.conserved,
        );
      }
  Own-IsBounded {t} (worked i a e) b =
      let there : t.task i ≢ gone = λ g. cc (sym e ∙ g) in
      record {
        below = below-set n i _ t.task b.below there;
        conserved =
            omega
              (arith, total-set held_by n i _ t.task (b.below i there), ap held_by e, b.conserved);
      }
  Own-IsBounded {t} (taken i r e) b =
      let there : t.task i ≢ gone = λ g. cc (sym e ∙ g) in
      record {
        below = below-set n i gone t.task b.below there;
        conserved =
            omega (
              arith,
              total-set held_by n i gone t.task (b.below i there),
              ap held_by e,
              b.conserved,
            );
      }

  Step-IsBounded :
      {t u : Tasks fs S} → Step fs S codec M t u → IsBounded n max t → IsBounded n max u
  Step-IsBounded (own s) b = Own-IsBounded s b
  Step-IsBounded (other permits elsewhere files records same apart) b = record {
    below = b.below;
    conserved = omega (arith, same, b.conserved);
  }

  -- Permits are neither lost nor made.
  pub Reach-IsBounded :
      {t u : Tasks fs S} → Reach fs S codec M t u → IsBounded n max t → IsBounded n max u
  Reach-IsBounded here b = b
  Reach-IsBounded (next r s) b = Step-IsBounded s (Reach-IsBounded r b)

none_runs : (r : PendingDownloadRecord) (n k : ℕ) → total held_by k (spawned r n) ≡ 0
unfolding total spawned
none_runs r n ℕ.zero = refl
none_runs r n (suc k) = ground (arith, none_runs r n k)

spawned_below : (r : PendingDownloadRecord) (n i : ℕ) → spawned r n i ≢ gone → i < n
unfolding spawned
spawned_below r n i there = elim (Bool-cases (ltb i n)) [
  | inl lt ↦ ground (arith, lt)
  | inr above ↦ absurd (there (ground (arith, above)))
]

pub spawned-IsBounded :
    (fs : Fs) (S : FileStore) (codec : Cbor FileMetadata) (M : Merkle) (r : PendingDownloadRecord)
    (n permits elsewhere : ℕ) (files : fs.State) (records : S.State)
    → IsBounded n
        (permits + elsewhere)
        (spawn_tasks fs S codec M r n permits elsewhere files records)
unfolding spawn_tasks spawned
spawned-IsBounded fs S codec M r n permits elsewhere files records = record {
  below = spawned_below r n;
  conserved = omega (arith, none_runs r n n);
}

-- However the tasks of a download take turns, with each other and with those of other downloads,
-- the tasks that hold a permit and the permits held elsewhere are never more than the permits that
-- the service has, and a task runs only for one of the `n` chunks.
pub running_bounded :
    (fs : Fs) (S : FileStore) (codec : Cbor FileMetadata) (M : Merkle) (r : PendingDownloadRecord)
    (n permits elsewhere : ℕ) (files : fs.State) (records : S.State) (u : Tasks fs S)
    → Reach fs S codec M (spawn_tasks fs S codec M r n permits elsewhere files records) u
    → (total held_by n u.task + u.elsewhere ≤ permits + elsewhere)
      × ((i : ℕ) → u.task i ≡ running → i < n)
running_bounded fs S codec M r n permits elsewhere files records u reached =
    let b =
      Reach-IsBounded codec M n (permits + elsewhere) reached
        (spawned-IsBounded fs S codec M r n permits elsewhere files records) in
    (omega (arith, b.conserved), λ i e. b.below i (λ g. cc (sym e ∙ g)))
