-- ===== src/Download/Scheduler/Laws.antt =====
-- A file has one task at most (src/app/file_download_service.rs).
use rust_dfs.Base.{ℕ, zero, suc, ◌≡◌, ◌≢◌, refl, sym, ap, subst, ◌∙◌, true, false, inl, inr, arith}
use rust_dfs.Base.{
  List, [], ◌∷◌, map, some, get_elem?, text_eq, text_eq_iff, text_eq_refl, Bool-cases, ◌==◌, Result,
  ok, err,
}
use mathlib.Core.Option.{some-injective}
use rust_dfs.Domain.{PendingDownloadRecord}
use rust_dfs.Domain.Keys.{PublishedFileKey}
use rust_dfs.Store.Interface.{StoreError}
use rust_dfs.Download.Scheduler.{
  Downloads, new, has_key, remove_key, remove_at, take_item, take_items, work_on_pending_downloads,
  finish, Step, taken, finished, Reach, here, next,
}

abbrev pub NoTwice : List PublishedFileKey → Type 0
NoTwice [] = Unit
NoTwice (k ∷ ks) = (has_key ks k ≡ false) × NoTwice ks

abbrev pub keys : List PendingDownloadRecord → List PublishedFileKey
keys rs = map (λ r. r.key) rs

-- The set of active downloads is that of the keys of the tasks, and no two tasks have one key.
pub record IsExclusive (d : Downloads) : Type 0 where
  pub same_keys : d.active ≡ keys d.running
  pub exclusive : NoTwice (keys d.running)

-- A key that the rest of the list does not have stays out when others leave.
has_key-remove :
    (j k : PublishedFileKey) (ks : List PublishedFileKey)
    → has_key ks j ≡ false
    → has_key (remove_key k ks) j ≡ false
unfolding remove_key
has_key-remove j k [] h = refl
has_key-remove j k (i ∷ ks) h = ground (arith, has_key-remove j k ks)

remove_key-NoTwice :
    (k : PublishedFileKey) (ks : List PublishedFileKey) → NoTwice ks → NoTwice (remove_key k ks)
unfolding remove_key
remove_key-NoTwice k [] h = tt
remove_key-NoTwice k (j ∷ ks) h = elim (Bool-cases (text_eq j.bytes k.bytes)) [
  | inl first ↦ rw first h.1
  | inr later ↦ rw later (has_key-remove j k ks h.0, remove_key-NoTwice k ks h.1)
]

has_key_at :
    (rs : List PendingDownloadRecord) (i : ℕ) (r : PendingDownloadRecord)
    → get_elem? rs i ≡ some r
    → has_key (keys rs) r.key ≡ true
has_key_at [] i r e = cc
has_key_at (q ∷ rs) zero r e = ground (arith, text_eq_refl r.key.bytes)
has_key_at (q ∷ rs) (suc i) r e = ground (arith, has_key_at rs i r e)

-- The key of a task is the first of its kind, so its removal hits that task.
keys-remove_at :
    (rs : List PendingDownloadRecord) (i : ℕ) (r : PendingDownloadRecord)
    → NoTwice (keys rs)
    → get_elem? rs i ≡ some r
    → keys (remove_at i rs) ≡ remove_key r.key (keys rs)
unfolding remove_at remove_key
keys-remove_at [] i r h e = cc
keys-remove_at (q ∷ rs) zero r h e = ground (arith, text_eq_refl r.key.bytes)
keys-remove_at (q ∷ rs) (suc i) r h e = elim (Bool-cases (text_eq q.key.bytes r.key.bytes)) [
  | inl clash ↦
      let same : q.key.bytes ≡ r.key.bytes = (text_eq_iff q.key.bytes r.key.bytes).0 clash in
      let again : has_key (keys rs) q.key ≡ true =
        subst (λ bs. has_key (keys rs) (record { bytes = bs }) ≡ true) (sym same)
          (has_key_at rs i r e) in
      cc (sym h.0 ∙ again)
  | inr apart ↦ rw apart (ap (λ ks. q.key ∷ ks) (keys-remove_at rs i r h.1 e))
]

Step-IsExclusive : {d e : Downloads} → Step d e → IsExclusive d → IsExclusive e
unfolding take_item finish
Step-IsExclusive (taken (err _) d) inv = inv
Step-IsExclusive (taken (ok r) d) inv = elim (Bool-cases (has_key d.active r.key)) [
  | inl old ↦ rw old inv
  | inr new ↦ rw new (record {
    same_keys = ap (λ ks. r.key ∷ ks) inv.same_keys;
    exclusive = (sym (ap (λ ks. has_key ks r.key) inv.same_keys) ∙ new, inv.exclusive);
  })
]
Step-IsExclusive (finished i r d at) inv =
    let same = keys-remove_at d.running i r inv.exclusive at in
    record {
      same_keys = ap (remove_key r.key) inv.same_keys ∙ sym same;
      exclusive = rw same (remove_key-NoTwice r.key (keys d.running) inv.exclusive);
    }

-- However items are taken and tasks end, no two tasks ever work on the same file, and the set of
-- active downloads holds the keys of the tasks.
pub reach-IsExclusive : {d : Downloads} → Reach new d → IsExclusive d
unfolding new
reach-IsExclusive here = record { same_keys = refl; exclusive = tt }
reach-IsExclusive (next r s) = Step-IsExclusive s (reach-IsExclusive r)

-- A round of the service is a run of such steps.
pub items-Reach :
    {d : Downloads} (permits : ℕ → ℕ) (i : ℕ)
    (items : List (Result StoreError PendingDownloadRecord)) (e : Downloads)
    → Reach d e
    → Reach d (take_items permits i items e)
unfolding take_items
items-Reach permits i [] e r = r
items-Reach permits i (item ∷ items) e r = elim (Bool-cases (permits i == 0)) [
  | inl none_left ↦ rw none_left r
  | inr some_left ↦ rw some_left (items-Reach permits (suc i) items _ (next r (taken item e)))
]

work-Reach :
    {d : Downloads} (permits : ℕ → ℕ) (items : List (Result StoreError PendingDownloadRecord))
    (e : Downloads)
    → Reach d e
    → Reach d (work_on_pending_downloads permits items e)
unfolding work_on_pending_downloads
work-Reach permits items e r = elim (Bool-cases (permits 0 == 0)) [
  | inl none_left ↦ rw none_left r
  | inr some_left ↦ rw some_left (items-Reach permits 1 items e r)
]

take_keeps :
    (item : Result StoreError PendingDownloadRecord) (d : Downloads) (k : PublishedFileKey)
    → has_key d.active k ≡ true
    → has_key (take_item item d).active k ≡ true
unfolding take_item
take_keeps (err e) d k h = h
take_keeps (ok r) d k h = ground arith

take_adds :
    (r : PendingDownloadRecord) (d : Downloads) → has_key (take_item (ok r) d).active r.key ≡ true
unfolding take_item
take_adds r d = ground (arith, text_eq_refl r.key.bytes)

items_keep :
    (permits : ℕ → ℕ) (i : ℕ) (items : List (Result StoreError PendingDownloadRecord))
    (d : Downloads) (k : PublishedFileKey)
    → has_key d.active k ≡ true
    → has_key (take_items permits i items d).active k ≡ true
unfolding take_items
items_keep permits i [] d k h = h
items_keep permits i (item ∷ items) d k h =
    ground (arith, items_keep permits (suc i) items (take_item item d) k (take_keeps item d k h))

items_start :
    (permits : ℕ → ℕ) (i : ℕ) (items : List (Result StoreError PendingDownloadRecord))
    (d : Downloads) (j : ℕ) (r : PendingDownloadRecord)
    → ((n : ℕ) → permits n ≢ 0)
    → get_elem? items j ≡ some (ok r)
    → has_key (take_items permits i items d).active r.key ≡ true
unfolding take_items
items_start permits i [] d j r free e = cc
items_start permits i (item ∷ items) d zero r free e =
    let same : item ≡ ok r = some-injective item (ok r) e in
    rw same (
      ground (
        arith,
        free i,
        items_keep permits (suc i) items (take_item (ok r) d) r.key (take_adds r d),
      ))
items_start permits i (item ∷ items) d (suc j) r free e =
    ground (arith, free i, items_start permits (suc i) items (take_item item d) j r free e)

-- As long as permits are left, a round gives a task to every download of the stream that could be
-- read, or it has one already, and there is still one task for each file at most. The downloads were
-- reached from the start by items taken and tasks ended.
pub work_on_pending_downloads_starts :
    {d : Downloads} (permits : ℕ → ℕ) (items : List (Result StoreError PendingDownloadRecord))
    (j : ℕ) (r : PendingDownloadRecord)
    → Reach new d
    → ((n : ℕ) → permits n ≢ 0)
    → get_elem? items j ≡ some (ok r)
    → (has_key (keys (work_on_pending_downloads permits items d).running) r.key ≡ true)
      × NoTwice (keys (work_on_pending_downloads permits items d).running)
unfolding work_on_pending_downloads
work_on_pending_downloads_starts {d} permits items j r reached free e =
    let inv = reach-IsExclusive (work-Reach permits items d reached) in
    (
      sym (ap (λ ks. has_key ks r.key) inv.same_keys)
          ∙ ground (arith, free 0, items_start permits 1 items d j r free e),
      inv.exclusive,
    )
