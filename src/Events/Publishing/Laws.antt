-- ===== src/Events/Publishing/Laws.antt =====
-- A job that is taken becomes a published file (src/app/p2p/events.rs).
use rust_dfs.Base.{ℕ, zero, suc, ◌≡◌, refl, subst, ◌∙◌, some, arith, inl, inr}
use rust_dfs.Base.{Result-cases, ok, Exec, Option-cases}
use rust_dfs.Domain.{FileMetadata, PublishedFileRecord, Sha256Hasher, key, published_record}
use rust_dfs.Store.Codec.{Codecs}
use rust_dfs.Store.Interface.{FileStore, StoreError}
use rust_dfs.Store.Interface
use rust_dfs.Events.State.{Net}
use rust_dfs.Events.Commands.{provide_all}
use rust_dfs.Events.Publishing.{retry, Node, file_publish}

-- The state after a retry is that of its one successful call.
pub retry_sound :
    {S E A : Type 0} (rounds : ℕ) (m : Exec S E A) (s s' : S)
    → retry rounds m s ≡ some s'
    → (t : S) × (a : A) × ((m t).0 ≡ ok a) × ((m t).1 ≡ s')
unfolding retry
retry_sound zero m s s' h = cc
retry_sound (suc rounds) m s s' h = elim (Result-cases (m s).0) [
  | inl (a, done) ↦ (s, a, done, ground (arith, done))
  | inr (_, bad) ↦ retry_sound rounds m (m s).1 s' (ground (arith, bad))
]

-- What every call keeps, a retry keeps.
pub retry-keeps :
    {S E A : Type 0} (P : S → Type 0) (rounds : ℕ) (m : Exec S E A) (s s' : S)
    → ((t : S) → P t → P (m t).1)
    → retry rounds m s ≡ some s'
    → P s
    → P s'
unfolding retry
retry-keeps P zero m s s' keep h p = cc
retry-keeps P (suc rounds) m s s' keep h p = elim (Result-cases (m s).0) [
  | inl (a, done) ↦ subst P (ground (arith, done)) (keep s p)
  | inr (_, bad) ↦ retry-keeps P rounds m (m s).1 s' keep (ground (arith, bad)) (keep s p)
]

retry_ok :
    {S E A : Type 0} (rounds : ℕ) (m : Exec S E A) (s : S) {a : A}
    → (m s).0 ≡ ok a
    → retry (suc rounds) m s ≡ some (m s).1
unfolding retry
retry_ok rounds m s e = rw (e, retry)

module _ (net : Net) (h : Sha256Hasher) (c : Codecs) (S : FileStore)
    (L : Interface.IsLawful S) where
  abbrev the_record : FileMetadata → PublishedFileRecord
  the_record m = published_record h m

  abbrev IsPublished : FileMetadata → S.State → Type 0
  IsPublished m s = S.get_published_file (the_record m).key s ≡ ok (some (the_record m))

  key-published_record : (m : FileMetadata) → (the_record m).key ≡ key h m
  unfolding published_record
  key-published_record m = refl

  put-IsPublished :
      (rounds : ℕ) (m : FileMetadata) (s s' : S.State)
      → retry rounds (S.put_published_file (the_record m)) s ≡ some s'
      → IsPublished m s'
  put-IsPublished rounds m s s' e =
      let (t, tt, done, same) = retry_sound rounds (S.put_published_file (the_record m)) s s' e in
      subst (IsPublished m) same (L.published-put (the_record m) t done)

  delete-IsPublished :
      (rounds : ℕ) (m : FileMetadata) (s s' : S.State)
      → retry rounds (S.delete_file_metadata (key h m)) s ≡ some s'
      → IsPublished m s
      → IsPublished m s'
  delete-IsPublished rounds m s s' e =
      retry-keeps (IsPublished m) rounds (S.delete_file_metadata (key h m)) s s'
        (λ t p. L.published-delete_metadata (key h m) (the_record m).key t ∙ p) e

  -- A publication that has ended, however many of its calls failed on the way, has stored the
  -- record of the file under the key of its metadata.
  pub file_publish-IsPublished :
      (rounds : ℕ) (m : FileMetadata) (n n' : Node net h c S)
      → file_publish net h c S rounds (ok m) n ≡ some n'
      → S.get_published_file (key h m) n'.records ≡ ok (some (published_record h m))
  unfolding file_publish
  file_publish-IsPublished rounds m n n' e =
      elim (Option-cases (retry rounds (provide_all net h c m) n.world)) [
        | inl never ↦ absurd (ground (arith, never))
        | inr (w, provided) ↦
            elim (Option-cases (retry rounds (S.put_published_file (the_record m)) n.records)) [
              | inl never ↦ absurd (ground (arith, provided, never))
              | inr (s, put) ↦
                  elim (Option-cases (retry rounds (S.delete_file_metadata (key h m)) s)) [
                    | inl never ↦ absurd (ground (arith, provided, put, never))
                    | inr (s', gone) ↦
                        let last : s' ≡ n'.records = ground (arith, provided, put, gone) in
                        subst (λ k. S.get_published_file k n'.records ≡ ok (some (the_record m)))
                          (key-published_record m)
                          (subst (IsPublished m) last (
                            delete-IsPublished rounds m s s' gone
                              (put-IsPublished rounds m n.records s put)))
                  ]
            ]
      ]

  -- If the first call of each step succeeds, the publication ends within one round of each, with the
  -- record of the file stored.
  file_publish_ends :
      (rounds : ℕ) (m : FileMetadata) (n : Node net h c S)
      → (provide_all net h c m n.world).0 ≡ ok tt
      → (S.put_published_file (published_record h m) n.records).0 ≡ ok tt
      → (S.delete_file_metadata
          (key h m)
          (S.put_published_file (published_record h m) n.records).1).0
        ≡ ok tt
      → (n' : Node net h c S) × (file_publish net h c S (suc rounds) (ok m) n ≡ some n')
        × (S.get_published_file (key h m) n'.records ≡ ok (some (published_record h m)))
  unfolding file_publish
  file_publish_ends rounds m n provided put gone =
      let n' : Node net h c S = record {
        world = (provide_all net h c m n.world).1;
        records =
            (S.delete_file_metadata (key h m)
              (S.put_published_file (published_record h m) n.records).1).1;
      } in
      let e : file_publish net h c S (suc rounds) (ok m) n ≡ some n' = ground (
        arith,
        retry_ok rounds (provide_all net h c m) n.world provided,
        retry_ok rounds (S.put_published_file (published_record h m)) n.records put,
        retry_ok rounds (S.delete_file_metadata (key h m)) _ gone,
      ) in
      (n', e, file_publish-IsPublished (suc rounds) m n n' e)
