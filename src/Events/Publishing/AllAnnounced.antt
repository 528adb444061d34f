-- ===== src/Events/Publishing/AllAnnounced.antt =====
-- What `provide_all_published_files` of src/app/p2p/events.rs has told the network when it ends.
use rust_dfs.Base.{
  ℕ, zero, suc, ◌≡◌, refl, sym, ap, subst, ◌∙◌, some, List, [], ◌∷◌, arith, inl, inr, get_elem?,
}
use mathlib.Core.Option.{some-injective}
use rust_dfs.Base.{Result, ok, err, ok-injective, Result-cases}
use rust_dfs.Base.Text.{Bytes, Text}
use rust_dfs.Base.Paths.{join}
use rust_dfs.Domain.{FileMetadata, PublishedFileRecord, Sha256Hasher}
use rust_dfs.Store.Codec.{Codecs}
use rust_dfs.Store.Db.{NeverFails}
use rust_dfs.Store.Interface.{FileStore, StoreError}
use rust_dfs.Processing.Fs.{Fs}
use rust_dfs.Processing.Publish.{metadata_file_name}
use rust_dfs.Events.State.{Net, World}
use rust_dfs.Events.Commands.{provide_all}
use rust_dfs.Events.Publishing.{provide_all_published_files}
use rust_dfs.Events.Publishing.Keeps.{provide_all_published_files-keeps}
use rust_dfs.Events.Publishing.Announced.{IsAnnounced, did-IsAnnounced, provide_all-IsAnnounced}

abbrev Stream : Type 0
Stream = List (Result StoreError PublishedFileRecord)

module _ (net : Net) (h : Sha256Hasher) (c : Codecs) (S : FileStore) (fs : Fs) (files : fs.State)
    (show : StoreError → Text) where
  abbrev provide : Stream → World → Result Text Unit × World
  provide = provide_all_published_files net h c S fs files show

  -- What the loop does with a record that it can provide.
  Provides : PublishedFileRecord → FileMetadata → Type 0
  Provides r m =
      (raw : Bytes) × (fs.read (join r.chunks_dir metadata_file_name) files ≡ ok raw)
      × (c.metadata.from_slice raw ≡ ok m)

  -- A success has passed a record whose metadata is missing, or provided it.
  passed :
      (r : PublishedFileRecord) (rest : Stream) (w : World)
      → (provide (ok r ∷ rest) w).0 ≡ ok tt
      → (v : World) × ((provide rest v).0 ≡ ok tt)
        × (provide (ok r ∷ rest) w ≡ provide rest v)
        × ((m : FileMetadata) → Provides r m → IsAnnounced net h c m v)
  unfolding provide_all_published_files Provides
  passed r rest w e = elim (Result-cases (fs.read (join r.chunks_dir metadata_file_name) files)) [
    | inr (_, gone) ↦ (
      w,
      rw (gone, provide_all_published_files) at e,
      rw (gone, provide_all_published_files) refl,
      λ m p. cc (sym gone ∙ p.1),
    )
    | inl (raw, there) ↦ elim (Result-cases (c.metadata.from_slice raw)) [
      | inr (_, bad) ↦ absurd (ground (arith, there, bad))
      | inl (m, decoded) ↦ elim (Result-cases (provide_all net h c m w).0) [
        | inr (_, bad) ↦ absurd (ground (arith, there, decoded, bad))
        | inl (_, done) ↦ (
          (provide_all net h c m w).1,
          rw (there, provide_all_published_files, decoded, done) at e,
          rw (there, provide_all_published_files, decoded, done) refl,
          λ m' p.
              let same_raw : raw ≡ p.0 = ok-injective (sym there ∙ p.1) in
              let same : m ≡ m' =
                ok-injective (sym decoded ∙ ap c.metadata.from_slice same_raw ∙ p.2) in
              subst (λ k. IsAnnounced net h c k (provide_all net h c m w).1) same
                (provide_all-IsAnnounced net h c m w done),
        )
      ]
    ]
  ]

  -- A success has read the whole stream.
  pub provide-NeverFails :
      (stream : Stream) (w : World) → (provide stream w).0 ≡ ok tt → NeverFails stream
  unfolding provide_all_published_files
  provide-NeverFails [] w e j x at = cc at
  provide-NeverFails (err y ∷ rest) w e j x at = cc e
  provide-NeverFails (ok r ∷ rest) w e zero x at = cc at
  provide-NeverFails (ok r ∷ rest) w e (suc j) x at =
      let (v, done, _, _) = passed r rest w e in provide-NeverFails rest v done j x at

  -- A success of `provide_all_published_files` has told the network of the metadata and of every
  -- chunk of each record of the stream whose metadata file can be read.
  pub provide_all_published_files-IsAnnounced :
      (stream : Stream) (w : World)
      → (provide stream w).0 ≡ ok tt
      → (j : ℕ) (r : PublishedFileRecord) (m : FileMetadata) (raw : Bytes)
      → get_elem? stream j ≡ some (ok r)
      → fs.read (join r.chunks_dir metadata_file_name) files ≡ ok raw
      → c.metadata.from_slice raw ≡ ok m
      → IsAnnounced net h c m (provide stream w).1
  unfolding provide_all_published_files Provides
  provide_all_published_files-IsAnnounced [] w e j r m raw at there decoded = cc at
  provide_all_published_files-IsAnnounced (err x ∷ rest) w e j r m raw at there decoded = cc e
  provide_all_published_files-IsAnnounced (ok q ∷ rest) w e zero r m raw at there decoded =
      let (v, done, same, told) = passed q rest w e in
      let here : q ≡ r = ok-injective (some-injective _ _ at) in
      subst (λ (x : Result Text Unit × World). IsAnnounced net h c m x.1) (sym same)
        (provide_all_published_files-keeps net h c (IsAnnounced net h c m)
          (λ x u _. did-IsAnnounced net h c m x u) S fs files show rest v
          (told m (subst (λ k. Provides k m) (sym here) (raw, there, decoded))))
  provide_all_published_files-IsAnnounced (ok q ∷ rest) w e (suc j) r m raw at there decoded =
      let (v, done, same, _) = passed q rest w e in
      subst (λ (x : Result Text Unit × World). IsAnnounced net h c m x.1) (sym same)
        (provide_all_published_files-IsAnnounced rest v done j r m raw at there decoded)
