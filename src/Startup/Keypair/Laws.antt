-- ===== src/Startup/Keypair/Laws.antt =====
-- A node keeps its identity (src/app/p2p/service.rs).
use rust_dfs.Base.{◌≡◌, refl, ◌∙◌, true, false, inl, inr, arith}
use rust_dfs.Base.{ok, Result-cases, Option-cases}
use rust_dfs.Base.Text.{Bytes}
use rust_dfs.Base.Paths.{PathBuf, parent}
use rust_dfs.Processing.Fs.{Fs}
use rust_dfs.Processing.Fs
use rust_dfs.Startup.Keypair.{Keys, IsLawful, keypair}

module _ (fs : Fs) (F : Fs.IsLawful fs) (K : Keys) (L : IsLawful K) (file : PathBuf) where
  -- The file holds the key pair that was returned.
  keypair_stored :
      (generated k : K.Keypair) (s : fs.State)
      → (keypair fs K file generated s).0 ≡ ok k
      → (bytes : Bytes) × (fs.read file (keypair fs K file generated s).1 ≡ ok bytes)
        × (K.from_protobuf_encoding bytes ≡ ok k)
  unfolding keypair
  keypair_stored generated k s e = elim (Result-cases (fs.try_exists file s)) [
    | inr (_, bad) ↦ absurd (ground (arith, bad))
    | inl (true, there) ↦ elim (Result-cases (fs.read file s)) [
      | inr (_, bad) ↦ absurd (ground (arith, there, bad))
      | inl (bytes, held) ↦ elim (Result-cases (K.from_protobuf_encoding bytes)) [
        | inr (_, bad) ↦ absurd (ground (arith, there, held, bad))
        | inl (k', decoded) ↦ (bytes, rw (there, held) held, ground (arith, there, held, decoded))
      ]
    ]
    | inl (false, absent) ↦ elim (Option-cases (parent file)) [
      | inl bad ↦ absurd (ground (arith, absent, bad))
      | inr (dir, above) ↦ elim (Result-cases (fs.create_dir_all dir s).0) [
        | inr (_, bad) ↦ absurd (ground (arith, absent, above, bad))
        | inl (_, made) ↦ elim (Result-cases (K.to_protobuf_encoding generated)) [
          | inr (_, bad) ↦ absurd (ground (arith, absent, above, made, bad))
          | inl (bytes, encoded) ↦
              elim (Result-cases (fs.write file bytes (fs.create_dir_all dir s).1).0) [
                | inr (_, bad) ↦ absurd (ground (arith, absent, above, made, encoded, bad))
                | inl (_, done) ↦ (
                  bytes,
                  rw (absent, above, made, encoded, done) (F.read-write file bytes _ done),
                  L.decodes generated encoded ∙ ground (arith, absent, above, made, encoded, done),
                )
              ]
        ]
      ]
    ]
  ]

  -- Once a start has got its key pair, every later start gets the same one, whatever key pair it
  -- would have generated, and changes no file: as long as the file of the key pair is left alone.
  -- What was encoded must decode.
  pub keypair_stable :
      (generated generated' k : K.Keypair) (s later : fs.State)
      → (keypair fs K file generated s).0 ≡ ok k
      → fs.read file later ≡ fs.read file (keypair fs K file generated s).1
      → keypair fs K file generated' later ≡ (ok k, later)
  unfolding keypair
  keypair_stable generated generated' k s later e untouched =
      let (bytes, stored, decoded) = keypair_stored generated k s e in
      let held : fs.read file later ≡ ok bytes = untouched ∙ stored in
      rw (F.exists_of_read file later held, held, decoded) refl
