-- ===== src/Startup/Keypair.antt =====
-- `keypair` of src/app/p2p/service.rs: the identity of a node, which is made at its first start.
pub mod Laws
use rust_dfs.Base.{◌≡◌, if◌then◌else◌}
use rust_dfs.Base.{Result, ok, err, Exec, pure, query, lift, map_err, wrap_err, ◌>>=◌, ◌>>◌}
use rust_dfs.Base.Text.{Bytes, Text}
use rust_dfs.Base.Paths.{PathBuf, parent}
use rust_dfs.Processing.Fs.{Fs}
use rust_dfs.Processing.Publish.{ok_or}
use rust_dfs.Startup.Errors.{P2pNetworkError, failed_to_get_keypair_file_dir, io, keypair_decoding}

-- The keys of the crate libp2p, with their protobuf encoding.
pub record Keys : Type 1 where
  pub Keypair : Type 0
  pub to_protobuf_encoding : Keypair → Result Text Bytes
  pub from_protobuf_encoding : Bytes → Result Text Keypair

-- What was encoded can be decoded again.
pub record IsLawful (K : Keys) : Type 0 where
  pub decodes :
      (k : K.Keypair) {bytes : Bytes}
      → K.to_protobuf_encoding k ≡ ok bytes
      → K.from_protobuf_encoding bytes ≡ ok k

-- `generated` is the key pair that `generate_ed25519` makes, should it be called.
unfoldable pub keypair :
    (fs : Fs) (K : Keys) → PathBuf → K.Keypair → Exec fs.State P2pNetworkError K.Keypair
keypair fs K keypair_file generated = do
  exists ← query (λ s. map_err io (fs.try_exists keypair_file s))
  if exists
      then (do
        bytes ← query (λ s. map_err io (fs.read keypair_file s))
        lift (map_err keypair_decoding (K.from_protobuf_encoding bytes)))
      else (do
        dir ← lift (ok_or (failed_to_get_keypair_file_dir keypair_file) (parent keypair_file))
        wrap_err io (fs.create_dir_all dir)
        encoded ← lift (map_err keypair_decoding (K.to_protobuf_encoding generated))
        wrap_err io (fs.write keypair_file encoded)
        pure generated)
