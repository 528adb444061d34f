-- ===== src/Processing/Errors.antt =====
-- src/app/file_processing/errors.rs. `out_of_fuel` is the model's own.
use rust_dfs.Base.Text.{Text}

pub data FileProcessingError : Type 0 where
  file_access : Text → FileProcessingError
  io : Text → FileProcessingError
  merkle_tree_creation : Text → FileProcessingError
  cbor : Text → FileProcessingError
  out_of_fuel : FileProcessingError
