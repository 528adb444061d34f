-- ===== src/Events/Search/Laws.antt =====
-- Which search results a node sends (src/app/p2p/events.rs).
use rust_dfs.Base.{ℕ, zero, suc, ◌≡◌, refl, List, [], ◌∷◌, map, arith}
use rust_dfs.Base.{if◌then◌else◌, take, Result, ok, err}
use rust_dfs.Base.Text.{Text}
use rust_dfs.Domain.{FileSearchRequest, PublishedFileRecord, P2pCommand, file_search_result}
use rust_dfs.Domain.Keys.{to_u64}
use rust_dfs.Store.Interface.{StoreError}
use rust_dfs.Events.Search.{contains_text, matches, result_for, file_search}

module _ (to_lowercase : Text → Text) where
  -- The records that a search is about: the public ones, listed before any error, whose name holds
  -- the text.
  unfoldable pub wanted :
      Text → List (Result StoreError PublishedFileRecord) → List PublishedFileRecord
  wanted value [] = []
  wanted value (err e ∷ rest) = []
  wanted value (ok r ∷ rest) =
      let more = wanted value rest in
      if r.public
      then (if contains_text (to_lowercase r.original_file_name) (to_lowercase value)
          then r ∷ more
          else more)
      else more

  -- What is sent for a record.
  abbrev pub answer : ℕ → FileSearchRequest → PublishedFileRecord → P2pCommand ℕ
  answer peer q r = file_search_result peer (record {
    session_id = q.session_id;
    file_found = record { file_id = to_u64 r.key; file_name = r.original_file_name };
  })

  -- A node that is asked sends one result for each record that is wanted, in the order of the
  -- store, with the session of the request, to the peer that it has the message from, until the
  -- channel is closed: `room` is how many commands it takes before that.
  pub file_search-wanted :
      (room peer : ℕ) (q : FileSearchRequest)
      (records : List (Result StoreError PublishedFileRecord))
      → file_search to_lowercase room peer q records
        ≡ take room (map (answer peer q) (wanted q.search_value records))
  unfolding file_search wanted matches result_for
  file_search-wanted zero peer q [] = refl
  file_search-wanted (suc room) peer q [] = refl
  file_search-wanted zero peer q (err e ∷ rest) = refl
  file_search-wanted (suc room) peer q (err e ∷ rest) = refl
  file_search-wanted zero peer q (ok r ∷ rest) = ground (arith, file_search-wanted zero peer q rest)
  file_search-wanted (suc room) peer q (ok r ∷ rest) =
      ground (arith, file_search-wanted room peer q rest, file_search-wanted (suc room) peer q rest)
