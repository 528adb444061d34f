-- ===== src/Events/Search.antt =====
-- Search: `gossipsub`, `file_search` and `file_search_results` of src/app/p2p/events.rs.
pub mod Laws
use rust_dfs.Base.{
  ℕ, Bool, true, false, Option, none, some, List, [], ◌∷◌, ◌&&◌, ◌||◌, if◌then◌else◌,
}
use rust_dfs.Base.{Result, ok, err, text_eq}
use rust_dfs.Base.Text.{Bytes, Text}
use rust_dfs.Domain.{
  FileFound, FileSearchResult, FileSearchRequest, PublishedFileRecord, P2pCommand,
  file_search_result,
}
use rust_dfs.Domain.Keys.{to_u64}
use rust_dfs.Store.Codec.{Cbor}
use rust_dfs.Store.Interface.{StoreError}
use rust_dfs.Events.State.{
  Effect, confirm, found, Net, EventService, World, did, lookup_session, erase_session,
}

-- `str::contains`
abbrev pub starts_with : Text → Text → Bool
starts_with t [] = true
starts_with [] (c ∷ cs) = false
starts_with (d ∷ ds) (c ∷ cs) = text_eq (d ∷ []) (c ∷ []) && starts_with ds cs

unfoldable pub contains_text : Text → Text → Bool
contains_text [] needle = starts_with [] needle
contains_text (c ∷ cs) needle = starts_with (c ∷ cs) needle || contains_text cs needle

-- A Gossipsub message. `source` is the peer that published it, if it is known; the handler does not
-- read it.
pub record Message : Type 0 where
  pub propagation_source : ℕ
  pub source : Option ℕ
  pub topic : Text
  pub payload : Bytes

module _ (to_lowercase : Text → Text) where
  -- Is the file public, and does its name hold the text that is searched?
  unfoldable pub matches : Text → PublishedFileRecord → Bool
  unfolding contains_text
  matches search_value r =
      r.public && contains_text (to_lowercase r.original_file_name) (to_lowercase search_value)

  unfoldable pub result_for : FileSearchRequest → PublishedFileRecord → FileSearchResult
  result_for q r = record {
    session_id = q.session_id;
    file_found = record { file_id = to_u64 r.key; file_name = r.original_file_name };
  }

  -- `file_search`: the commands that are sent. `room` is how many of them the channel takes before
  -- it is closed; while it is full, `send` waits.
  unfoldable pub file_search :
      ℕ → ℕ → FileSearchRequest → List (Result StoreError PublishedFileRecord) → List (P2pCommand ℕ)
  unfolding matches result_for
  file_search room peer q [] = []
  file_search room peer q (err e ∷ rest) = []
  file_search ℕ.zero peer q (ok r ∷ rest) =
      if matches q.search_value r then [] else file_search ℕ.zero peer q rest
  file_search (ℕ.suc room) peer q (ok r ∷ rest) =
      let after = file_search room peer q rest in
      let passed = file_search (ℕ.suc room) peer q rest in
      if matches q.search_value r then file_search_result peer (result_for q r) ∷ after else passed

  -- `gossipsub`. The hash of a topic is the topic.
  unfoldable pub gossipsub :
      Option Text
      → Cbor FileSearchRequest
      → ℕ
      → List (Result StoreError PublishedFileRecord)
      → Message
      → List (P2pCommand ℕ)
  unfolding file_search
  gossipsub none codec room published m = []
  gossipsub (some topic) codec room published m =
      if text_eq m.topic topic
      then (elim (codec.from_slice m.payload) [
        | ok q ↦ file_search room m.propagation_source q published
        | err e ↦ []
      ])
      else []

-- `file_search_results`, for a request: the answer is confirmed, and the result goes to its session
-- unless nobody listens, which ends the session.
unfoldable pub file_search_results : Net → ℕ → FileSearchResult → World → World
file_search_results net channel q w =
    let w₁ = did (confirm channel) w in
    elim (lookup_session q.session_id w₁.service.file_search_sessions) [
      | none ↦ w₁
      | some tx ↦ if net.listens w₁.log tx then did (found tx q.file_found) w₁ else record w₁ {
        service = record w₁.service {
          file_search_sessions = erase_session q.session_id w₁.service.file_search_sessions;
        };
      }
    ]
