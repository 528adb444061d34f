-- ===== src/Tests/EventsTests.antt =====
-- Runs of the event loop, answers to requests and searches, and a publication.
use rust_dfs.Base.{◌+◌, ◌≡◌, refl, true, some, none, [], ◌∷◌, map, length, ok, take}
use rust_dfs.Base.Text.{text}
use rust_dfs.Base.Dict.{lookup}
use rust_dfs.Domain.{request_metadata, request_file_chunk}
use rust_dfs.Base.{◌++◌}
use rust_dfs.Events.Address.{p2p}
use rust_dfs.Events.State.{Net, World, new}
use rust_dfs.Events.Serving.{other}
use rust_dfs.Events.Search.{file_search}
use rust_dfs.Events.Search.Laws.{answer, wanted, file_search-wanted}
use rust_dfs.Events.Swarm.{Setting, Input, command, metadata_event, handle, IsFresh, start, next}
use rust_dfs.Events.Swarm.Replies.{issued, metadata_replies, chunk_replies}
use rust_dfs.Events.Swarm.Replies.Queries.{of_metadata, of_chunks, waiting, answered}
use rust_dfs.Events.Swarm.Waiting.{still_waiting}
use rust_dfs.Tests.Files.{memory_fs}
use rust_dfs.Tests.StoreTests.{memory_store, no_rows, sample_codecs, sample_published, hasher}

-- The n-th call is given the number n.
abbrev pub quiet_net : Net
quiet_net = record {
  query_id = length;
  request_id = length;
  put_result = λ log. ok tt;
  providing_result = λ log. ok tt;
  publish_result = λ log. ok tt;
  listens = λ log channel. true;
  with_p2p = λ peer addr. some (addr ++ p2p peer ∷ []);
  random_below = λ log n. 0;
}

-- Like `quiet_net`, with numbers that are two higher.
abbrev numbered_net : Net
numbered_net = record quiet_net {
  query_id = λ log. 2 + length log;
  request_id = λ log. 2 + length log;
}

abbrev setting : Setting
setting = record {
  net = quiet_net;
  hasher = hasher;
  codecs = sample_codecs;
  topic = some (text "t");
  fs = memory_fs;
  store = memory_store;
  show_error = λ e. text "store";
  files = λ p. none;
  records = no_rows;
}

abbrev asked : Input
asked = command (request_metadata (record { file_id = 7 }) 3)

abbrev first_world : World
first_world = record { service = new; log = [] }

first_world-IsFresh : IsFresh setting first_world
unfolding new lookup
first_world-IsFresh = record {
  metadata_query = λ e. refl;
  chunk_query = λ e. refl;
  metadata_request = λ e. refl;
  file_request = λ e. refl;
}

metadata_replies_example :
    waiting of_metadata 3 (handle setting asked first_world).service
      + answered of_metadata 3 (handle setting asked first_world).log
    ≡ issued of_metadata 3 (asked ∷ [])
metadata_replies_example =
    metadata_replies setting 3 {inputs = asked ∷ []} {w = handle setting asked first_world}
      (next start first_world-IsFresh (λ p. none) no_rows asked)

abbrev asked_chunk : Input
asked_chunk = command (request_file_chunk (record { file_id = 7; chunk_id = 0 }) 4)

chunk_replies_example :
    waiting of_chunks 4 (handle setting asked_chunk first_world).service
      + answered of_chunks 4 (handle setting asked_chunk first_world).log
    ≡ issued of_chunks 4 (asked_chunk ∷ [])
chunk_replies_example =
    chunk_replies setting 4 {inputs = asked_chunk ∷ []} {w = handle setting asked_chunk first_world}
      (next start first_world-IsFresh (λ p. none) no_rows asked_chunk)

file_search-wanted_example :
    file_search
      (λ t. t)
      2
      5
      (record { session_id = text "s"; search_value = text "f" })
      (ok sample_published ∷ [])
    ≡ take 2 (
        map
          (answer (λ t. t) 5 (record { session_id = text "s"; search_value = text "f" }))
          (wanted (λ t. t) (text "f") (ok sample_published ∷ [])))
file_search-wanted_example =
    file_search-wanted (λ t. t) 2 5 (record { session_id = text "s"; search_value = text "f" })
      (ok sample_published ∷ [])

-- A caller waits on channel 3 for the answer to request 1.
abbrev waiting_world : World
waiting_world = record {
  service = record new { metadata_download_requests = (1, 3) ∷ [] };
  log = [];
}

waiting_world-IsFresh : IsFresh (record setting { net = numbered_net }) waiting_world
unfolding new lookup
waiting_world-IsFresh = record {
  metadata_query = λ e. refl;
  chunk_query = λ e. refl;
  metadata_request = λ e. refl;
  file_request = λ e. refl;
}

still_waiting_example :
    lookup 1
      (handle
        (record setting { net = numbered_net })
        (metadata_event other)
        waiting_world).service.metadata_download_requests
    ≡ some 3
unfolding lookup
still_waiting_example =
    still_waiting (record setting { net = numbered_net }) 1 3 (metadata_event other) waiting_world
      waiting_world-IsFresh (λ answer e. cc) refl
