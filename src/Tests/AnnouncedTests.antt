-- ===== src/Tests/AnnouncedTests.antt =====
-- The start of a node that has a published file, and the rounds of its loop.
use rust_dfs.Base.{ℕ, ◌≡◌, ◌↔◌, true, false, some, none, ok, [], ◌∷◌, List, get_elem?, Result}
use rust_dfs.Base.Text.{text}
use rust_dfs.Startup.Errors.{ServerError, cbor}
use rust_dfs.Startup.Bootstrap.{Start, start_service}
use rust_dfs.Startup.Loop.{Ready, run_loop}
use rust_dfs.Startup.Loop.Laws.{IsQuiet, run_loop-leaves}
use rust_dfs.Tests.Files.{memory_fs}
use rust_dfs.Tests.EventsTests.{quiet_net}
use rust_dfs.Tests.StoreTests.{memory_store, no_rows, hasher, sample_codecs, sample_published}
use rust_dfs.Tests.DownloadTests.{started}
use rust_dfs.Tests.StartupTests.{plain_keys, one_peer, sample_config, quiet_world}

abbrev owner : Start memory_fs memory_store plain_keys
owner = record {
  files = started;
  records = (memory_store.put_published_file sample_published no_rows).1;
  world = quiet_world;
}

abbrev start_owner : Result ServerError Unit × Start memory_fs memory_store plain_keys
start_owner =
    start_service memory_fs memory_store plain_keys quiet_net hasher sample_codecs
      (λ e. text "store") (λ e. cbor e) (λ k. ok one_peer) sample_config (text "first") owner

-- A tick is ready beside the token, and then the token alone.
abbrev ticking : Ready
ticking = record { event = none; command = none; tick = true; job = none; cancelled = true }

abbrev rounds : List Ready
rounds = ticking ∷ record ticking { tick = false } ∷ []

run_loop-leaves_example :
    ((run_loop rounds).1 ≡ true)
    ↔ ((i : ℕ) × (r : Ready) × (get_elem? rounds i ≡ some r) × IsQuiet r)
run_loop-leaves_example = run_loop-leaves rounds
