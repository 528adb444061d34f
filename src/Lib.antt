-- ===== src/Lib.antt =====
-- Rust DFS, a peer-to-peer file system: a node cuts a file into chunks, announces them, finds and
-- downloads the chunks of others, and puts the file together again.
--
-- The parts, and the files that model them:
--   Base       lists, results, texts, paths, sets and dictionaries that the other parts share.
--   Domain     the records, keys, requests and commands: src/app/file_store/domain.rs,
--              src/app/p2p/domain.rs and `FileMetadata` of src/app/file_processing/processing.rs.
--   Store      `trait Store` (src/app/file_store/mod.rs) as Store.Interface, and `RocksDBStore`
--              (src/app/file_store/rocksdb.rs) as Store.Rocksdb. The database and the encoding are
--              the parameters Store.Db and Store.Codec, with their documented behaviour as laws.
--   Processing `process_file`, `split` and `restore_original_file` of
--              src/app/file_processing/processing.rs and `save_metadata` of src/app/utils.rs as
--              Processing.Publish, Processing.Split and Processing.Restore. The file system and the
--              Merkle tree are the parameters Processing.Fs and Processing.Merkle.
--   Download   `verify_chunk` of src/app/utils.rs, and src/app/file_download_service.rs:
--              `download_file_chunk`, `download` and `process_completed` as Download.Chunk and
--              Download.Service, `work_on_pending_downloads` as Download.Scheduler. In
--              Download.Service the tasks of `download` run one after the other, in any order; in
--              Download.Concurrent they take turns, and hold the permits of the semaphore; there
--              Download.Concurrent.Stored follows the record that a later run starts from.
--   Events     `EventService` of src/app/p2p/events.rs: Events.State is its maps, Events.Commands,
--              Events.Providers, Events.Serving, Events.Search, Events.Discovery and
--              Events.Publishing are its handlers, and Events.Swarm is the loop of
--              src/app/p2p/service.rs that calls them.
--   Grpc       `DfsService` of src/app/grpc/server.rs: Grpc.Publish is `publish_file`, Grpc.Download
--              `download_file`, and Grpc.Search `search` and `search_task`. Grpc.Service is the
--              `GrpcService` that serves them.
--   Startup    Startup.Config is src/app/p2p/config.rs and the arguments of src/app/cli/mod.rs,
--              Startup.Keypair, Startup.Network, Startup.Bootstrap and Startup.Loop are `keypair`,
--              `swarm` and the two halves of `start` of src/app/p2p/service.rs, Startup.Server is
--              src/app/server.rs, and Startup.Main src/main.rs.
--   Transfer   a file on its way from one node to another, through Processing, Grpc and Download, and
--              what the node of its author answers, through Processing and Events; and a download
--              on its way from the request to its task, through Grpc, Store and Download, and what
--              two downloads of one name do to one another.
--   Tests      a file system, a database and hashes in memory, and the theorems applied to them.
--
-- How they interact: the download service and the event service share the store through its
-- interface, and its laws are all that they rely on. A download asks for chunks through commands; the
-- answers of peers and channels are arguments. The handlers of the event loop are functions on a
-- `World`: the maps of the service and a log of what was done to the outside, with the answers of the
-- network as functions of that log.
--
-- Bounds and fuel: the outer loop of `split` gets a number of rounds, and more rounds than the file
-- has bytes are enough, since every round but the last takes a byte at least. The inner loop gets as
-- many rounds as the buffer has room. The retries of a publication get a number of rounds each, and
-- without a failure one is enough. The wait for a job gets the list of the states that its polls see.
-- The tasks of a download make three steps each, for any number of permits; a task whose request is
-- never answered stays where it is, with its permit.
-- A file id is a number below 2 ^ 64, a key eight bytes; the chunk numbers are natural numbers.
-- The Merkle tree is taken to be free of collisions, and different paths to be different files.
--
-- Not modelled: what libp2p, tonic and the sockets do, whose calls are parameters, the parsing of
-- arguments, logging, code generation, and tasks that are cancelled or panic. What a task of a
-- download does while it holds its permit is one step, since it writes only the file of its own chunk.
-- In the steps of Download.Concurrent nobody else writes into the directory of the download; that two
-- downloads can get the same directory is in Transfer.Clash. The scheduler sees a task start and end.
-- The errors of `provide_all_published_files` are kept as their texts. While the loop of Events.Swarm
-- runs, other tasks may change the store and the files between two inputs. The cache of a search may
-- forget at any time, and time does not pass.
pub mod Base
pub mod Domain
pub mod Store
pub mod Processing
pub mod Download
pub mod Events
pub mod Grpc
pub mod Startup
pub mod Transfer
mod Tests
