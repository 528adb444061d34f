-- ===== src/Tests.antt =====
-- The theorems at concrete inputs, over a file system, a database and hashes in memory.
mod Files
mod Hashes
mod Database
mod SplitTests
mod DownloadTests
mod ConcurrentTests
mod StoredTests
mod InterleavedTests
mod RestoreTests
mod PublishTests
mod StoreTests
mod EventsTests
mod KeysTests
mod SchedulerTests
mod GrpcTests
mod StartupTests
mod TransferTests
mod EndsTests
mod DirectTests
mod RepublishedTests
mod QueuedTests
mod ClashTests
mod ProcessTests
mod AnnouncedTests
