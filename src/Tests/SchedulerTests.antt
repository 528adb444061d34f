-- ===== src/Tests/SchedulerTests.antt =====
-- Downloads that get a task.
use rust_dfs.Base.{refl, [], ◌∷◌, ok}
use rust_dfs.Domain.{PendingDownloadRecord}
use rust_dfs.Download.Scheduler.{Downloads, new, take_item, finish, here, next, taken, finished}
use rust_dfs.Download.Scheduler.Laws.{IsExclusive, reach-IsExclusive}
use rust_dfs.Tests.StoreTests.{sample_pending}

abbrev next_pending : PendingDownloadRecord
next_pending = record sample_pending { key = record { bytes = 0 ∷ 0 ∷ 0 ∷ 0 ∷ 0 ∷ 0 ∷ 0 ∷ 8 ∷ [] } }

abbrev two_tasks : Downloads
two_tasks = take_item (ok next_pending) (take_item (ok sample_pending) new)

reach-IsExclusive_example : IsExclusive (finish 1 sample_pending two_tasks)
unfolding take_item new
reach-IsExclusive_example = reach-IsExclusive (
    next
      (next (next here (taken (ok sample_pending) new))
        (taken (ok next_pending) (take_item (ok sample_pending) new)))
      (finished 1 sample_pending two_tasks refl))
