-- ===== src/Log/Guard.antt =====
-- log.c: what `log_start_read`, `log_end_read`, `log_start_write` and `log_end_write` do to the
-- counters of the lock, each under its mutex.
use operating_systems_wet.Base.{◌+◌, ◌-◌, ◌==◌, ltb, Bool, ◌||◌, if◌then◌else◌, Option, none, some}
use operating_systems_wet.Log.Buffer.{ServerLog}

-- The test of the `while` of `log_start_read`.
unfoldable pub must_wait_read : ServerLog → Bool
must_wait_read log = ltb 0 log.writers || ltb 0 log.waiting_writers

unfoldable pub enter_read : ServerLog → ServerLog
enter_read log = record log { readers = log.readers + 1 }

-- The counters are `int`s: those that are taken down are positive wherever the code does it, which
-- `Threads.Invariant` shows.
unfoldable pub leave_read : ServerLog → ServerLog
leave_read log = record log { readers = log.readers - 1 }

-- After `log_end_read` a writer is signalled if no reader is left.
unfoldable pub wakes_writer : ServerLog → Bool
wakes_writer log = log.readers == 0

unfoldable pub announce_write : ServerLog → ServerLog
announce_write log = record log { waiting_writers = log.waiting_writers + 1 }

-- The test of the `while` of `log_start_write`.
unfoldable pub must_wait_write : ServerLog → Bool
must_wait_write log = ltb 0 log.readers || ltb 0 log.writers

unfoldable pub enter_write : ServerLog → ServerLog
enter_write log = record log { waiting_writers = log.waiting_writers - 1; writers = 1 }

unfoldable pub leave_write : ServerLog → ServerLog
leave_write log = record log { writers = 0 }

-- `log_end_write` signals a writer if one waits, and else wakes all readers.
unfoldable pub prefers_writer : ServerLog → Bool
prefers_writer log = ltb 0 log.waiting_writers

-- The whole functions where no other thread runs: `none` is a call that sleeps.
unfoldable pub log_start_read : ServerLog → Option ServerLog
unfolding must_wait_read enter_read
log_start_read log = if must_wait_read log then none else some (enter_read log)

unfoldable pub log_end_read : ServerLog → ServerLog
unfolding leave_read
log_end_read log = leave_read log

unfoldable pub log_start_write : ServerLog → Option ServerLog
unfolding announce_write must_wait_write enter_write
log_start_write log =
    if must_wait_write (announce_write log) then none else some (enter_write (announce_write log))

unfoldable pub log_end_write : ServerLog → ServerLog
unfolding leave_write
log_end_write log = leave_write log
