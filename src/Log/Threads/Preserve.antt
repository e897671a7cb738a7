-- ===== src/Log/Threads/Preserve.antt =====
-- Every step of the log's threads keeps `LockInv`.
use operating_systems_wet.Base.{ℕ, ◌+◌, ◌<◌, ◌≡◌, true, false, List, arith, set}
use operating_systems_wet.Base.Threads.{weigh_pos}
use operating_systems_wet.Log.Buffer.{ServerLog}
use operating_systems_wet.Log.Buffer.Bounds.{content}
use operating_systems_wet.Log.Buffer.Append.{append_entry-SameLock}
use operating_systems_wet.Log.Guard.{
  must_wait_read, enter_read, leave_read, wakes_writer, announce_write, must_wait_write,
  enter_write, leave_write, prefers_writer,
}
use operating_systems_wet.Log.Threads.{
  outside, read_testing, read_asleep, reading, copied, write_arriving, write_testing, write_asleep,
  writing, written, System, Step, read_begins, read_blocks, read_enters, read_copies,
  read_leaves_quietly, read_leaves_last, write_begins, write_blocks, write_enters,
  write_blocks_again, write_enters_woken, write_appends, write_leaves_to_writer,
  write_leaves_to_readers, spurious_reader, spurious_writer,
}
use operating_systems_wet.Log.Threads.Invariant.{
  reads, writes, tests_to_write, LockInv, moved, signalled, broadcast,
}

pub read_blocked :
    (log : ServerLog) → must_wait_read log ≡ true → 0 < log.waiting_writers + log.writers
unfolding must_wait_read
read_blocked log h = ground arith

pub read_allowed :
    (log : ServerLog) → must_wait_read log ≡ false → (log.waiting_writers ≡ 0) × (log.writers ≡ 0)
unfolding must_wait_read
read_allowed log h = ground arith

write_blocked : (log : ServerLog) → must_wait_write log ≡ true → 0 < log.readers + log.writers
unfolding must_wait_write
write_blocked log h = ground arith

write_allowed :
    (log : ServerLog) → must_wait_write log ≡ false → (log.readers ≡ 0) × (log.writers ≡ 0)
unfolding must_wait_write
write_allowed log h = ground arith

last_reader : (log : ServerLog) → wakes_writer log ≡ true → log.readers ≡ 0
unfolding wakes_writer
last_reader log h = ground arith

more_readers : (log : ServerLog) → wakes_writer log ≡ false → 0 < log.readers
unfolding wakes_writer
more_readers log h = ground arith

writers_left : (log : ServerLog) → prefers_writer log ≡ true → 0 < log.waiting_writers
unfolding prefers_writer
writers_left log h = ground arith

no_writers_left : (log : ServerLog) → prefers_writer log ≡ false → log.waiting_writers ≡ 0
unfolding prefers_writer
no_writers_left log h = ground arith

module _ (s : System) (inv : LockInv s) (malloc : ℕ → List ℕ) where
  open s use {log, mutex_held, threads}

  -- Every step keeps the invariant.
  pub step-LockInv : {t : System} → Step malloc s t → LockInv t
  unfolding enter_read leave_read announce_write enter_write leave_write
  step-LockInv (read_begins i at) = let m = moved threads i read_testing at in ground arith
  step-LockInv (read_blocks i at free must) =
      let m = moved threads i read_asleep at in ground (arith, read_blocked log must)
  step-LockInv (read_enters i at free may) =
      let m = moved threads i reading at in ground (arith, read_allowed log may)
  step-LockInv (read_copies i at) =
      let m = moved threads i (copied (content log)) at in ground arith
  step-LockInv (read_leaves_quietly i at free more) =
      let m = moved threads i outside at in
      ground (arith, more_readers _ more, weigh_pos reads threads i at)
  step-LockInv (read_leaves_last i at free last signal) =
      let m = moved threads i outside at in
      let g = signalled signal in ground (arith, last_reader _ last, weigh_pos reads threads i at)
  step-LockInv (write_begins i at text) =
      let m = moved threads i (write_arriving text) at in ground arith
  step-LockInv (write_blocks i {text} at free must) =
      let m = moved threads i (write_asleep text) at in ground (arith, write_blocked _ must)
  step-LockInv (write_enters i {text} at free may) =
      let m = moved threads i (writing text) at in ground (arith, write_allowed _ may)
  step-LockInv (write_blocks_again i {text} at free must) =
      let m = moved threads i (write_asleep text) at in ground (arith, write_blocked _ must)
  step-LockInv (write_enters_woken i {text} at free may) =
      let m = moved threads i (writing text) at in
      ground (arith, write_allowed _ may, weigh_pos tests_to_write threads i at)
  step-LockInv (write_appends i {text} {log'} data_len at enough done) =
      let m = moved threads i written at in
      ground (arith, append_entry-SameLock malloc log text data_len done)
  step-LockInv (write_leaves_to_writer i at prefers signal) =
      let m = moved threads i outside at in
      let g = signalled signal in
      ground (arith, writers_left _ prefers, weigh_pos writes threads i at)
  step-LockInv (write_leaves_to_readers i at none_left) =
      let m = moved threads i outside at in
      let b = broadcast (set threads i outside) in
      ground (arith, no_writers_left _ none_left, weigh_pos writes threads i at)
  step-LockInv (spurious_reader i at) = let m = moved threads i read_testing at in ground arith
  step-LockInv (spurious_writer i {text} at) =
      let m = moved threads i (write_testing text) at in ground arith
