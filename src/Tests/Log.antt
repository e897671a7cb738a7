-- ===== src/Tests/Log.antt =====
-- A log of one byte, and two threads that use it.
use operating_systems_wet.Base.{
  ℕ, zero, suc, ◌+◌, ◌^◌, ◌≤◌, ◌<◌, ◌≡◌, refl, ap, List, [], ◌∷◌, ◌++◌, some, true, false, arith,
  get_elem?, take, length,
}
use operating_systems_wet.Log.Buffer.{ServerLog, append_entry}
use operating_systems_wet.Log.Buffer.Bounds.{content, IsValid, SameLock, AllocatesExactly}
use operating_systems_wet.Log.Buffer.Append.{append_entry_total}
use operating_systems_wet.Log.Guard.{
  must_wait_read, enter_read, must_wait_write, announce_write, enter_write,
}
use operating_systems_wet.Log.Whole.{IsQuiet}
use operating_systems_wet.Log.Threads.{
  Pc, reading, copied, write_asleep, write_testing, writing, written, outside, System, Step, Reach,
  here, later, read_begins, read_enters, read_copies, write_begins, write_blocks, write_enters,
  write_appends, spurious_writer,
}
use operating_systems_wet.Log.Threads.Invariant.{LockInv}
use operating_systems_wet.Log.Threads.Safety.{initial, works, Reach-LockInv}
use operating_systems_wet.Log.Threads.Runs.{writer_alone, no_deadlock}
use operating_systems_wet.Log.Threads.Readers.{writers_first}
use operating_systems_wet.Log.Threads.History.{joined, Holds, history, log_history}

-- Memory that holds zeros.
pub zeros : ℕ → List ℕ
zeros zero = []
zeros (suc n) = 0 ∷ zeros n

pub zeros-AllocatesExactly : AllocatesExactly zeros
unfolding zeros
zeros-AllocatesExactly zero = refl
zeros-AllocatesExactly (suc n) = ap suc (zeros-AllocatesExactly n)

abbrev pub one_byte : ServerLog
one_byte = record {
  buffer = 97 ∷ 0 ∷ 0 ∷ 0 ∷ [];
  size = 1;
  capacity = 4;
  readers = 0;
  writers = 0;
  waiting_writers = 0;
}

pub one_byte-IsValid : IsValid one_byte
one_byte-IsValid = record {
  storage = refl;
  fits = omega arith;
  small = omega arith;
  terminated = refl;
}

pub one_byte-IsQuiet : IsQuiet one_byte
one_byte-IsQuiet = record { no_readers = refl; no_writers = refl; no_waiting = refl }

abbrev entry : List ℕ
entry = 98 ∷ 99 ∷ 100 ∷ 101 ∷ []

append_entry_total_example :
    (log' : ServerLog) × (append_entry zeros one_byte entry 3 ≡ some log')
    × IsValid log'
    × (content log' ≡ content one_byte ++ take 3 entry)
    × SameLock one_byte log'
append_entry_total_example =
    append_entry_total zeros one_byte entry 3 zeros-AllocatesExactly one_byte-IsValid (omega arith)
      (omega arith)

-- One thread reads, and one waits to write.
abbrev shared : System
shared = record {
  log = record one_byte { readers = 1; waiting_writers = 1 };
  mutex_held = false;
  threads = reading ∷ write_asleep entry ∷ [];
}

shared-Reach : Reach zeros (initial one_byte 2) shared
unfolding must_wait_read enter_read must_wait_write announce_write
shared-Reach =
    later
      (later (later (later here (read_begins 0 refl)) (read_enters 0 refl refl refl))
        (write_begins 1 refl entry))
      (write_blocks 1 refl refl refl)

Reach-LockInv_example : LockInv shared
Reach-LockInv_example = Reach-LockInv zeros one_byte 2 one_byte-IsQuiet {s = shared} shared-Reach

abbrev woken : System
woken = record shared { threads = reading ∷ write_testing entry ∷ [] }

wakes : Step zeros shared woken
wakes = spurious_writer 1 refl

writers_first_example : get_elem? (reading ∷ write_asleep entry ∷ []) 0 ≡ some reading
writers_first_example = writers_first zeros shared woken wakes (omega arith) 0 refl

no_deadlock_example :
    (j : ℕ) × (q : Pc) × (get_elem? (reading ∷ write_asleep entry ∷ []) j ≡ some q) × (0 < works q)
no_deadlock_example =
    no_deadlock zeros one_byte 2 one_byte-IsQuiet {s = shared} shared-Reach 1
      {p = write_asleep entry} refl (omega arith)

abbrev has_copied : System
has_copied = record shared { threads = copied (97 ∷ []) ∷ write_asleep entry ∷ [] }

has_copied-Reach : Reach zeros (initial one_byte 2) has_copied
has_copied-Reach = later shared-Reach (read_copies 0 refl)

-- One thread writes.
abbrev holds : System
holds = record {
  log = record one_byte { writers = 1; waiting_writers = 0 };
  mutex_held = true;
  threads = writing entry ∷ outside ∷ [];
}

abbrev holds_run : Reach zeros (initial one_byte 2) holds
unfolding must_wait_write announce_write enter_write
holds_run = later (later here (write_begins 0 refl entry)) (write_enters 0 refl refl refl)

writer_alone_example : ◌≡◌ {A = ℕ} 0 0
writer_alone_example =
    writer_alone zeros one_byte 2 one_byte-IsQuiet {s = holds} holds_run 0 0 {p = writing entry}
      {q = writing entry} refl refl (omega arith) (omega arith)

-- Then it appends three of its four bytes.
abbrev written_log : ServerLog
written_log = record {
  buffer = 97 ∷ 98 ∷ 99 ∷ 100 ∷ 0 ∷ 0 ∷ 0 ∷ 0 ∷ [];
  size = 4;
  capacity = 8;
  readers = 0;
  writers = 1;
  waiting_writers = 0;
}

abbrev has_written : System
has_written = record { log = written_log; mutex_held = true; threads = written ∷ outside ∷ [] }

abbrev written_run : Reach zeros (initial one_byte 2) has_written
unfolding append_entry zeros
written_run = later holds_run (write_appends 0 3 refl (omega arith) refl)

bounded : length (content one_byte) + length (joined (history zeros written_run)) + 1 ≤ 2 ^ 62
unfolding zeros append_entry must_wait_write announce_write enter_write
bounded = omega arith

log_history_example :
    IsValid written_log
    × (content written_log ≡ content one_byte ++ joined (history zeros written_run))
    × Holds (content one_byte ++ joined (history zeros written_run)) written
log_history_example =
    log_history zeros one_byte 2 zeros-AllocatesExactly one_byte-IsValid one_byte-IsQuiet
      {s = has_written} written_run bounded 0 written refl
