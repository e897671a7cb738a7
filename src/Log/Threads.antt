-- ===== src/Log/Threads.antt =====
-- log.c: any number of threads that call `get_log` and `add_to_log`, interleaved.
-- A step is what a thread does between taking the mutex, or waking up with it, and releasing it or
-- going to sleep. A writer keeps the mutex from `log_start_write` to `log_end_write`, so its append
-- and its `log_end_write` are steps of their own, with `mutex_held` true in between; a reader copies
-- the text without the mutex. A sleeper may also wake for no reason. A caller of `add_to_log` hands over
-- at least `data_len` bytes.
pub mod Invariant
pub mod Preserve
pub mod Safety
pub mod Readers
pub mod Runs
pub mod History
use operating_systems_wet.Base.{
  ℕ, ◌≤◌, length, ◌≡◌, Bool, true, false, if◌then◌else◌, List, [], ◌∷◌, map, Option, none, some,
  get_elem?, set,
}
use operating_systems_wet.Base.Threads.{weigh}
use operating_systems_wet.Log.Buffer.{ServerLog, append_entry}
use operating_systems_wet.Log.Buffer.Bounds.{content}
use operating_systems_wet.Log.Guard.{
  must_wait_read, enter_read, leave_read, wakes_writer, announce_write, must_wait_write,
  enter_write, leave_write, prefers_writer,
}

-- Where a thread stands in the log.
pub data Pc : Type 0 where
  outside : Pc
  read_testing : Pc  -- before the `while` of `log_start_read`, or woken in it
  read_asleep : Pc  -- in its wait on `readers_cond`
  reading : Pc  -- between `log_start_read` and the end of `memcpy` in `get_log`
  copied : (dst : List ℕ) → Pc  -- before `log_end_read`
  write_arriving : (text : List ℕ) → Pc  -- before `log_start_write`
  write_testing : (text : List ℕ) → Pc  -- woken in its `while`
  write_asleep : (text : List ℕ) → Pc  -- in its wait on `writers_cond`
  writing : (text : List ℕ) → Pc  -- behind `log_start_write`, with the mutex
  written : Pc  -- before `log_end_write`, with the mutex

pub record System : Type 0 where
  pub log : ServerLog
  pub mutex_held : Bool
  pub threads : List Pc

abbrev pub sleeps_to_write : Pc → ℕ
sleeps_to_write (write_asleep _) = 1
sleeps_to_write _ = 0

-- `pthread_cond_signal(&log->writers_cond)`: one sleeping writer, if there is one.
pub data SignalWriter (ps ps' : List Pc) : Type 0 where
  woke :
      (i : ℕ) {text : List ℕ}
      → get_elem? ps i ≡ some (write_asleep text)
      → ps' ≡ set ps i (write_testing text)
      → SignalWriter ps ps'
  nobody : weigh sleeps_to_write ps ≡ 0 → ps' ≡ ps → SignalWriter ps ps'

-- `pthread_cond_broadcast(&log->readers_cond)`: all sleeping readers.
abbrev pub wake_reader : Pc → Pc
wake_reader read_asleep = read_testing
wake_reader p = p

abbrev pub wake_readers : List Pc → List Pc
wake_readers [] = []
wake_readers (p ∷ ps) = wake_reader p ∷ wake_readers ps

module _ (malloc : ℕ → List ℕ) where
  pub data Step (s : System) : System → Type 0 where
    read_begins :
        (i : ℕ)
        → get_elem? s.threads i ≡ some outside
        → Step s (record s { threads = set s.threads i read_testing })
    read_blocks :
        (i : ℕ)
        → get_elem? s.threads i ≡ some read_testing
        → s.mutex_held ≡ false
        → must_wait_read s.log ≡ true
        → Step s (record s { threads = set s.threads i read_asleep })
    read_enters :
        (i : ℕ)
        → get_elem? s.threads i ≡ some read_testing
        → s.mutex_held ≡ false
        → must_wait_read s.log ≡ false
        → Step s (record s { log = enter_read s.log; threads = set s.threads i reading })
    read_copies :
        (i : ℕ)
        → get_elem? s.threads i ≡ some reading
        → Step s (record s { threads = set s.threads i (copied (content s.log)) })
    read_leaves_quietly :
        (i : ℕ) {dst : List ℕ}
        → get_elem? s.threads i ≡ some (copied dst)
        → s.mutex_held ≡ false
        → wakes_writer (leave_read s.log) ≡ false
        → Step s (record s { log = leave_read s.log; threads = set s.threads i outside })
    read_leaves_last :
        (i : ℕ) {dst : List ℕ} {ps : List Pc}
        → get_elem? s.threads i ≡ some (copied dst)
        → s.mutex_held ≡ false
        → wakes_writer (leave_read s.log) ≡ true
        → SignalWriter (set s.threads i outside) ps
        → Step s (record s { log = leave_read s.log; threads = ps })
    write_begins :
        (i : ℕ)
        → get_elem? s.threads i ≡ some outside
        → (text : List ℕ) → Step s (record s { threads = set s.threads i (write_arriving text) })
    write_blocks :
        (i : ℕ) {text : List ℕ}
        → get_elem? s.threads i ≡ some (write_arriving text)
        → s.mutex_held ≡ false
        → must_wait_write (announce_write s.log) ≡ true
        → Step s
            (record s { log = announce_write s.log; threads = set s.threads i (write_asleep text) })
    write_enters :
        (i : ℕ) {text : List ℕ}
        → get_elem? s.threads i ≡ some (write_arriving text)
        → s.mutex_held ≡ false
        → must_wait_write (announce_write s.log) ≡ false
        → Step s (record {
          log = enter_write (announce_write s.log);
          mutex_held = true;
          threads = set s.threads i (writing text);
        })
    write_blocks_again :
        (i : ℕ) {text : List ℕ}
        → get_elem? s.threads i ≡ some (write_testing text)
        → s.mutex_held ≡ false
        → must_wait_write s.log ≡ true
        → Step s (record s { threads = set s.threads i (write_asleep text) })
    write_enters_woken :
        (i : ℕ) {text : List ℕ}
        → get_elem? s.threads i ≡ some (write_testing text)
        → s.mutex_held ≡ false
        → must_wait_write s.log ≡ false
        → Step s (record {
          log = enter_write s.log;
          mutex_held = true;
          threads = set s.threads i (writing text);
        })
    write_appends :
        (i : ℕ) {text : List ℕ} {log' : ServerLog} (data_len : ℕ)
        → get_elem? s.threads i ≡ some (writing text)
        → data_len ≤ length text
        → append_entry malloc s.log text data_len ≡ some log'
        → Step s (record s { log = log'; threads = set s.threads i written })
    write_leaves_to_writer :
        (i : ℕ) {ps : List Pc}
        → get_elem? s.threads i ≡ some written
        → prefers_writer (leave_write s.log) ≡ true
        → SignalWriter (set s.threads i outside) ps
        → Step s (record { log = leave_write s.log; mutex_held = false; threads = ps })
    write_leaves_to_readers :
        (i : ℕ)
        → get_elem? s.threads i ≡ some written
        → prefers_writer (leave_write s.log) ≡ false
        → Step s (record {
          log = leave_write s.log;
          mutex_held = false;
          threads = wake_readers (set s.threads i outside);
        })
    spurious_reader :
        (i : ℕ)
        → get_elem? s.threads i ≡ some read_asleep
        → Step s (record s { threads = set s.threads i read_testing })
    spurious_writer :
        (i : ℕ) {text : List ℕ}
        → get_elem? s.threads i ≡ some (write_asleep text)
        → Step s (record s { threads = set s.threads i (write_testing text) })

  pub data Reach (s : System) : System → Type 0 where
    here : Reach s s
    later : {t u : System} → Reach s t → Step t u → Reach s u
