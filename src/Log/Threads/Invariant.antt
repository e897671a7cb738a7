-- ===== src/Log/Threads/Invariant.antt =====
-- The counters of the lock count the threads that they are about; kept by every step.
use operating_systems_wet.Base.{
  ℕ, ◌+◌, ◌<◌, ◌≡◌, refl, Bool, true, false, List, [], ◌∷◌, some, arith, get_elem?, set, ◌⊎◌, inl,
  inr,
}
use operating_systems_wet.Base.Threads.{weigh, weigh-set}
use operating_systems_wet.Log.Buffer.{ServerLog}
use operating_systems_wet.Log.Threads.{
  Pc, read_asleep, reading, copied, write_testing, write_asleep, writing, written, System,
  sleeps_to_write, SignalWriter, woke, nobody, wake_readers,
}

abbrev pub reads : Pc → ℕ
reads reading = 1
reads (copied _) = 1
reads _ = 0

abbrev pub writes : Pc → ℕ
writes (writing _) = 1
writes written = 1
writes _ = 0

abbrev pub sleeps_to_read : Pc → ℕ
sleeps_to_read read_asleep = 1
sleeps_to_read _ = 0

-- Woken writers that have not taken the lock yet.
abbrev pub tests_to_write : Pc → ℕ
tests_to_write (write_testing _) = 1
tests_to_write _ = 0

abbrev pub held_count : Bool → ℕ
held_count true = 1
held_count false = 0

-- The number of threads of each kind.
pub record Census : Type 0 where
  pub readers : ℕ
  pub writers : ℕ
  pub sleeping_readers : ℕ
  pub sleeping_writers : ℕ
  pub testing_writers : ℕ

abbrev pub census : List Pc → Census
census ps = record {
  readers = weigh reads ps;
  writers = weigh writes ps;
  sleeping_readers = weigh sleeps_to_read ps;
  sleeping_writers = weigh sleeps_to_write ps;
  testing_writers = weigh tests_to_write ps;
}

-- The invariant, over the numbers alone.
pub record Counts (log : ServerLog) (held : Bool) (c : Census) : Type 0 where
  pub readers_count : log.readers ≡ c.readers
  pub writers_count : log.writers ≡ c.writers
  pub waiting_count : log.waiting_writers ≡ c.sleeping_writers + c.testing_writers
  pub held_by_writer : held_count held ≡ c.writers
  pub exclusive : (c.readers ≡ 0) ⊎ (c.writers ≡ 0)
  pub writers_heard : (c.sleeping_writers ≡ 0) ⊎ (0 < c.readers + c.writers + c.testing_writers)
  pub readers_heard : (c.sleeping_readers ≡ 0) ⊎ (0 < log.waiting_writers + log.writers)

abbrev pub LockInv : System → Type 0
LockInv s = Counts s.log s.mutex_held (census s.threads)

-- Thread `i` goes from `p` to `p'`.
pub record Moved (ps : List Pc) (ps' : List Pc) (p p' : Pc) : Type 0 where
  pub readers : weigh reads ps' + reads p ≡ weigh reads ps + reads p'
  pub writers : weigh writes ps' + writes p ≡ weigh writes ps + writes p'
  pub sleeping_readers :
      weigh sleeps_to_read ps' + sleeps_to_read p ≡ weigh sleeps_to_read ps + sleeps_to_read p'
  pub sleeping_writers :
      weigh sleeps_to_write ps' + sleeps_to_write p ≡ weigh sleeps_to_write ps + sleeps_to_write p'
  pub testing_writers :
      weigh tests_to_write ps' + tests_to_write p ≡ weigh tests_to_write ps + tests_to_write p'

pub moved :
    (ps : List Pc) (i : ℕ) {p : Pc} (p' : Pc)
    → get_elem? ps i ≡ some p
    → Moved ps (set ps i p') p p'
moved ps i p' at = record {
  readers = weigh-set reads ps i p' at;
  writers = weigh-set writes ps i p' at;
  sleeping_readers = weigh-set sleeps_to_read ps i p' at;
  sleeping_writers = weigh-set sleeps_to_write ps i p' at;
  testing_writers = weigh-set tests_to_write ps i p' at;
}

-- A signal makes a sleeping writer test again, if there is one.
pub record Signalled (ps ps' : List Pc) : Type 0 where
  pub readers : weigh reads ps' ≡ weigh reads ps
  pub writers : weigh writes ps' ≡ weigh writes ps
  pub sleeping_readers : weigh sleeps_to_read ps' ≡ weigh sleeps_to_read ps
  pub waiting :
      weigh sleeps_to_write ps' + weigh tests_to_write ps'
      ≡ weigh sleeps_to_write ps + weigh tests_to_write ps
  pub heard : (weigh sleeps_to_write ps' ≡ 0) ⊎ (0 < weigh tests_to_write ps')

pub signalled : {ps ps' : List Pc} → SignalWriter ps ps' → Signalled ps ps'
signalled {ps} (woke i {text} at e) =
    let m : Moved ps (set ps i (write_testing text)) (write_asleep text) (write_testing text) =
      moved ps i (write_testing text) at in
    rw e (record {
      readers = omega arith;
      writers = omega arith;
      sleeping_readers = omega arith;
      waiting = omega arith;
      heard = inr (omega arith);
    })
signalled (nobody none_asleep e) = rw e (record {
  readers = refl;
  writers = refl;
  sleeping_readers = refl;
  waiting = refl;
  heard = inl none_asleep;
})

-- A broadcast leaves no reader asleep and concerns readers only.
pub record Broadcast (ps ps' : List Pc) : Type 0 where
  pub readers : weigh reads ps' ≡ weigh reads ps
  pub writers : weigh writes ps' ≡ weigh writes ps
  pub sleeping_readers : weigh sleeps_to_read ps' ≡ 0
  pub sleeping_writers : weigh sleeps_to_write ps' ≡ weigh sleeps_to_write ps
  pub testing_writers : weigh tests_to_write ps' ≡ weigh tests_to_write ps

pub broadcast : (ps : List Pc) → Broadcast ps (wake_readers ps)
broadcast [] = record {
  readers = refl;
  writers = refl;
  sleeping_readers = refl;
  sleeping_writers = refl;
  testing_writers = refl;
}
broadcast (p ∷ ps) =
    let b : Broadcast ps (wake_readers ps) = broadcast ps in
    record {
      readers = ground arith;
      writers = ground arith;
      sleeping_readers = ground arith;
      sleeping_writers = ground arith;
      testing_writers = ground arith;
    }
