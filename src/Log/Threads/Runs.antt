-- ===== src/Log/Threads/Runs.antt =====
-- What the lock of the log guarantees in a run of any number of threads.
use operating_systems_wet.Base.{ℕ, ◌+◌, ◌<◌, ◌≡◌, List, some, get_elem?}
use operating_systems_wet.Log.Buffer.{ServerLog}
use operating_systems_wet.Log.Buffer.Bounds.{content}
use operating_systems_wet.Log.Whole.{IsQuiet}
use operating_systems_wet.Log.Threads.{Pc, System, Step, Reach}
use operating_systems_wet.Log.Threads.Invariant.{reads, writes}
use operating_systems_wet.Log.Threads.Safety.{
  initial, Reach-LockInv, LockInv-alone, LockInv-stable, LockInv-awake, sleeps, works,
}

-- `n` threads start outside of a log that nobody uses.
module _ (malloc : ℕ → List ℕ) (log : ServerLog) (n : ℕ) (quiet : IsQuiet log) where
  -- In every reachable state a thread that holds the write lock is alone in the log: a thread that reads
  -- or writes is that thread.
  pub writer_alone :
      {s : System}
      → Reach malloc (initial log n) s
      → (i j : ℕ) {p q : Pc} → get_elem? s.threads i ≡ some p
      → get_elem? s.threads j ≡ some q
      → 0 < writes p
      → 0 < reads q + writes q
      → i ≡ j
  writer_alone {s} r = LockInv-alone s (Reach-LockInv malloc log n quiet r)

  -- In every reachable state in which a thread copies the text, or has copied it and not left yet, no step
  -- changes the text.
  pub text_stable :
      {s t : System}
      → Reach malloc (initial log n) s
      → Step malloc s t
      → (j : ℕ) {q : Pc} → get_elem? s.threads j ≡ some q
      → 0 < reads q
      → content t.log ≡ content s.log
  text_stable {s} {t} r = LockInv-stable malloc s t (Reach-LockInv malloc log n quiet r)

  -- No wake-up is lost: in every reachable state in which a thread sleeps in the log, another one reads,
  -- writes, or is about to test whether it may write.
  pub no_deadlock :
      {s : System}
      → Reach malloc (initial log n) s
      → (i : ℕ) {p : Pc} → get_elem? s.threads i ≡ some p
      → 0 < sleeps p
      → (j : ℕ) × (q : Pc) × (get_elem? s.threads j ≡ some q) × (0 < works q)
  no_deadlock {s} r = LockInv-awake s (Reach-LockInv malloc log n quiet r)
