-- ===== src/Log/Threads/Safety.antt =====
-- What the lock of the log guarantees in every reachable state.
use operating_systems_wet.Base.{
  ℕ, zero, suc, ◌+◌, ◌≤◌, ◌<◌, ◌≡◌, refl, false, List, [], ◌∷◌, some, arith, get_elem?, replicate,
  dec_lt,
}
use operating_systems_wet.Base.Threads.{weigh, weigh_pos, weigh_find, weigh_unique}
use operating_systems_wet.Log.Buffer.{ServerLog}
use operating_systems_wet.Log.Buffer.Bounds.{content}
use operating_systems_wet.Log.Whole.{IsQuiet}
use operating_systems_wet.Log.Guard.{
  enter_read, leave_read, announce_write, enter_write, leave_write,
}
use operating_systems_wet.Log.Threads.{
  Pc, outside, System, sleeps_to_write, Step, read_begins, write_appends, Reach, here, later,
}
use operating_systems_wet.Log.Threads.Invariant.{
  reads, writes, sleeps_to_read, tests_to_write, LockInv,
}
use operating_systems_wet.Log.Threads.Preserve.{step-LockInv}

-- `n` threads that are not in the log yet.
abbrev pub initial : ServerLog → ℕ → System
initial log n = record { log = log; mutex_held = false; threads = replicate n outside }

weigh-outside : (w : Pc → ℕ) (n : ℕ) → w outside ≡ 0 → weigh w (replicate n outside) ≡ 0
weigh-outside w zero h = refl
weigh-outside w (suc n) h = omega (arith, weigh-outside w n h)

-- In every state that any number of threads reach from a log that nobody uses, the lock's invariant
-- holds: its counters count the threads that read, write and wait, readers and writers exclude each
-- other, and sleepers have somebody to wake them.
pub Reach-LockInv :
    (malloc : ℕ → List ℕ) (log : ServerLog) (n : ℕ)
    → IsQuiet log
    → {s : System} → Reach malloc (initial log n) s
    → LockInv s
Reach-LockInv malloc log n q here =
    let r : weigh reads (replicate n outside) ≡ 0 = weigh-outside reads n refl in
    let w : weigh writes (replicate n outside) ≡ 0 = weigh-outside writes n refl in
    let sr : weigh sleeps_to_read (replicate n outside) ≡ 0 = weigh-outside sleeps_to_read n refl in
    let sw : weigh sleeps_to_write (replicate n outside) ≡ 0 =
      weigh-outside sleeps_to_write n refl in
    let tw : weigh tests_to_write (replicate n outside) ≡ 0 = weigh-outside tests_to_write n refl in
    omega arith
Reach-LockInv malloc log n q (later r st) =
    step-LockInv _ (Reach-LockInv malloc log n q r) malloc st

-- A thread that holds the write lock is alone in the log: any thread that reads or writes is it.
pub LockInv-alone :
    (s : System)
    → LockInv s
    → (i j : ℕ) {p q : Pc} → get_elem? s.threads i ≡ some p
    → get_elem? s.threads j ≡ some q
    → 0 < writes p
    → 0 < reads q + writes q
    → i ≡ j
LockInv-alone s inv i j {p} {q} at at' hp hq = elim (dec_lt 0 (writes q)) [
  | yes wq ↦ weigh_unique writes s.threads i j (one inv) at at' hp wq
  | no none_here ↦ absurd (
      omega
        (arith, weigh_pos writes s.threads i at, weigh_pos reads s.threads j at', inv.exclusive))
]
  where
    one : LockInv s → weigh writes s.threads ≤ 1
    one v = ground (arith, v.held_by_writer)

-- While a thread copies the text, or has copied it and not left yet, no step changes the text.
pub LockInv-stable :
    (malloc : ℕ → List ℕ) (s t : System)
    → LockInv s
    → Step malloc s t
    → (j : ℕ) {q : Pc} → get_elem? s.threads j ≡ some q
    → 0 < reads q
    → content t.log ≡ content s.log
unfolding enter_read leave_read announce_write enter_write leave_write
LockInv-stable malloc s t inv (read_begins i at) j at' h = refl
LockInv-stable malloc s t inv (write_appends i data_len at enough done) j at' h =
    absurd (
      omega
        (arith, weigh_pos writes s.threads i at, weigh_pos reads s.threads j at', inv.exclusive))
LockInv-stable malloc s t inv st j at' h = refl

-- Asleep on one of the two condition variables.
abbrev pub sleeps : Pc → ℕ
sleeps p = sleeps_to_read p + sleeps_to_write p

-- In the log's code and not asleep.
abbrev pub works : Pc → ℕ
works p = reads p + writes p + tests_to_write p

weigh-works :
    (ps : List Pc) → weigh works ps ≡ weigh reads ps + weigh writes ps + weigh tests_to_write ps
weigh-works [] = refl
weigh-works (p ∷ ps) = omega (arith, weigh-works ps)

-- No wake-up is lost: while a thread sleeps in the log, another one reads, writes, or is about to
-- test whether it may write.
pub LockInv-awake :
    (s : System)
    → LockInv s
    → (i : ℕ) {p : Pc} → get_elem? s.threads i ≡ some p
    → 0 < sleeps p
    → (j : ℕ) × (q : Pc) × (get_elem? s.threads j ≡ some q) × (0 < works q)
LockInv-awake s inv i {p} at h = weigh_find works s.threads enough
  where
    open s use {threads}

    enough : 0 < weigh works threads
    enough = grind (
      arith,
      weigh-works threads,
      weigh_pos sleeps_to_read threads i at,
      weigh_pos sleeps_to_write threads i at,
    )
