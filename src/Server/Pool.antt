-- ===== src/Server/Pool.antt =====
-- server.c: the main thread's accept loop and `num_threads` copies of `worker_thread`, interleaved.
-- A critical section, from taking the mutex or waking up to releasing it or going to sleep, is one
-- step: every access to the queue stands in one. `pthread_cond_signal` wakes one sleeper if there is
-- one, and a sleeper may also wake for no reason.
pub mod Invariant
mod Preserve
pub mod Safety
pub mod Runs
use operating_systems_wet.Base.{
  ℕ, ◌≡◌, Bool, true, false, List, [], ◌∷◌, ◌++◌, Option, none, some, get_elem?, set, length,
  replicate, ◌<◌,
}
use operating_systems_wet.Base.Threads.{weigh}
use operating_systems_wet.Server.Queue.{
  Timeval, Request, RequestQueue, is_full, enqueue, dequeue, finish_handling,
}
use operating_systems_wet.Server.Queue.Refine.{Arrival, arrival_of}

-- Where `main` stands, with the locals that are live there.
pub data MainPc : Type 0 where
  accepting : MainPc  -- in `Accept`
  checking : (connfd : ℕ) → MainPc  -- before the `while` of `main`, or woken in it
  check_waiting : (connfd : ℕ) → MainPc  -- asleep in that `while`, on `not_full`
  enqueuing : (connfd : ℕ) (arrival : Timeval) → MainPc  -- at the `while` of `enqueue`
  enqueue_waiting : (connfd : ℕ) (arrival : Timeval) → MainPc  -- asleep in it, on `not_full`

-- Where a worker stands.
pub data WorkerPc : Type 0 where
  dequeuing : WorkerPc  -- before the `while` of `dequeue`, or woken in it
  waiting : WorkerPc  -- asleep in it, on `not_empty`
  handling : (req : Request) (now : Timeval) → WorkerPc  -- in `requestHandle` or `Close`
  finishing : WorkerPc  -- at `finishHandling`

-- `accepted`, `enqueued` and `dispatched` are the history of `Accept`, of `enqueue` and of `dequeue`,
-- the oldest first.
pub record Server : Type 0 where
  pub queue : RequestQueue
  pub main : MainPc
  pub workers : List WorkerPc
  pub accepted : List ℕ
  pub enqueued : List Arrival
  pub dispatched : List Arrival

abbrev pub is_waiting : WorkerPc → ℕ
is_waiting waiting = 1
is_waiting _ = 0

-- `pthread_cond_signal(&q->not_full)`: only `main` waits on it.
abbrev pub signal_not_full : MainPc → MainPc
signal_not_full (check_waiting c) = checking c
signal_not_full (enqueue_waiting c t) = enqueuing c t
signal_not_full accepting = accepting
signal_not_full (checking c) = checking c
signal_not_full (enqueuing c t) = enqueuing c t

-- `pthread_cond_signal(&q->not_empty)`: one of the workers that wait, if any does.
pub data SignalNotEmpty (ws ws' : List WorkerPc) : Type 0 where
  woke : (i : ℕ) → get_elem? ws i ≡ some waiting → ws' ≡ set ws i dequeuing → SignalNotEmpty ws ws'
  nobody : weigh is_waiting ws ≡ 0 → ws' ≡ ws → SignalNotEmpty ws ws'

pub data Step (s : Server) : Server → Type 0 where
  accept :
      s.main ≡ accepting
      → (c : ℕ) → Step s (record s { main = checking c; accepted = s.accepted ++ (c ∷ []) })
  check_full :
      {c : ℕ}
      → s.main ≡ checking c
      → is_full s.queue ≡ true
      → Step s (record s { main = check_waiting c })
  check_room :
      {c : ℕ}
      → s.main ≡ checking c
      → is_full s.queue ≡ false
      → (t : Timeval) → Step s (record s { main = enqueuing c t })
  enqueue_full :
      {c : ℕ} {t : Timeval}
      → s.main ≡ enqueuing c t
      → enqueue s.queue c t ≡ none
      → Step s (record s { main = enqueue_waiting c t })
  enqueue_done :
      {c : ℕ} {t : Timeval} {q : RequestQueue} {ws : List WorkerPc}
      → s.main ≡ enqueuing c t
      → enqueue s.queue c t ≡ some q
      → SignalNotEmpty s.workers ws
      → Step s (record s {
        queue = q;
        main = accepting;
        workers = ws;
        enqueued = s.enqueued ++ (record { connfd = c; arrival_time = t } ∷ []);
      })
  dequeue_empty :
      (i : ℕ)
      → get_elem? s.workers i ≡ some dequeuing
      → dequeue s.queue ≡ none
      → Step s (record s { workers = set s.workers i waiting })
  dequeue_done :
      (i : ℕ) {r : Request} {q : RequestQueue}
      → get_elem? s.workers i ≡ some dequeuing
      → dequeue s.queue ≡ some (some r, q)
      → (now : Timeval)
      → Step s (record s {
        queue = q;
        workers = set s.workers i (handling r now);
        dispatched = s.dispatched ++ (arrival_of r ∷ []);
      })
  -- The return from `requestHandle` and `Close`. A request for which they do not return is a worker that
  -- takes no further step.
  handled :
      (i : ℕ) {r : Request} {now : Timeval}
      → get_elem? s.workers i ≡ some (handling r now)
      → Step s (record s { workers = set s.workers i finishing })
  finish :
      (i : ℕ)
      → get_elem? s.workers i ≡ some finishing
      → Step s (record s {
        queue = finish_handling s.queue;
        main = signal_not_full s.main;
        workers = set s.workers i dequeuing;
      })
  spurious_main : Step s (record s { main = signal_not_full s.main })
  spurious_worker :
      (i : ℕ)
      → get_elem? s.workers i ≡ some waiting
      → Step s (record s { workers = set s.workers i dequeuing })

-- `main` after it has started its threads, over the queue that `init_queue` made.
abbrev pub start : RequestQueue → ℕ → Server
start q num_threads = record {
  queue = q;
  main = accepting;
  workers = replicate num_threads dequeuing;
  accepted = [];
  enqueued = [];
  dispatched = [];
}

pub data Reach (q : RequestQueue) (num_threads : ℕ) : Server → Type 0 where
  started : Reach q num_threads (start q num_threads)
  later : {s t : Server} → Reach q num_threads s → Step s t → Reach q num_threads t
