-- ===== src/Tests/Pool.antt =====
-- A server with one worker and two places, with a connection on its way through.
use operating_systems_wet.Base.{
  ℕ, ◌≡◌, ◌≢◌, refl, List, [], ◌∷◌, ◌++◌, some, map, arith, get_elem?, length,
}
use operating_systems_wet.Base.Int.{pos}
use operating_systems_wet.Server.Queue.{
  Timeval, Request, RequestQueue, init_queue, enqueue, dequeue,
}
use operating_systems_wet.Server.Queue.Bounds.{IsValid, init_queue-IsValid}
use operating_systems_wet.Server.Queue.Refine.{
  Arrival, seen, contents, enqueue_refines, dequeue_refines,
}
use operating_systems_wet.Server.Pool.{
  checking, enqueue_waiting, WorkerPc, waiting, dequeuing, Server, accept, check_room, enqueue_done,
  nobody, Reach, started, later,
}
use operating_systems_wet.Server.Pool.Invariant.{connfd_of, PoolInv}
use operating_systems_wet.Server.Pool.Safety.{Reach-PoolInv}
use operating_systems_wet.Server.Pool.Runs.{
  dispatched_in_order, enqueue_never_waits, no_lost_wakeup,
}

abbrev noon : Timeval
noon = record { tv_sec = pos 43200; tv_usec = 5 }

abbrev pub blank : Request
blank = record { connfd = 0; arrival_time = noon; dispatch_time = noon }

abbrev pub first : Request
first = record { connfd = 7; arrival_time = noon; dispatch_time = noon }

abbrev pub memory : List Request
memory = blank ∷ blank ∷ []

abbrev pub empty : RequestQueue
empty = record { buffer = memory; capacity = 2; size = 0; front = 0; rear = 0; dequeueing_size = 0 }

abbrev pub one_waits : RequestQueue
one_waits = record {
  buffer = first ∷ blank ∷ [];
  capacity = 2;
  size = 1;
  front = 0;
  rear = 1;
  dequeueing_size = 1;
}

abbrev pub one_runs : RequestQueue
one_runs = record one_waits { front = 1; dequeueing_size = 0 }

empty-IsValid : IsValid empty
unfolding init_queue
empty-IsValid = init_queue-IsValid memory 2 refl (omega arith) (omega arith)

pub enqueue-empty : enqueue empty 7 noon ≡ some one_waits
unfolding enqueue
enqueue-empty = refl

one_waits-IsValid : IsValid one_waits
one_waits-IsValid = record {
  storage = refl;
  positive = omega arith;
  int = omega arith;
  front_in = omega arith;
  rear_at = refl;
  waiting = omega arith;
  bounded = omega arith;
}

pub dequeue_one : dequeue one_waits ≡ some (some first, one_runs)
unfolding dequeue
dequeue_one = refl

one_runs-IsValid : IsValid one_runs
one_runs-IsValid = record {
  storage = refl;
  positive = omega arith;
  int = omega arith;
  front_in = omega arith;
  rear_at = refl;
  waiting = omega arith;
  bounded = omega arith;
}

enqueue_refines_example :
    contents one_waits ≡ contents empty ++ (some (record { connfd = 7; arrival_time = noon }) ∷ [])
enqueue_refines_example = enqueue_refines empty one_waits 7 noon empty-IsValid enqueue-empty

dequeue_refines_example : contents one_waits ≡ seen (some first) ∷ contents one_runs
dequeue_refines_example =
    dequeue_refines one_waits one_runs (some first) one_waits-IsValid dequeue_one

-- One connection is in the queue, and the worker has not looked yet; `main` has accepted another.
abbrev queued : Server
queued = record {
  queue = one_waits;
  main = checking 8;
  workers = dequeuing ∷ [];
  accepted = 7 ∷ 8 ∷ [];
  enqueued = record { connfd = 7; arrival_time = noon } ∷ [];
  dispatched = [];
}

queued-Reach : Reach (init_queue memory 2) 1 queued
unfolding init_queue enqueue
queued-Reach =
    later
      (later (later (later started (accept refl 7)) (check_room refl refl noon))
        (enqueue_done refl refl (nobody refl refl)))
      (accept refl 8)

Reach-PoolInv_example : PoolInv 1 queued
Reach-PoolInv_example =
    Reach-PoolInv memory 2 1 refl (omega arith) (omega arith) {s = queued} queued-Reach

dispatched_in_order_example :
    (rest : List Arrival) × (7 ∷ 8 ∷ [] ≡ map connfd_of rest ++ (8 ∷ []))
    × (queued.enqueued ≡ rest)
    × (length rest ≡ 1)
dispatched_in_order_example =
    dispatched_in_order memory 2 1 refl (omega arith) (omega arith) {s = queued} queued-Reach

enqueue_never_waits_example : queued.main ≢ enqueue_waiting 7 noon
enqueue_never_waits_example =
    enqueue_never_waits memory 2 1 refl (omega arith) (omega arith) {s = queued} queued-Reach 7 noon

no_lost_wakeup_example :
    (i : ℕ) × (p : WorkerPc) × (get_elem? (dequeuing ∷ []) i ≡ some p) × (p ≢ waiting)
no_lost_wakeup_example =
    no_lost_wakeup memory 2 1 refl (omega arith) (omega arith) {s = queued} queued-Reach
      (omega arith) (omega arith)
