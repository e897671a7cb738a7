-- ===== src/Server/Pool/Runs.antt =====
-- What a run of the server's threads guarantees, from a queue that `init_queue` made.
use operating_systems_wet.Base.{ℕ, ◌^◌, ◌<◌, ◌≡◌, ◌≢◌, List, ◌++◌, some, map, get_elem?, length}
use operating_systems_wet.Server.Queue.{Timeval, Request, init_queue}
use operating_systems_wet.Server.Queue.Refine.{Arrival}
use operating_systems_wet.Server.Pool.{enqueue_waiting, WorkerPc, waiting, Server, Reach}
use operating_systems_wet.Server.Pool.Invariant.{connfd_of, in_hand}
use operating_systems_wet.Server.Pool.Safety.{
  Reach-PoolInv, PoolInv-in_order, PoolInv-no_wait, PoolInv-awake,
}

-- The buffer has room for `capacity` requests, a positive `int`; there are `n` workers.
module _ (memory : List Request) (capacity n : ℕ) (exact : length memory ≡ capacity)
    (positive : 0 < capacity) (int : capacity < 2 ^ 31) where
  -- In every reachable state the connections that `Accept` returned are those that workers have taken, in
  -- the same order, followed by those in the queue, as many as it says are waiting, and by the one that
  -- `main` is about to put there, if it is: none is lost, dispatched twice or overtaken. A connection
  -- comes out of the queue with the arrival time with which it went in.
  pub dispatched_in_order :
      {s : Server}
      → Reach (init_queue memory capacity) n s
      → (rest : List Arrival) × (s.accepted
          ≡ map connfd_of s.dispatched ++ (map connfd_of rest ++ in_hand s.main))
        × (s.enqueued ≡ s.dispatched ++ rest)
        × (length rest ≡ s.queue.dequeueing_size)
  dispatched_in_order r = PoolInv-in_order (Reach-PoolInv memory capacity n exact positive int r)

  -- The `while` of `enqueue` never waits: `main` has already waited for room, and only workers touch the
  -- queue in between.
  pub enqueue_never_waits :
      {s : Server}
      → Reach (init_queue memory capacity) n s
      → (c : ℕ) (t : Timeval) → s.main ≢ enqueue_waiting c t
  enqueue_never_waits r = PoolInv-no_wait (Reach-PoolInv memory capacity n exact positive int r)

  -- No wake-up is lost: in every reachable state in which a request waits or runs, some worker is awake,
  -- if there is a worker at all.
  pub no_lost_wakeup :
      {s : Server}
      → Reach (init_queue memory capacity) n s
      → 0 < n
      → 0 < s.queue.size
      → (i : ℕ) × (p : WorkerPc) × (get_elem? s.workers i ≡ some p) × (p ≢ waiting)
  no_lost_wakeup r = PoolInv-awake (Reach-PoolInv memory capacity n exact positive int r)
