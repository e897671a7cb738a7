-- ===== src/Server/Queue.antt =====
-- server.c: `RequestQueue` with `init_queue`, `enqueue`, `dequeue` and `finishHandling`.
-- Each function is the code between taking and releasing the mutex; `none` is a call that finds its
-- `while` test true and goes to sleep in `pthread_cond_wait`.
pub mod Bounds
pub mod Refine
use operating_systems_wet.Base.{
  ℕ, ◌+◌, ◌-◌, ◌%◌, ◌^◌, ◌==◌, Bool, if◌then◌else◌, List, [], ◌∷◌, zero, suc, Option, none, some,
  get_elem?,
}
pub use operating_systems_wet.Base.Time.{Timeval}

pub record Request : Type 0 where
  pub connfd : ℕ
  pub arrival_time : Timeval
  pub dispatch_time : Timeval

pub record RequestQueue : Type 0 where
  pub buffer : List Request
  pub capacity : ℕ
  pub size : ℕ
  pub front : ℕ
  pub rear : ℕ
  pub dequeueing_size : ℕ

-- `memory` is what `Malloc` hands out: `capacity` requests that nothing has written yet.
unfoldable pub init_queue : List Request → ℕ → RequestQueue
init_queue memory capacity = record {
  buffer = memory;
  capacity = capacity;
  size = 0;
  front = 0;
  rear = 0;
  dequeueing_size = 0;
}

-- The test of the `while` of `enqueue`, and of the one in `main`.
unfoldable pub is_full : RequestQueue → Bool
is_full q = q.size == q.capacity

-- Two fields of the slot at an index are written; its `dispatch_time` stays. A write outside the
-- buffer changes nothing here: `Bounds` shows that there is none.
pub store_at : List Request → ℕ → ℕ → Timeval → List Request
store_at [] rear connfd arrival = []
store_at (slot ∷ b) zero connfd arrival =
    record slot { connfd = connfd; arrival_time = arrival } ∷ b
store_at (slot ∷ b) (suc rear) connfd arrival = slot ∷ store_at b rear connfd arrival

unfoldable pub enqueue : RequestQueue → ℕ → Timeval → Option RequestQueue
unfolding is_full store_at
enqueue q connfd arrival =
    if is_full q
    then none
    else some (record q {
      buffer = store_at q.buffer q.rear connfd arrival;
      rear = (q.rear + 1) % q.capacity;
      size = q.size + 1;
      dequeueing_size = q.dequeueing_size + 1;
    })

-- The request that is read, `none` for a read outside the buffer, and the new queue.
unfoldable pub dequeue : RequestQueue → Option (Option Request × RequestQueue)
dequeue q =
    if q.dequeueing_size == 0
    then none
    else some (
      get_elem? q.buffer q.front,
      record q { front = (q.front + 1) % q.capacity; dequeueing_size = q.dequeueing_size - 1 },
    )

-- An `int` that is decremented at 0 becomes -1: `finish_handling` is called by a worker that holds
-- a request, and `Pool` shows that the size is positive then.
unfoldable pub finish_handling : RequestQueue → RequestQueue
finish_handling q = record q { size = q.size - 1 }
