-- ===== src/Server/Queue/Bounds.antt =====
-- The representation invariant of `RequestQueue`.
use operating_systems_wet.Base.{
  ℕ, ◌+◌, ◌-◌, ◌%◌, ◌^◌, ◌≤◌, ◌<◌, ◌≡◌, List, Option, some, arith, length, refl, ap, zero, suc, [],
  ◌∷◌,
}
use native.Mathlib.Nat.{mod-add-mod}
use operating_systems_wet.Server.Queue.{
  Timeval, Request, RequestQueue, init_queue, store_at, enqueue, dequeue, finish_handling,
}

-- `capacity` is an `int`; `rear` is the slot behind the requests that wait.
pub record IsValid (q : RequestQueue) : Type 0 where
  pub storage : length q.buffer ≡ q.capacity
  pub positive : 0 < q.capacity
  pub int : q.capacity < 2 ^ 31
  pub front_in : q.front < q.capacity
  pub rear_at : q.rear ≡ (q.front + q.dequeueing_size) % q.capacity
  pub waiting : q.dequeueing_size ≤ q.size
  pub bounded : q.size ≤ q.capacity

pub length-store_at :
    (b : List Request) (i c : ℕ) (t : Timeval) → length (store_at b i c t) ≡ length b
unfolding store_at
length-store_at [] i c t = refl
length-store_at (r ∷ b) zero c t = refl
length-store_at (r ∷ b) (suc i) c t = ap suc (length-store_at b i c t)

-- A queue that `init_queue` makes is valid and empty.
pub init_queue-IsValid :
    (memory : List Request) (capacity : ℕ)
    → length memory ≡ capacity
    → 0 < capacity
    → capacity < 2 ^ 31
    → IsValid (init_queue memory capacity)
unfolding init_queue
init_queue-IsValid memory capacity h pos int = omega arith

add-mod : (a b n : ℕ) → (a % n + b) % n ≡ (a + b) % n
add-mod a b n = mod-add-mod a n b

-- Where a valid queue has room, `enqueue` leaves a valid queue, and neither `rear + 1` nor `size +
-- 1` leaves the range of an `int`.
pub enqueue-IsValid :
    (q q' : RequestQueue) (c : ℕ) (t : Timeval)
    → IsValid q
    → enqueue q c t ≡ some q'
    → IsValid q' × (q.rear + 1 < 2 ^ 31) × (q.size + 1 < 2 ^ 31)
unfolding enqueue
enqueue-IsValid q q' c t v h =
    ground (
      arith,
      length-store_at q.buffer q.rear c t,
      add-mod (q.front + q.dequeueing_size) 1 q.capacity,
    )

-- Where a request waits in a valid queue, `dequeue` reads inside the buffer and leaves a valid
-- queue.
pub dequeue-IsValid :
    (q q' : RequestQueue) (r : Option Request)
    → IsValid q
    → dequeue q ≡ some (r, q')
    → IsValid q' × (q.front < length q.buffer)
unfolding dequeue
dequeue-IsValid q q' r v h =
    ground (arith, add-mod (q.front + 1) (q.dequeueing_size - 1) q.capacity)

-- `finish_handling` keeps the invariant where a request is out for handling.
pub finish_handling-IsValid :
    (q : RequestQueue) → IsValid q → q.dequeueing_size < q.size → IsValid (finish_handling q)
unfolding finish_handling
finish_handling-IsValid q v h = ground arith
