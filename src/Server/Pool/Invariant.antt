-- ===== src/Server/Pool/Invariant.antt =====
-- What holds in every reachable state of the server's threads.
use operating_systems_wet.Base.{
  ℕ, zero, suc, ◌+◌, ◌≤◌, ◌<◌, ◌≡◌, refl, List, [], ◌∷◌, ◌++◌, some, map, arith, get_elem?, set,
  length, length-set, length-replicate, replicate,
}
use operating_systems_wet.Base.Threads.{weigh, weigh-set}
use operating_systems_wet.Server.Queue.{Request, RequestQueue, init_queue}
use operating_systems_wet.Server.Queue.Bounds.{IsValid}
use operating_systems_wet.Server.Queue.Refine.{Arrival, contents}
use operating_systems_wet.Server.Pool.{
  MainPc, accepting, checking, check_waiting, enqueuing, enqueue_waiting, WorkerPc, dequeuing,
  handling, finishing, Server, is_waiting, start,
}

-- Workers that hold a request.
abbrev pub is_busy : WorkerPc → ℕ
is_busy (handling _ _) = 1
is_busy finishing = 1
is_busy _ = 0

-- Workers that are about to look at the queue.
abbrev pub is_looking : WorkerPc → ℕ
is_looking dequeuing = 1
is_looking _ = 0

-- What `main` knows of the queue's size.
abbrev pub MainKnows : RequestQueue → MainPc → Type 0
MainKnows q (check_waiting _) = q.size ≡ q.capacity
MainKnows q (enqueuing _ _) = q.size < q.capacity
MainKnows q (enqueue_waiting _ _) = ⊥
MainKnows q _ = Unit

-- The connection that `main` has accepted and not yet put into the queue.
abbrev pub in_hand : MainPc → List ℕ
in_hand accepting = []
in_hand (checking c) = c ∷ []
in_hand (check_waiting c) = c ∷ []
in_hand (enqueuing c t) = c ∷ []
in_hand (enqueue_waiting c t) = c ∷ []

abbrev pub connfd_of : Arrival → ℕ
connfd_of a = a.connfd

pub record PoolInv (num_threads : ℕ) (s : Server) : Type 0 where
  pub valid : IsValid s.queue
  pub crew : length s.workers ≡ num_threads
  pub held : s.queue.size ≡ s.queue.dequeueing_size + weigh is_busy s.workers
  pub heard : 0 < weigh is_waiting s.workers → s.queue.dequeueing_size ≤ weigh is_looking s.workers
  pub knows : MainKnows s.queue s.main
  pub in_order : s.accepted ≡ map connfd_of s.enqueued ++ in_hand s.main
  pub fifo : map some s.enqueued ≡ map some s.dispatched ++ contents s.queue

weigh-replicate_zero :
    (w : WorkerPc → ℕ) (n : ℕ) → w dequeuing ≡ 0 → weigh w (replicate n dequeuing) ≡ 0
weigh-replicate_zero w zero h = refl
weigh-replicate_zero w (suc n) h = omega (arith, weigh-replicate_zero w n h)

pub start-PoolInv :
    (memory : List Request) (capacity n : ℕ)
    → length memory ≡ capacity
    → 0 < capacity
    → IsValid (init_queue memory capacity)
    → PoolInv n (start (init_queue memory capacity) n)
unfolding init_queue
start-PoolInv memory capacity n h pos v = record {
  valid = v;
  crew = length-replicate n dequeuing;
  held = omega (arith, weigh-replicate_zero is_busy n refl);
  heard = λ w. omega arith;
  knows = tt;
  in_order = refl;
  fifo = refl;
}

-- One worker moves from `p` to `p'`.
module _ (ws : List WorkerPc) (i : ℕ) {p : WorkerPc} (p' : WorkerPc)
    (at : get_elem? ws i ≡ some p) where
  pub record Moved : Type 0 where
    pub busy : weigh is_busy (set ws i p') + is_busy p ≡ weigh is_busy ws + is_busy p'
    pub looking :
        weigh is_looking (set ws i p') + is_looking p ≡ weigh is_looking ws + is_looking p'
    pub asleep : weigh is_waiting (set ws i p') + is_waiting p ≡ weigh is_waiting ws + is_waiting p'
    pub same_crew : length (set ws i p') ≡ length ws

  pub moved : Moved
  moved = record {
    busy = weigh-set is_busy ws i p' at;
    looking = weigh-set is_looking ws i p' at;
    asleep = weigh-set is_waiting ws i p' at;
    same_crew = length-set ws i p';
  }
