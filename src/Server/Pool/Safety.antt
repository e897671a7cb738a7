-- ===== src/Server/Pool/Safety.antt =====
-- What holds of the server's threads in every reachable state.
use operating_systems_wet.Base.{
  ℕ, zero, suc, ◌+◌, ◌^◌, ◌<◌, ◌≡◌, ◌≢◌, refl, sym, subst, ap, ◌∙◌, List, [], ◌∷◌, ◌++◌, Option,
  some, map, arith, get_elem?, length, dec_lt, append_assoc, map-append,
}
use operating_systems_wet.Base.Threads.{weigh, weigh_find}
use operating_systems_wet.Server.Queue.{Timeval, Request, init_queue}
use operating_systems_wet.Server.Queue.Bounds.{init_queue-IsValid}
use operating_systems_wet.Server.Queue.Refine.{Arrival, contents, slots}
use operating_systems_wet.Server.Pool.{
  enqueue_waiting, WorkerPc, waiting, Server, is_waiting, Reach, started, later,
}
use operating_systems_wet.Server.Pool.Invariant.{
  is_busy, is_looking, MainKnows, in_hand, connfd_of, PoolInv, start-PoolInv,
}
use operating_systems_wet.Server.Pool.Preserve.{Step-PoolInv}

-- In every state that the server reaches from a queue with room for a positive number of requests,
-- an `int`, the invariant holds: the queue is valid, its size counts the waiting and the running
-- requests, no worker sleeps beside a request that nobody looks for, what `Accept` returned is what was
-- put into the queue and what `main` holds, and what waits is what was put into the queue and not yet
-- dispatched.
pub Reach-PoolInv :
    (memory : List Request) (capacity n : ℕ)
    → length memory ≡ capacity
    → 0 < capacity
    → capacity < 2 ^ 31
    → {s : Server} → Reach (init_queue memory capacity) n s
    → PoolInv n s
Reach-PoolInv memory capacity n h pos int started =
    start-PoolInv memory capacity n h pos (init_queue-IsValid memory capacity h pos int)
Reach-PoolInv memory capacity n h pos int (later r st) =
    Step-PoolInv (Reach-PoolInv memory capacity n h pos int r) st

split_map :
    (xs ys : List Arrival) (l : List (Option Arrival))
    → map some xs ≡ map some ys ++ l
    → (rest : List Arrival) × (xs ≡ ys ++ rest) × (l ≡ map some rest)
split_map xs [] l e = (xs, refl, sym e)
split_map [] (y ∷ ys) l e = absurd (cc)
split_map (x ∷ xs) (y ∷ ys) l e =
    let (rest, same, left) = split_map xs ys l (cc) in (rest, cc, left)

length-slots : (cap : ℕ) (b : List Request) (h n : ℕ) → length (slots cap b h n) ≡ n
length-slots cap b h zero = refl
length-slots cap b h (suc n) = ap suc (length-slots cap b (h + 1) n)

length-map-some : (xs : List Arrival) → length (map some xs) ≡ length xs
length-map-some [] = refl
length-map-some (x ∷ xs) = ap suc (length-map-some xs)

-- The connections that `Accept` returned are those that workers have taken, in the same order, then
-- those that wait in the queue, as many as it says, and then the one that `main` holds, if it holds
-- one.
pub PoolInv-in_order :
    {n : ℕ} {s : Server}
    → PoolInv n s
    → (rest : List Arrival) × (s.accepted
        ≡ map connfd_of s.dispatched ++ (map connfd_of rest ++ in_hand s.main))
      × (s.enqueued ≡ s.dispatched ++ rest)
      × (length rest ≡ s.queue.dequeueing_size)
PoolInv-in_order {n} {s} inv =
    let (rest, same, left) = split_map s.enqueued s.dispatched (contents s.queue) inv.fifo in
    (rest, regroup rest same, same, count rest left)
  where
    open s.queue use {buffer, capacity, front, dequeueing_size}

    regroup :
        (rest : List Arrival)
        → s.enqueued ≡ s.dispatched ++ rest
        → s.accepted ≡ map connfd_of s.dispatched ++ (map connfd_of rest ++ in_hand s.main)
    regroup rest same =
        inv.in_order
        ∙ ap (λ l. map connfd_of l ++ in_hand s.main) same
        ∙ simp (map-append, append_assoc)

    count : (rest : List Arrival) → contents s.queue ≡ map some rest → length rest ≡ dequeueing_size
    count rest left =
        sym (length-map-some rest)
        ∙ ap length (sym left)
        ∙ length-slots capacity buffer front dequeueing_size

-- The `while` of `enqueue` never waits: `main` has already waited for room, and only workers touch
-- the queue in between.
pub PoolInv-no_wait :
    {n : ℕ} {s : Server} → PoolInv n s → (c : ℕ) (t : Timeval) → s.main ≢ enqueue_waiting c t
PoolInv-no_wait {n} {s} inv c t e = subst (MainKnows s.queue) e inv.knows

weigh-parts :
    (ws : List WorkerPc) → weigh is_busy ws + weigh is_looking ws + weigh is_waiting ws ≡ length ws
weigh-parts [] = refl
weigh-parts (p ∷ ws) = omega (arith, weigh-parts ws, one p)
  where
    one : (p : WorkerPc) → is_busy p + is_looking p + is_waiting p ≡ 1
    one p = ground arith

-- No wake-up is lost: while a request waits or runs, some worker is awake.
pub PoolInv-awake :
    {n : ℕ} {s : Server}
    → PoolInv n s
    → 0 < n
    → 0 < s.queue.size
    → (i : ℕ) × (p : WorkerPc) × (get_elem? s.workers i ≡ some p) × (p ≢ waiting)
PoolInv-awake {n} {s} inv pos some_left = elim (dec_lt 0 (weigh is_busy s.workers)) [
  | yes busy ↦
      let (i, p, at, h) = weigh_find is_busy s.workers busy in (i, p, at, λ e. busy_ne p h e)
  | no none_busy ↦
      let (i, p, at, h) = weigh_find is_looking s.workers (looking none_busy) in
      (i, p, at, λ e. looking_ne p h e)
]
  where
    busy_ne : (p : WorkerPc) → 0 < is_busy p → p ≢ waiting
    busy_ne p h e = ground arith

    looking_ne : (p : WorkerPc) → 0 < is_looking p → p ≢ waiting
    looking_ne p h e = ground arith

    looking : ¬ (0 < weigh is_busy s.workers) → 0 < weigh is_looking s.workers
    looking h = elim (dec_lt 0 (weigh is_waiting s.workers)) [
      | yes w ↦ omega (arith, weigh-parts s.workers, inv.heard w, inv.held)
      | no asleep ↦ omega (arith, weigh-parts s.workers, inv.held, inv.crew)
    ]
