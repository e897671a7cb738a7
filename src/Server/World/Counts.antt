-- ===== src/Server/World/Counts.antt =====
-- Requests that workers hold, and requests that have been dispatched.
use operating_systems_wet.Base.{
  ℕ, ◌+◌, ◌≤◌, ◌≡◌, ap, false, List, [], ◌∷◌, length, length-append, arith,
}
use operating_systems_wet.Base.Threads.{weigh, weigh-set}
use operating_systems_wet.Server.Pool.{
  WorkerPc, dequeuing, waiting, handling, Server, SignalNotEmpty, woke, nobody, Step, accept,
  check_full, check_room, enqueue_full, enqueue_done, dequeue_empty, dequeue_done, handled, finish,
  spurious_main, spurious_worker,
}
use operating_systems_wet.Server.World.{handles}

abbrev pub is_handling : WorkerPc → ℕ
is_handling (handling r now) = 1
is_handling _ = 0

signal-is_handling :
    (ws ws' : List WorkerPc) → SignalNotEmpty ws ws' → weigh is_handling ws' ≡ weigh is_handling ws
signal-is_handling ws ws' (woke i at e) =
    rw e (omega (arith, weigh-set is_handling ws i dequeuing at))
signal-is_handling ws ws' (nobody none_waits e) = ap (weigh is_handling) e

-- A step that handles no request gives a worker at most as many requests as it dispatches.
pub moves_held :
    {s t : Server} (st : Step s t)
    → handles st ≡ false
    → weigh is_handling t.workers + length s.dispatched
      ≤ weigh is_handling s.workers + length t.dispatched
moves_held (accept e c) h = omega arith
moves_held (check_full e full) h = omega arith
moves_held (check_room e room t) h = omega arith
moves_held (enqueue_full e full) h = omega arith
moves_held {s} (enqueue_done {ws = ws} e done signal) h =
    omega (arith, signal-is_handling s.workers ws signal)
moves_held {s} (dequeue_empty i at e) h =
    omega (arith, weigh-set is_handling s.workers i waiting at)
moves_held {s} (dequeue_done i {r} at e now) h = omega (
  arith,
  weigh-set is_handling s.workers i (handling r now) at,
  length-append s.dispatched (_ ∷ []),
)
moves_held (handled i at) h = absurd (cc)
moves_held {s} (finish i at) h = omega (arith, weigh-set is_handling s.workers i dequeuing at)
moves_held spurious_main h = omega arith
moves_held {s} (spurious_worker i at) h =
    omega (arith, weigh-set is_handling s.workers i dequeuing at)

pub dispatched_grows : {s t : Server} → Step s t → length s.dispatched ≤ length t.dispatched
dispatched_grows (accept e c) = omega arith
dispatched_grows (check_full e full) = omega arith
dispatched_grows (check_room e room t) = omega arith
dispatched_grows (enqueue_full e full) = omega arith
dispatched_grows (enqueue_done e done signal) = omega arith
dispatched_grows (dequeue_empty i at e) = omega arith
dispatched_grows {s} (dequeue_done i at e now) = omega (arith, length-append s.dispatched (_ ∷ []))
dispatched_grows (handled i at) = omega arith
dispatched_grows (finish i at) = omega arith
dispatched_grows spurious_main = omega arith
dispatched_grows (spurious_worker i at) = omega arith
