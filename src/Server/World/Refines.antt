-- ===== src/Server/World/Refines.antt =====
-- The threads of the whole server are those of `Server.Pool`.
use operating_systems_wet.Base.{ℕ}
use operating_systems_wet.Log.Buffer.{ServerLog}
use operating_systems_wet.Server.Queue.{RequestQueue}
use operating_systems_wet.Server.Pool.{Step, handled, Reach, started, later}
use operating_systems_wet.Server.World.{World, Act, moves, serves, Run, begins, goes_on}

Act-Step : {v w : World} → Act v w → Step v.pool w.pool
Act-Step (moves st h) = st
Act-Step (serves i job at have a n l e) = handled i at

-- Whatever the whole server does, its threads do a run of the pool: so all that holds in every reachable
-- state of the pool holds here.
pub Run-Reach :
    (q : RequestQueue) (num_threads : ℕ) (log : ServerLog) {w : World}
    → Run q num_threads log w
    → Reach q num_threads w.pool
Run-Reach q num_threads log begins = started
Run-Reach q num_threads log (goes_on r a) = later (Run-Reach q num_threads log r) (Act-Step a)
