-- ===== src/Server/World.antt =====
-- server.c with request.c and log.c: the threads, the counters of each worker and the log they share.
-- A worker's round, from the dequeued request to `Close`, is one step: it calls the log once, and
-- Log/Threads is about such calls interleaved. A round that exits ends the program, and one that
-- never ends goes on for ever: neither is a step.
pub mod Refines
pub mod Counts
pub mod Round
pub mod Entries
pub mod Safety
pub mod Runs
pub mod Serves
use operating_systems_wet.Base.{
  ℕ, zero, suc, ◌≡◌, Bool, true, false, List, [], ◌∷◌, ◌++◌, some, get_elem?, set,
}
use operating_systems_wet.Base.Time.{Timeval}
use operating_systems_wet.Log.Buffer.{ServerLog, create_log}
use operating_systems_wet.Request.Stats.{ThreadsStats}
use operating_systems_wet.Request.Session.{Session, returns}
use operating_systems_wet.Server.Queue.{Request, RequestQueue}
use operating_systems_wet.Server.Pool.{WorkerPc, handling, finishing, Server, Step, handled, start}
use operating_systems_wet.Server.Worker.{Job, worker_start, opening, worker_round}

-- `stats` has the counters of the workers, in the order in which `main` has made them.
pub record World : Type 0 where
  pub pool : Server
  pub stats : List ThreadsStats
  pub log : ServerLog

-- Whether a step of the threads is the one in which a request has been handled.
abbrev pub handles : {s t : Server} → Step s t → Bool
handles (handled i at) = true
handles _ = false

-- What a worker does while it handles a request is given by `worker_round`; all the other steps leave
-- the counters and the log alone.
pub data Act (w : World) : World → Type 0 where
  moves : {p : Server} (st : Step w.pool p) → handles st ≡ false → Act w (record w { pool = p })
  serves :
      (i : ℕ) {r : Request} {now : Timeval} {t : ThreadsStats} {s' : Session} (job : Job)
      → get_elem? w.pool.workers i ≡ some (handling r now)
      → get_elem? w.stats i ≡ some t
      → job.arrival ≡ r.arrival_time
      → job.now ≡ now
      → job.log ≡ w.log
      → worker_round job (opening job t) ≡ returns tt s'
      → Act w (record {
        pool = record (w.pool) { workers = set w.pool.workers i finishing };
        stats = set w.stats i s'.stats;
        log = s'.log;
      })

-- The counters of `left` workers, the first of them with the number `i + 1`.
abbrev pub new_stats : ℕ → ℕ → List ThreadsStats
new_stats zero i = []
new_stats (suc left) i = worker_start (suc i) ∷ new_stats left (suc i)

abbrev pub opened : RequestQueue → ℕ → ServerLog → World
opened q num_threads log = record {
  pool = start q num_threads;
  stats = new_stats num_threads 0;
  log = log;
}

pub data Run (q : RequestQueue) (num_threads : ℕ) (log : ServerLog) : World → Type 0 where
  begins : Run q num_threads log (opened q num_threads log)
  goes_on : {v w : World} → Run q num_threads log v → Act v w → Run q num_threads log w

-- The requests that have been handled in a run.
abbrev pub job_of : {v w : World} → Act v w → List Job
job_of (moves st h) = []
job_of (serves i job at have a n l e) = job ∷ []

abbrev pub jobs_of :
    {q : RequestQueue} {num_threads : ℕ} {log : ServerLog} {w : World}
    → Run q num_threads log w
    → List Job
jobs_of begins = []
jobs_of (goes_on r a) = job_of a ++ jobs_of r
