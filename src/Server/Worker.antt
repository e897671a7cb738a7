-- ===== src/Server/Worker.antt =====
-- server.c: `worker_thread`, from the dequeued request to `Close`, and its loop.
pub mod Tally
use operating_systems_wet.Base.{ℕ, ◌+◌, ◌%◌, ◌^◌, List, [], ◌∷◌, Option, none, some}
use operating_systems_wet.Base.Bytes.{codes}
use operating_systems_wet.Base.Time.{Timeval, timersub}
use operating_systems_wet.Log.Buffer.{ServerLog}
use operating_systems_wet.Rio.Read.{Event}
use operating_systems_wet.Request.Stats.{ThreadsStats}
use operating_systems_wet.Request.Session.{
  Env, Session, Outcome, returns, exits, stuck, M, continue, ◌>>=◌, ◌>>◌, check,
}
use operating_systems_wet.Request.Handle.{Stack, request_handle}

-- The counters that a worker starts with.
unfoldable pub worker_start : ℕ → ThreadsStats
worker_start thread_id = record {
  id = thread_id;
  stat_req = 0;
  dynm_req = 0;
  post_req = 0;
  total_req = 0;
}

-- A request that `dequeue` hands out, and what the worker meets while it handles it. `log` is the log as
-- other threads have left it.
pub record Job : Type 0 where
  pub env : Env
  pub stack : Stack
  pub fd : List Event
  pub arrival : Timeval
  pub now : Timeval
  pub log : ServerLog

abbrev pub opening : Job → ThreadsStats → Session
opening job stats = record { sent = []; printed = []; stats = stats; log = job.log }

-- `timersub`, `requestHandle` and `Close`.
unfoldable pub worker_round : Job → M (Unit {0})
unfolding timersub
worker_round job = do
  let dispatch_interval = timersub job.now job.arrival
  request_handle job.env job.arrival dispatch_interval job.stack job.fd
  check job.env.close_ok (codes "Close error")

-- What the worker goes on with; `none` where the program has exited or the worker is stuck.
abbrev pub stats_left :
    Outcome (Unit {0}) → (ThreadsStats → Option ThreadsStats) → Option ThreadsStats
stats_left (returns _ s) f = f s.stats
stats_left (exits message s) f = none
stats_left stuck f = none

-- The loop over the requests that the worker gets, and its counters after them.
unfoldable pub worker_run : List Job → ThreadsStats → Option ThreadsStats
worker_run [] stats = some stats
worker_run (job ∷ jobs) stats = stats_left (worker_round job (opening job stats)) (worker_run jobs)
