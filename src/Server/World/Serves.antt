-- ===== src/Server/World/Serves.antt =====
-- A worker of the whole server with the request of a client.
use operating_systems_wet.Base.{
  ℕ, ◌+◌, ◌*◌, ◌<◌, ◌^◌, ◌≡◌, sym, subst, ap, ◌∙◌, List, ◌++◌, length, true, some, get_elem?, arith,
}
use operating_systems_wet.Base.Threads.{get_elem?-set_here}
use operating_systems_wet.Base.Time.{timersub}
use operating_systems_wet.Log.Buffer.{ServerLog, create_log}
use operating_systems_wet.Log.Buffer.Bounds.{content, IsValid, AllocatesExactly}
use operating_systems_wet.Log.Whole.{IsQuiet}
use operating_systems_wet.Rio.Read.Stream.{Stop, flow}
use operating_systems_wet.Request.Stats.{ThreadsStats}
use operating_systems_wet.Request.Uri.{request_parse_uri}
use operating_systems_wet.Request.Session.{Session, returns}
use operating_systems_wet.Request.Handle.{count_total, request_handle}
use operating_systems_wet.Request.Handle.Reaction.{Reaction, reaction}
use operating_systems_wet.Request.Handle.Reacts.{IsBenign}
use operating_systems_wet.Client.{request_text}
use operating_systems_wet.Client.Fits.{IsAsked}
use operating_systems_wet.Client.Fetch.{request_handle-Fulfils}
use operating_systems_wet.Server.Queue.{Timeval, Request, RequestQueue}
use operating_systems_wet.Server.Pool.{handling, finishing}
use operating_systems_wet.Server.Worker.{Job, opening, worker_round}
use operating_systems_wet.Server.World.{World, Act, serves, Run, jobs_of}
use operating_systems_wet.Server.World.Round.{GoodJob}
use operating_systems_wet.Server.World.Entries.{AllGood}
use operating_systems_wet.Server.World.Safety.{held-IsStats}
use operating_systems_wet.Server.World.Runs.{Run-WorldInv}

-- What the server promises for the request of a job.
abbrev pub promised : Job → ThreadsStats → List ℕ → List ℕ → Reaction
promised job t method filename =
    reaction job.env job.arrival (timersub job.now job.arrival) (count_total t) job.log method
      (request_parse_uri job.stack.below_uri filename job.stack.cgiargs)

round_returns :
    (job : Job) (t : ThreadsStats) (s' : Session)
    → request_handle job.env job.arrival
        (timersub job.now job.arrival)
        job.stack
        job.fd
        (opening job t)
      ≡ returns tt s'
    → job.env.close_ok ≡ true
    → worker_round job (opening job t) ≡ returns tt s'
unfolding worker_round
round_returns job t s' back closes = rw (back, closes)

module _ (q : RequestQueue) (n : ℕ) (malloc : ℕ → List ℕ) (exact : AllocatesExactly malloc)
    (int : n < 2 ^ 31) where
  -- In every state of a run of the server that has dispatched at most 7,983,209 requests, with memory of the
  -- size that is asked for, fewer than 2^31 workers and times in normal form: a worker that holds the request
  -- of a client, made of words so short that no buffer overflows, can finish it, if the operating system does what it is
  -- asked. The step sends the answer that the specification of the server says, leaves the worker at
  -- `finishHandling` with its counters changed, and adds the entry to the shared log, as the specification says.
  pub server_serves :
      {w : World} (r : Run q n (create_log malloc) w)
      → AllGood (jobs_of r)
      → 269 * length w.pool.dispatched + 270 < 2 ^ 31
      → (i : ℕ) {rq : Request} {now : Timeval} {t : ThreadsStats} (job : Job)
      → get_elem? w.pool.workers i ≡ some (handling rq now)
      → get_elem? w.stats i ≡ some t
      → job.arrival ≡ rq.arrival_time
      → job.now ≡ now
      → job.log ≡ w.log
      → GoodJob job
      → IsBenign job.env
      → (method filename hostname : List ℕ) (stop : Stop) → IsAsked method filename hostname
      → flow job.fd ≡ record { coming = request_text method filename hostname; stop = stop }
      → (s' : Session) × (w' : World) × Act w w'
        × (worker_round job (opening job t) ≡ returns tt s')
        × (s'.sent ≡ (promised job t method filename).answer)
        × (get_elem? w'.pool.workers i ≡ some finishing)
        × (get_elem? w'.stats i ≡ some (promised job t method filename).counters)
        × (content w'.log ≡ content w.log ++ (promised job t method filename).entry)
  server_serves {w} r good small i {rq} {now} {t} job at have arr nw same g benign method filename
        hostname stop asked arrives =
      let inv = Run-WorldInv q n malloc exact int r good small in
      let (st, few) = held-IsStats n w i at have int small inv in
      let roomy : job.log.size + 270 < 2 ^ 31 =
        omega (arith, ap (λ (l : ServerLog). l.size) same, inv.log_inv.short, inv.log_inv.few) in
      let (s', back, counts, sent, logged, valid, quiet) =
        request_handle-Fulfils job.env job.arrival (timersub job.now job.arrival) job.stack job.fd
          method filename hostname stop asked arrives (opening job t) benign
          (record {
            can_log = record {
              exact = g.exact;
              valid = subst IsValid (sym same) inv.log_inv.valid;
              quiet = subst IsQuiet (sym same) inv.log_inv.quiet;
              room = omega arith;
            };
            small = omega arith;
            counters = st;
            arrival_time = g.arrival_time;
            dispatch_time = g.dispatch_time;
          }) in
      let done : worker_round job (opening job t) ≡ returns tt s' =
        round_returns job t s' back benign.closes in
      (
        s',
        _,
        serves i job at have arr nw same done,
        done,
        sent,
        get_elem?-set_here w.pool.workers i finishing at,
        get_elem?-set_here w.stats i s'.stats have ∙ ap some counts,
        logged ∙ ap (λ l. content l ++ (promised job t method filename).entry) same,
      )
