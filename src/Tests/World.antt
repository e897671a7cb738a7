-- ===== src/Tests/World.antt =====
-- A server with one worker that has served a page.
use operating_systems_wet.Base.{
  ℕ, ◌+◌, ◌≤◌, ◌≡◌, refl, List, [], ◌∷◌, ◌++◌, some, false, get_elem?, length, arith,
}
use operating_systems_wet.Base.Int.{◌-ℤ◌}
use operating_systems_wet.Base.Threads.{weigh}
use operating_systems_wet.Base.Time.{timersub}
use operating_systems_wet.Log.Buffer.{create_log}
use operating_systems_wet.Log.Buffer.Bounds.{content, IsValid, create_log-IsValid}
use operating_systems_wet.Log.Whole.{IsQuiet}
use operating_systems_wet.Log.Threads.History.{joined}
use operating_systems_wet.Rio.Read.Stream.{at_end}
use operating_systems_wet.Request.Stats.Length.{IsTime}
use operating_systems_wet.Request.Session.{Session, returns}
use operating_systems_wet.Request.Uri.{request_parse_uri}
use operating_systems_wet.Request.Handle.{count_total, request_handle}
use operating_systems_wet.Request.Handle.Ends.{CanHandle}
use operating_systems_wet.Request.Handle.Reaction.{reaction}
use operating_systems_wet.Request.Handle.Reacts.{Fulfils}
use operating_systems_wet.Client.Fetch.{request_handle-Fulfils}
use operating_systems_wet.Server.Queue.{is_full, enqueue}
use operating_systems_wet.Server.Pool.{
  accepting, handling, finishing, accept, check_room, enqueue_done, nobody, dequeue_done,
}
use operating_systems_wet.Server.Worker.{Job, worker_start, opening, worker_round}
use operating_systems_wet.Server.World.{World, Act, Run, begins, goes_on, moves, serves, jobs_of}
use operating_systems_wet.Server.World.Round.{GoodJob}
use operating_systems_wet.Server.World.Entries.{total_of, logged_of, AllGood, AllEntries}
use operating_systems_wet.Server.World.Serves.{promised, server_serves}
use operating_systems_wet.Server.World.Runs.{server_log_lem, server_counts_lem}
use operating_systems_wet.Tests.Log.{zeros, zeros-AllocatesExactly}
use operating_systems_wet.Tests.Pool.{first, empty, one_runs, enqueue-empty, dequeue_one}
use operating_systems_wet.Tests.Requests.{stack, env, noon, noon-IsTime}
use operating_systems_wet.Tests.Asked.{get, page, host, asked, env-IsBenign, get-page-IsAsked}

abbrev job : Job
job = record {
  env = env;
  stack = stack;
  fd = asked;
  arrival = noon;
  now = noon;
  log = create_log zeros;
}

at_once-IsTime : IsTime (timersub noon noon)
unfolding timersub ◌-ℤ◌
at_once-IsTime = record { sec_max = omega arith; sec_min = omega arith; usec = omega arith }

can_handle : CanHandle env noon (timersub noon noon) (opening job (worker_start 1))
unfolding create_log worker_start
can_handle = record {
  can_log = record {
    exact = zeros-AllocatesExactly;
    valid = (create_log-IsValid zeros zeros-AllocatesExactly).0;
    quiet = record { no_readers = refl; no_writers = refl; no_waiting = refl };
    room = omega arith;
  };
  small = omega arith;
  counters = record {
    id = omega arith;
    stat_req = omega arith;
    dynm_req = omega arith;
    post_req = omega arith;
    total_req = omega arith;
  };
  arrival_time = noon-IsTime;
  dispatch_time = at_once-IsTime;
}

served :
    Fulfils
      (opening job (worker_start 1))
      (reaction env noon
        (timersub noon noon)
        (count_total (worker_start 1))
        (create_log zeros)
        get
        (request_parse_uri stack.below_uri page stack.cgiargs))
      (request_handle env noon (timersub noon noon) stack asked (opening job (worker_start 1)))
served =
    request_handle-Fulfils env noon (timersub noon noon) stack asked get page host at_end
      get-page-IsAsked refl (opening job (worker_start 1)) env-IsBenign can_handle

-- The session when the page has been sent.
abbrev page_sent : Session
page_sent = served.0

round_done : worker_round job (opening job (worker_start 1)) ≡ returns tt page_sent
unfolding worker_round
round_done = rw served.1

abbrev world_after : World
world_after = record {
  pool = record {
    queue = one_runs;
    main = accepting;
    workers = finishing ∷ [];
    accepted = 7 ∷ [];
    enqueued = record { connfd = 7; arrival_time = noon } ∷ [];
    dispatched = record { connfd = 7; arrival_time = noon } ∷ [];
  };
  stats = page_sent.stats ∷ [];
  log = page_sent.log;
}

has_room : is_full empty ≡ false
unfolding enqueue
has_room = refl

-- The worker holds the request.
abbrev world_before : World
world_before = record {
  pool = record {
    queue = one_runs;
    main = accepting;
    workers = handling first noon ∷ [];
    accepted = 7 ∷ [];
    enqueued = record { connfd = 7; arrival_time = noon } ∷ [];
    dispatched = record { connfd = 7; arrival_time = noon } ∷ [];
  };
  stats = worker_start 1 ∷ [];
  log = create_log zeros;
}

abbrev held_run : Run empty 1 (create_log zeros) world_before
held_run =
    goes_on
      (goes_on
        (goes_on (goes_on begins (moves (accept refl 7) refl))
          (moves (check_room refl has_room noon) refl))
        (moves (enqueue_done refl enqueue-empty (nobody refl refl)) refl))
      (moves (dequeue_done 0 refl dequeue_one noon) refl)

abbrev page_run : Run empty 1 (create_log zeros) world_after
page_run = goes_on held_run (serves 0 job refl refl refl refl refl round_done)

job-GoodJob : GoodJob job
job-GoodJob = record {
  exact = zeros-AllocatesExactly;
  arrival_time = noon-IsTime;
  dispatch_time = at_once-IsTime;
}

server_serves_example :
    (s' : Session) × (w' : World) × Act world_before w'
    × (worker_round job (opening job (worker_start 1)) ≡ returns tt s')
    × (s'.sent ≡ (promised job (worker_start 1) get page).answer)
    × (get_elem? w'.pool.workers 0 ≡ some finishing)
    × (get_elem? w'.stats 0 ≡ some (promised job (worker_start 1) get page).counters)
    × (content w'.log
        ≡ content (create_log zeros) ++ (promised job (worker_start 1) get page).entry)
server_serves_example =
    server_serves empty 1 zeros zeros-AllocatesExactly (omega arith) {w = world_before} held_run tt
      (omega arith) 0 {rq = first} {now = noon} {t = worker_start 1} job refl refl refl refl refl
      job-GoodJob env-IsBenign get page host at_end get-page-IsAsked refl

all_good : AllGood (jobs_of page_run)
all_good = (job-GoodJob, tt)

server_log_lem_example :
    (entries : List (List ℕ)) × (content page_sent.log ≡ joined entries)
    × AllEntries 1 entries
    × (weigh logged_of (page_sent.stats ∷ []) ≤ length entries)
    × (length entries ≤ 1)
    × IsValid page_sent.log
    × IsQuiet page_sent.log
server_log_lem_example =
    server_log_lem empty 1 zeros zeros-AllocatesExactly (omega arith) {w = world_after} page_run
      all_good (omega arith)

server_counts_lem_example :
    (weigh total_of (page_sent.stats ∷ []) ≤ 1)
    × (page_sent.stats.id ≡ 1)
    × (page_sent.stats.stat_req + page_sent.stats.dynm_req + page_sent.stats.post_req
        ≤ page_sent.stats.total_req)
server_counts_lem_example =
    server_counts_lem empty 1 zeros zeros-AllocatesExactly (omega arith) {w = world_after} page_run
      all_good (omega arith) 0 {t = page_sent.stats} refl
