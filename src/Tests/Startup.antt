-- ===== src/Tests/Startup.antt =====
-- A server started with two workers and five places, and a worker that answers two requests.
use operating_systems_wet.Base.{ℕ, zero, suc, ◌≡◌, refl, ap, List, [], ◌∷◌, ◌++◌, some, length}
use operating_systems_wet.Base.Int.{pos}
use operating_systems_wet.Base.Bytes.{codes}
use operating_systems_wet.Segel.{returned, open_listenfd}
use operating_systems_wet.Log.Buffer.{create_log}
use operating_systems_wet.Log.Guard.{log_start_read}
use operating_systems_wet.Log.Whole.{get_log}
use operating_systems_wet.Rio.Read.{chunk, rio_readinitb, rio_read}
use operating_systems_wet.Rio.Line.{rio_readlineb}
use operating_systems_wet.Server.Queue.{Request, init_queue}
use operating_systems_wet.Server.Pool.{start}
use operating_systems_wet.Server.Args.{Args, ListenCalls, Started, getargs, main_start}
use operating_systems_wet.Server.Args.Start.{IsReady, main_start_lem}
use operating_systems_wet.Server.Worker.{Job, worker_start, worker_run, worker_round}
use operating_systems_wet.Request.Stats.{ThreadsStats, crlf}
use operating_systems_wet.Request.Handle.{request_handle, handle_line, handle_method, handle_post}
use operating_systems_wet.Request.Answer.{request_serve_post}
use operating_systems_wet.Tests.Log.{zeros, zeros-AllocatesExactly, one_byte}
use operating_systems_wet.Tests.Requests.{noon, env, stack}

abbrev command : List (List ℕ)
command = codes "./server" ∷ codes "8003" ∷ codes " 2" ∷ codes "+5x" ∷ []

abbrev parsed : Args
parsed = record { port = pos 8003; num_threads = pos 2; que_size = pos 5 }

parses : getargs command ≡ returned parsed
unfolding getargs
parses = refl

abbrev blank : Request
blank = record { connfd = 0; arrival_time = noon; dispatch_time = noon }

blanks : ℕ → List Request
blanks zero = []
blanks (suc n) = blank ∷ blanks n

blanks-exact : (n : ℕ) → length (blanks n) ≡ n
unfolding blanks
blanks-exact zero = refl
blanks-exact (suc n) = ap suc (blanks-exact n)

abbrev listens : ListenCalls
listens = record { socket_rc = pos 3; setsockopt_rc = pos 0; bind_rc = pos 0; listen_rc = pos 0 }

abbrev running : Started
running = record {
  server = start (init_queue (blanks 5) 5) 2;
  log = create_log zeros;
  thread_ids = 1 ∷ 2 ∷ [];
}

runs : main_start blanks zeros listens (λ _. pos 0) command ≡ returned running
unfolding main_start open_listenfd
runs = refl

main_start_lem_example : IsReady running
main_start_lem_example =
    main_start_lem blanks zeros listens (λ _. pos 0) command {st = running} blanks-exact
      zeros-AllocatesExactly runs

-- A POST, and a connection that closes at once.
abbrev post_job : Job
post_job = record {
  env = env;
  stack = stack;
  fd = chunk (codes "POST log HTTP/1.0" ++ crlf) ∷ [];
  arrival = noon;
  now = noon;
  log = one_byte;
}

abbrev closed_job : Job
closed_job = record post_job { fd = [] }

abbrev after_both : ThreadsStats
after_both = record { id = 2; stat_req = 0; dynm_req = 0; post_req = 1; total_req = 1 }

two_jobs : worker_run (post_job ∷ closed_job ∷ []) (worker_start 2) ≡ some after_both
unfolding worker_run worker_start worker_round request_handle handle_line handle_method handle_post
    request_serve_post get_log log_start_read rio_readlineb rio_readinitb rio_read
two_jobs = refl
