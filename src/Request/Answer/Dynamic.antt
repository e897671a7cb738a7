-- ===== src/Request/Answer/Dynamic.antt =====
-- The bytes that are sent of a program.
use operating_systems_wet.Base.{ℕ, ◌≡◌, true, List, ◌++◌, append_assoc}
use operating_systems_wet.Base.Time.{Timeval}
use operating_systems_wet.Request.Stats.{ThreadsStats, stats_lines, append_stats}
use operating_systems_wet.Request.Session.{Env, Session, completes}
use operating_systems_wet.Request.Answer.{request_serve_dynamic, server_lines}
use operating_systems_wet.Request.Answer.Response.{AlwaysWrites, answered}

module _ (env : Env) (arrival dispatch : Timeval) where
  -- Status, the statistics, an empty line, and what the program writes.
  abbrev pub dynamic_response : ThreadsStats → List ℕ → List ℕ
  dynamic_response stats output =
      (server_lines env arrival dispatch ++ stats_lines stats arrival dispatch) ++ output

  -- Where forking and waiting go well, the program's output is sent behind the header.
  pub request_serve_dynamic_lem :
      (filename cgiargs : List ℕ) (s : Session)
      → AlwaysWrites env
      → env.fork_ok ≡ true
      → env.wait_result ≡ completes
      → request_serve_dynamic env arrival dispatch filename cgiargs s
        ≡ answered s (s.sent ++ dynamic_response s.stats (env.run_cgi filename cgiargs)) s.printed
  unfolding request_serve_dynamic append_stats
  request_serve_dynamic_lem filename cgiargs s w forks waits =
      let header : List ℕ =
        server_lines env arrival dispatch ++ stats_lines s.stats arrival dispatch in
      rw (
        request_serve_dynamic,
        w s.sent header,
        forks,
        waits,
        append_assoc s.sent header (env.run_cgi filename cgiargs),
      )
