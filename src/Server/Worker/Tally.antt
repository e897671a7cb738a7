-- ===== src/Server/Worker/Tally.antt =====
-- The counters of a worker over all the requests it handles.
use mathlib.Core.Option.{some-injective}
use operating_systems_wet.Base.{
  ℕ, suc, ◌+◌, ◌^◌, ◌≤◌, ◌<◌, ◌≡◌, refl, sym, subst, List, [], ◌∷◌, Option, some, arith, length,
}
use operating_systems_wet.Base.Bytes.{codes}
use operating_systems_wet.Base.Time.{timersub}
use operating_systems_wet.Rio.Read.{rio_readinitb}
use operating_systems_wet.Rio.Line.{Line, line, end_of_file, read_error, rio_readlineb}
use operating_systems_wet.Request.Stats.{ThreadsStats}
use operating_systems_wet.Request.Headers.{maxline}
use operating_systems_wet.Request.Session.{Session, Outcome, returns, exits, stuck, check}
use operating_systems_wet.Request.Answer.Kept.{Ensures, Ensures-bind, Ensures-imp}
use operating_systems_wet.Request.Handle.{Stack, request_handle}
use operating_systems_wet.Request.Handle.Kinds.{neither, static, dynamic, post}
use operating_systems_wet.Request.Handle.Counts.{Handled, request_handle-Handled}
use operating_systems_wet.Server.Worker.{
  Job, worker_start, opening, worker_round, stats_left, worker_run,
}

-- After at most `k` requests: each is counted in the total, and in at most one of the others.
pub record Tally (thread_id k : ℕ) (t : ThreadsStats) : Type 0 where
  pub same_id : t.id ≡ thread_id
  pub total : t.total_req ≤ k
  pub parts : t.stat_req + t.dynm_req + t.post_req ≤ t.total_req

module _ (thread_id k : ℕ) (small : k + 1 < 2 ^ 32) where
  Handled-Tally :
      (job : Job) (stack : Stack) (l : Line) (s s' : Session)
      → Tally thread_id k s.stats
      → Handled job.env job.arrival (timersub job.now job.arrival) stack l s s'
      → Tally thread_id (suc k) s'.stats
  Handled-Tally job stack end_of_file s s' t h =
      subst (λ x. Tally thread_id (suc k) x.stats) (sym h) (omega (arith, t))
  Handled-Tally job stack read_error s s' t h = absurd h
  Handled-Tally job stack (line text n) s s' t (neither, ok, e) =
      subst (Tally thread_id (suc k)) (sym e) (omega (arith, t))
  Handled-Tally job stack (line text n) s s' t (static, ok, e) =
      subst (Tally thread_id (suc k)) (sym e) (omega (arith, t))
  Handled-Tally job stack (line text n) s s' t (dynamic, ok, e) =
      subst (Tally thread_id (suc k)) (sym e) (omega (arith, t))
  Handled-Tally job stack (line text n) s s' t (post, ok, e) =
      subst (Tally thread_id (suc k)) (sym e) (omega (arith, t))

  pub round-Tally :
      (job : Job) (stats : ThreadsStats)
      → Tally thread_id k stats
      → Ensures (λ s'. Tally thread_id (suc k) s'.stats) (worker_round job (opening job stats))
  unfolding worker_round
  round-Tally job stats t =
      let dispatch = timersub job.now job.arrival in
      let (l, rp) = rio_readlineb (rio_readinitb job.fd) maxline in
      Ensures-bind (λ s'. Tally thread_id (suc k) s'.stats) (λ s'. Tally thread_id (suc k) s'.stats)
        (request_handle job.env job.arrival dispatch job.stack job.fd (opening job stats))
        (λ _. check job.env.close_ok (codes "Close error"))
        (Ensures-imp _ _ _ (λ s' h. Handled-Tally job job.stack l (opening job stats) s' t h)
          (request_handle-Handled job.env job.arrival dispatch job.stack job.fd (opening job stats)
            (omega (arith, t))))
        (λ _ s' h. closing job s' h)
    where
      closing :
          (job : Job) (s' : Session)
          → Tally thread_id (suc k) s'.stats
          → Ensures
              (λ s'. Tally thread_id (suc k) s'.stats)
              (check job.env.close_ok (codes "Close error") s')
      closing job s' h = ground arith

stats_left-Ensures :
    (P : ThreadsStats → Type 0) (o : Outcome (Unit {0})) (f : ThreadsStats → Option ThreadsStats)
    {t' : ThreadsStats}
    → Ensures (λ s'. P s'.stats) o
    → stats_left o f ≡ some t'
    → (t : ThreadsStats) × P t × (f t ≡ some t')
stats_left-Ensures P (returns x s) f h e = (s.stats, h, e)
stats_left-Ensures P (exits message s) f h e = absurd (cc)
stats_left-Ensures P stuck f h e = absurd (cc)

run-Tally :
    (thread_id k : ℕ) (jobs : List Job) (t : ThreadsStats) {t' : ThreadsStats}
    → k + length jobs < 2 ^ 32
    → Tally thread_id k t
    → worker_run jobs t ≡ some t'
    → Tally thread_id (k + length jobs) t'
unfolding worker_run
run-Tally thread_id k [] t small h e =
    subst (Tally thread_id (k + 0)) (some-injective _ _ e) (omega (arith, h))
run-Tally thread_id k (job ∷ jobs) t small h e =
    let (t₁, h₁, e₁) =
      stats_left-Ensures (Tally thread_id (suc k)) (worker_round job (opening job t))
        (worker_run jobs) (round-Tally thread_id k (omega arith) job t h) e in
    let done : Tally thread_id (suc k + length jobs) _ =
      run-Tally thread_id (suc k) jobs t₁ (omega arith) h₁ e₁ in
    omega (arith, done)

-- A worker that has got fewer than 2^32 requests and is still there has its own number, has counted
-- at most that many requests in its total, and in its static, dynamic and POST counts together at
-- most its total.
pub worker_run_lem :
    (thread_id : ℕ) (jobs : List Job) {t : ThreadsStats}
    → length jobs < 2 ^ 32
    → worker_run jobs (worker_start thread_id) ≡ some t
    → (t.id ≡ thread_id)
      × (t.total_req ≤ length jobs)
      × (t.stat_req + t.dynm_req + t.post_req ≤ t.total_req)
unfolding worker_start
worker_run_lem thread_id jobs small e =
    let start : Tally thread_id 0 (worker_start thread_id) = record {
      same_id = refl;
      total = omega arith;
      parts = omega arith;
    } in
    let h = run-Tally thread_id 0 jobs (worker_start thread_id) (omega arith) start e in
    (h.same_id, omega (arith, h.total), h.parts)
