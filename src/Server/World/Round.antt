-- ===== src/Server/World/Round.antt =====
-- One round of a worker on the shared log.
use operating_systems_wet.Base.{
  ℕ, suc, ◌+◌, ◌≤◌, ◌<◌, ◌^◌, ◌≡◌, subst, Bool, true, false, List, arith,
}
use operating_systems_wet.Base.Bytes.{codes}
use operating_systems_wet.Base.Time.{timersub}
use operating_systems_wet.Log.Buffer.Bounds.{IsValid, AllocatesExactly}
use operating_systems_wet.Log.Whole.{IsQuiet}
use operating_systems_wet.Request.Stats.{ThreadsStats}
use operating_systems_wet.Request.Stats.Length.{IsStats, IsTime}
use operating_systems_wet.Request.Session.{Session, Outcome, returns, check}
use operating_systems_wet.Request.Answer.Kept.{Ensures, Ensures-bind}
use operating_systems_wet.Request.Handle.{request_handle}
use operating_systems_wet.Request.Handle.Grows.{Grown, request_handle-Grown}
use operating_systems_wet.Server.Worker.{Job, opening, worker_round}
use operating_systems_wet.Server.Worker.Tally.{Tally, round-Tally}

-- Memory of the size that is asked for, and times in normal form.
pub record GoodJob (job : Job) : Type 0 where
  pub exact : AllocatesExactly job.env.malloc
  pub arrival_time : IsTime job.arrival
  pub dispatch_time : IsTime (timersub job.now job.arrival)

check-Ensures :
    (P : Session → Type 0) (ok : Bool) (message : List ℕ) (s : Session)
    → P s
    → Ensures P (check ok message s)
check-Ensures P true message s h = h
check-Ensures P false message s h = tt

Ensures-returns :
    (P : Session → Type 0) (o : Outcome (Unit {0})) (s' : Session)
    → Ensures P o
    → o ≡ returns tt s'
    → P s'
Ensures-returns P o s' h e = subst (Ensures P) e h

module _ (job : Job) (t : ThreadsStats) (s' : Session)
    (done : worker_round job (opening job t) ≡ returns tt s') where
  -- What the log is after a round.
  pub round-Grown :
      GoodJob job
      → IsValid job.log
      → IsQuiet job.log
      → job.log.size + 270 < 2 ^ 31
      → IsStats t
      → Grown job.env job.arrival (timersub job.now job.arrival) (opening job t) s'
  unfolding worker_round
  round-Grown g v q small st =
      let dispatch = timersub job.now job.arrival in
      let P = Grown job.env job.arrival dispatch (opening job t) in
      Ensures-returns P (worker_round job (opening job t)) s'
        (Ensures-bind P P
          (request_handle job.env job.arrival dispatch job.stack job.fd (opening job t))
          (λ _. check job.env.close_ok (codes "Close error"))
          (request_handle-Grown job.env job.arrival dispatch job.stack job.fd (opening job t)
            (record {
              can_log = record { exact = g.exact; valid = v; quiet = q; room = omega arith };
              small = omega arith;
              counters = st;
              arrival_time = g.arrival_time;
              dispatch_time = g.dispatch_time;
            }))
          (λ _ s h. check-Ensures P job.env.close_ok (codes "Close error") s h))
        done

  -- And what its counters are.
  pub round-counts :
      (thread_id : ℕ)
      → t.id ≡ thread_id
      → t.stat_req + t.dynm_req + t.post_req ≤ t.total_req
      → t.total_req + 1 < 2 ^ 32
      → Tally thread_id (suc t.total_req) s'.stats
  round-counts thread_id same parts small =
      Ensures-returns (λ s. Tally thread_id (suc t.total_req) s.stats)
        (worker_round job (opening job t)) s'
        (round-Tally thread_id t.total_req small job t
          (record { same_id = same; total = omega arith; parts = parts }))
        done
