-- ===== src/Server/World/Runs.antt =====
-- What a run of the whole server guarantees, from the log that `create_log` made.
use operating_systems_wet.Base.{
  ℕ, zero, suc, ◌+◌, ◌*◌, ◌≤◌, ◌<◌, ◌^◌, ◌≡◌, refl, List, [], ◌∷◌, ◌++◌, length, replicate, some,
  get_elem?, arith,
}
use operating_systems_wet.Base.Threads.{weigh}
use operating_systems_wet.Log.Buffer.{create_log}
use operating_systems_wet.Log.Buffer.Bounds.{content, IsValid, AllocatesExactly, create_log-IsValid}
use operating_systems_wet.Log.Whole.{IsQuiet}
use operating_systems_wet.Log.Threads.History.{joined}
use operating_systems_wet.Request.Stats.{ThreadsStats}
use operating_systems_wet.Server.Queue.{RequestQueue}
use operating_systems_wet.Server.Pool.{dequeuing}
use operating_systems_wet.Server.Worker.{Job, worker_start}
use operating_systems_wet.Server.World.{
  World, Act, moves, serves, new_stats, opened, Run, begins, goes_on, job_of, jobs_of,
}
use operating_systems_wet.Server.World.Counts.{is_handling, dispatched_grows}
use operating_systems_wet.Server.World.Entries.{total_of, logged_of, AllGood, AllEntries}
use operating_systems_wet.Server.World.Safety.{WorldInv, step-WorldInv}

AllGood-append : (js ks : List Job) → AllGood (js ++ ks) → AllGood js × AllGood ks
AllGood-append [] ks h = (tt, h)
AllGood-append (j ∷ js) ks (g, h) = let (a, b) = AllGood-append js ks h in ((g, a), b)

Act-grows : {v w : World} → Act v w → length v.pool.dispatched ≤ length w.pool.dispatched
Act-grows (moves st h) = dispatched_grows st
Act-grows (serves i job at have a n l e) = omega arith

new_stats-own :
    (left i j : ℕ) {t : ThreadsStats}
    → get_elem? (new_stats left i) j ≡ some t
    → (t.id ≡ suc (i + j))
      × (suc (i + j) ≤ i + left)
      × (t.stat_req + t.dynm_req + t.post_req ≤ t.total_req)
unfolding worker_start
new_stats-own zero i j e = absurd (cc)
new_stats-own (suc left) i zero e = ground arith
new_stats-own (suc left) i (suc j) e =
    let (id, last, parts) = new_stats-own left (suc i) j e in (omega arith, omega arith, parts)

weigh-new_stats : (left i : ℕ) → weigh total_of (new_stats left i) ≡ 0
unfolding worker_start
weigh-new_stats zero i = refl
weigh-new_stats (suc left) i = omega (arith, weigh-new_stats left (suc i))

weigh-new_logged : (left i : ℕ) → weigh logged_of (new_stats left i) ≡ 0
unfolding worker_start
weigh-new_logged zero i = refl
weigh-new_logged (suc left) i = omega (arith, weigh-new_logged left (suc i))

weigh-dequeuing : (n : ℕ) → weigh is_handling (replicate n dequeuing) ≡ 0
weigh-dequeuing zero = refl
weigh-dequeuing (suc n) = omega (arith, weigh-dequeuing n)

module _ (q : RequestQueue) (n : ℕ) (malloc : ℕ → List ℕ) (exact : AllocatesExactly malloc)
    (int : n < 2 ^ 31) where
  start-WorldInv : WorldInv n (opened q n (create_log malloc))
  unfolding create_log
  start-WorldInv =
      let (v, text) = create_log-IsValid malloc exact in
      record {
        log_inv = record {
          valid = v;
          quiet = record { no_readers = refl; no_writers = refl; no_waiting = refl };
          entries = [];
          whole = text;
          each = tt;
          few = omega (arith, weigh-dequeuing n);
          enough = omega (arith, weigh-new_logged n 0);
          short = omega arith;
        };
        stats_inv = record {
          own = λ j at.
              let (id, last, parts) = new_stats-own n 0 j at in
              (omega (arith, id), omega (arith, last), parts);
          counted = omega (arith, weigh-dequeuing n, weigh-new_stats n 0);
        };
      }

  pub Run-WorldInv :
      {w : World} (r : Run q n (create_log malloc) w)
      → AllGood (jobs_of r)
      → 269 * length w.pool.dispatched + 270 < 2 ^ 31
      → WorldInv n w
  Run-WorldInv begins good small = start-WorldInv
  Run-WorldInv (goes_on {v} {w} r a) good small =
      let (now, before) = AllGood-append (job_of a) (jobs_of r) good in
      let less : 269 * length v.pool.dispatched + 270 < 2 ^ 31 = omega (arith, Act-grows a) in
      step-WorldInv n v w a now int less (Run-WorldInv r before less)

  -- In every state of a run of the server that has dispatched at most 7,983,209 requests, with memory of the
  -- size that is asked for, fewer than 2^31 workers and times in normal form, whatever the clients send and
  -- whatever fails, the log is valid and unused, and its text is a list of whole entries, each the statistics of
  -- one of the workers: at least one for each request that a worker counts as static or dynamic, and at most one
  -- for each dispatched request.
  pub server_log_lem :
      {w : World} (r : Run q n (create_log malloc) w)
      → AllGood (jobs_of r)
      → 269 * length w.pool.dispatched + 270 < 2 ^ 31
      → (entries : List (List ℕ)) × (content w.log ≡ joined entries)
        × AllEntries n entries
        × (weigh logged_of w.stats ≤ length entries)
        × (length entries ≤ length w.pool.dispatched)
        × IsValid w.log
        × IsQuiet w.log
  server_log_lem r good small =
      let inv = (Run-WorldInv r good small).log_inv in
      (inv.entries, inv.whole, inv.each, inv.enough, omega (arith, inv.few), inv.valid, inv.quiet)

  -- In every state of a run of the server that has dispatched at most 7,983,209 requests, with memory of the
  -- size that is asked for, fewer than 2^31 workers and times in normal form, the workers together have counted
  -- at most as many requests as have been dispatched, and the counters of the worker at place `i` bear the
  -- number `i + 1` and have at most as many static, dynamic and POST requests together as requests in all.
  pub server_counts_lem :
      {w : World} (r : Run q n (create_log malloc) w)
      → AllGood (jobs_of r)
      → 269 * length w.pool.dispatched + 270 < 2 ^ 31
      → (i : ℕ) {t : ThreadsStats} → get_elem? w.stats i ≡ some t
      → (weigh total_of w.stats ≤ length w.pool.dispatched)
        × (t.id ≡ suc i)
        × (t.stat_req + t.dynm_req + t.post_req ≤ t.total_req)
  server_counts_lem r good small i at =
      let inv = (Run-WorldInv r good small).stats_inv in
      let (id, last, parts) = inv.own i at in (omega (arith, inv.counted), id, parts)
