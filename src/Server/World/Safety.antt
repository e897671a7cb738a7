-- ===== src/Server/World/Safety.antt =====
-- What holds in every state of the whole server.
use operating_systems_wet.Base.{
  ℕ, suc, ◌+◌, ◌*◌, ◌≤◌, ◌<◌, ◌^◌, ◌≡◌, sym, subst, inl, inr, List, length, some, get_elem?, set,
  arith,
}
use operating_systems_wet.Base.Threads.{weigh, weigh-set, weigh_pos, get_elem?-set_at}
use operating_systems_wet.Log.Buffer.{ServerLog}
use operating_systems_wet.Request.Stats.{ThreadsStats}
use operating_systems_wet.Request.Stats.Length.{IsStats}
use operating_systems_wet.Server.Queue.{Timeval, Request}
use operating_systems_wet.Server.Pool.{handling, finishing}
use operating_systems_wet.Server.Worker.Tally.{Tally}
use operating_systems_wet.Server.World.{World, Act, moves, serves, job_of}
use operating_systems_wet.Server.World.Counts.{is_handling, moves_held}
use operating_systems_wet.Server.World.Round.{round-counts}
use operating_systems_wet.Server.World.Entries.{
  total_of, logged_of, AllGood, Entries, Counters, round-Entries,
}

-- A worker whose round is over.
round-Counters :
    (n k held : ℕ) (stats : List ThreadsStats) (i : ℕ) {t : ThreadsStats} (t' : ThreadsStats)
    → get_elem? stats i ≡ some t
    → Tally (suc i) (suc t.total_req) t'
    → Counters n k (suc held) stats
    → Counters n k held (set stats i t')
round-Counters n k held stats i {t} t' at tally inv = record {
  own = λ j {t = u} at'. elim (get_elem?-set_at stats i j t' at') [
    | inl (same, is_new) ↦
        let (id, last, parts) = inv.own i at in
        subst
          (λ (x : ThreadsStats).
            (x.id ≡ suc j) × (suc j ≤ n) × (x.stat_req + x.dynm_req + x.post_req ≤ x.total_req))
          (sym is_new) (omega (arith, tally.same_id, same), omega (arith, last, same), tally.parts)
    | inr old ↦ inv.own j old
  ];
  counted = omega (arith, inv.counted, weigh-set total_of stats i t' at, tally.total);
}

weaken-Entries :
    (n k k' held held' logged : ℕ) (log : ServerLog)
    → held' + k ≤ held + k'
    → Entries n k held logged log
    → Entries n k' held' logged log
weaken-Entries n k k' held held' logged log le inv = record {
  valid = inv.valid;
  quiet = inv.quiet;
  entries = inv.entries;
  whole = inv.whole;
  each = inv.each;
  few = omega (arith, inv.few);
  enough = inv.enough;
  short = inv.short;
}

weaken-Counters :
    (n k k' held held' : ℕ) (stats : List ThreadsStats)
    → held' + k ≤ held + k'
    → Counters n k held stats
    → Counters n k' held' stats
weaken-Counters n k k' held held' stats le inv = record {
  own = inv.own;
  counted = omega (arith, inv.counted);
}

abbrev pub held_of : World → ℕ
held_of w = weigh is_handling w.pool.workers

abbrev pub dispatched_of : World → ℕ
dispatched_of w = length w.pool.dispatched

pub record WorldInv (n : ℕ) (w : World) : Type 0 where
  pub log_inv : Entries n (dispatched_of w) (held_of w) (weigh logged_of w.stats) w.log
  pub stats_inv : Counters n (dispatched_of w) (held_of w) w.stats

-- While a worker holds a request, its counters are bit patterns, as few requests have been dispatched.
pub held-IsStats :
    (n : ℕ) (v : World) (i : ℕ) {r : Request} {now : Timeval} {t : ThreadsStats}
    → get_elem? v.pool.workers i ≡ some (handling r now)
    → get_elem? v.stats i ≡ some t
    → n < 2 ^ 31
    → 269 * dispatched_of v + 270 < 2 ^ 31
    → WorldInv n v
    → IsStats t × (t.total_req + 1 < 2 ^ 31)
held-IsStats n v i {t = t} at have int small inv =
    let (id, last, parts) = inv.stats_inv.own i have in
    let bound : t.total_req + 1 ≤ dispatched_of v = omega (
      arith,
      weigh_pos total_of v.stats i have,
      weigh_pos is_handling v.pool.workers i at,
      inv.stats_inv.counted,
    ) in
    (
      record {
        id = omega arith;
        stat_req = omega arith;
        dynm_req = omega arith;
        post_req = omega arith;
        total_req = omega arith;
      },
      omega arith,
    )

pub step-WorldInv :
    (n : ℕ) (v w : World) (a : Act v w)
    → AllGood (job_of a)
    → n < 2 ^ 31
    → 269 * dispatched_of v + 270 < 2 ^ 31
    → WorldInv n v
    → WorldInv n w
step-WorldInv n v w (moves {p} st h) good int small inv =
    let held = moves_held st h in
    record {
      log_inv = weaken-Entries n _ _ _ _ _ v.log (omega (arith, held)) inv.log_inv;
      stats_inv = weaken-Counters n _ _ _ _ v.stats (omega (arith, held)) inv.stats_inv;
    }
step-WorldInv n v w (serves i {r} {now} {t} {s'} job at have arr nw same done) (good, _) int small
      inv =
    let k : ℕ = dispatched_of v in
    let held : ℕ = weigh is_handling (set v.pool.workers i finishing) in
    let left : held_of v ≡ suc held =
      omega (arith, weigh-set is_handling v.pool.workers i finishing at) in
    let (id, last, parts) = inv.stats_inv.own i have in
    let (st, few) = held-IsStats n v i at have int small inv in
    let before : Entries n k (suc held) (weigh logged_of v.stats) job.log =
      subst (Entries n k (suc held) (weigh logged_of v.stats)) (sym same)
        (subst (λ m. Entries n k m (weigh logged_of v.stats) v.log) left inv.log_inv) in
    record {
      log_inv =
          round-Entries n k held (weigh logged_of v.stats)
            (weigh logged_of (set v.stats i s'.stats)) job t s' st (omega arith) (omega arith)
            before (weigh-set logged_of v.stats i s'.stats have) done good small;
      stats_inv =
          round-Counters n k held v.stats i s'.stats have
            (round-counts job t s' done (suc i) id parts (omega arith))
            (subst (λ m. Counters n k m v.stats) left inv.stats_inv);
    }
