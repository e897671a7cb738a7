-- ===== src/Request/Handle/Ends.antt =====
-- The handler comes to an end.
use operating_systems_wet.Base.{◌<◌, ◌^◌, arith}
use operating_systems_wet.Base.Time.{Timeval}
use operating_systems_wet.Request.Stats.Length.{IsStats, IsTime}
use operating_systems_wet.Rio.Read.{Rio}
use operating_systems_wet.Rio.Line.{Line}
use operating_systems_wet.Request.Headers.{Headers}
use operating_systems_wet.Request.Session.{Env, Session}
use operating_systems_wet.Request.Answer.Ends.{Ends}
use operating_systems_wet.Request.Handle.{count_total}
use operating_systems_wet.Request.Handle.Logged.{CanLog}

module _ (env : Env) (arrival dispatch : Timeval) where
  -- What the handler needs: a log that can take an entry and is shorter than 2^31, counters that are
  -- bit patterns, and times in normal form.
  pub record CanHandle (s : Session) : Type 0 where
    pub can_log : CanLog env s.log
    pub small : s.log.size < 2 ^ 31
    pub counters : IsStats s.stats
    pub arrival_time : IsTime arrival
    pub dispatch_time : IsTime dispatch

  -- Counting the request in the total keeps it so.
  pub count_total-CanHandle :
      (s : Session) → CanHandle s → CanHandle (record s { stats = count_total s.stats })
  count_total-CanHandle s c = record {
    can_log = c.can_log;
    small = c.small;
    counters = omega (arith, c.counters);
    arrival_time = c.arrival_time;
    dispatch_time = c.dispatch_time;
  }
