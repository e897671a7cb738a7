-- ===== src/Request/Handle/Faults.antt =====
-- Requests for static files that go wrong after they were counted.
use operating_systems_wet.Base.{
  ℕ, ◌≤◌, ◌<◌, ◌^◌, ◌%◌, ◌≡◌, refl, ap, ◌∙◌, true, false, List, ◌++◌, arith, length,
}
use operating_systems_wet.Base.Int.{pos, signed32}
use operating_systems_wet.Base.Bytes.{codes}
use operating_systems_wet.Base.Time.{Timeval}
use operating_systems_wet.Log.Buffer.Bounds.{content, IsValid}
use operating_systems_wet.Log.Whole.{IsQuiet, add_to_log_total}
use operating_systems_wet.Request.Stats.{inc, dec}
use operating_systems_wet.Request.Stats.Length.{IsStats, IsTime, dec-inc}
use operating_systems_wet.Request.Session.{FileStat, Env, Session, Outcome, returns, exits}
use operating_systems_wet.Request.Answer.{request_error, request_serve_static, is_negative}
use operating_systems_wet.Request.Answer.Response.{
  AlwaysWrites, answered, error_response, request_error_lem,
}
use operating_systems_wet.Request.Handle.{count_static, stats_entry, static_served}
use operating_systems_wet.Request.Handle.Logged.{CanLog, entry_short, take-length}

module _ (env : Env) (arrival dispatch : Timeval) where
  -- A file that `stat` reports as readable, and `open` refuses, ends the whole server: the wrapper
  -- `Open` exits, and the 403 that the code has for this case is never sent.
  pub open_refused :
      (filename : List ℕ) (sbuf : FileStat) (s : Session)
      → is_negative (env.open_fd filename) ≡ true
      → static_served env arrival dispatch filename sbuf s
        ≡ exits (codes "Open error") (record s { stats = count_static s.stats })
  unfolding static_served request_serve_static
  open_refused filename sbuf s h = rw (static_served, h)

  empty_answer : List ℕ → Session → Outcome (Unit {0})
  empty_answer filename s =
      answered s
        (s.sent
          ++ error_response env arrival dispatch s.stats filename (codes "403") (codes "Forbidden")
              (codes "OS-HW3 Server cannot map empty file"))
        (s.printed
          ++ error_response env arrival dispatch s.stats filename (codes "403") (codes "Forbidden")
              (codes "OS-HW3 Server cannot map empty file"))

  pub serve_empty :
      (filename : List ℕ) (s : Session)
      → is_negative (env.open_fd filename) ≡ false
      → env.close_ok ≡ true
      → request_serve_static env arrival dispatch filename (pos 0) s
        ≡ request_error env arrival dispatch filename
            (codes "403")
            (codes "Forbidden")
            (codes "OS-HW3 Server cannot map empty file")
            (record s { stats = record (s.stats) { stat_req = dec s.stats.stat_req } })
  unfolding request_serve_static
  serve_empty filename s opens closes = ground arith

  back :
      (s : Session)
      → s.stats.stat_req < 2 ^ 32
      → record s { stats = record (s.stats) { stat_req = dec (inc s.stats.stat_req) } } ≡ s
  back s h =
      ap (λ n. record s { stats = record (s.stats) { stat_req = n } }) (dec-inc s.stats.stat_req h)

  serve_empty_answer :
      (filename : List ℕ) (s : Session)
      → is_negative (env.open_fd filename) ≡ false
      → env.close_ok ≡ true
      → AlwaysWrites env
      → s.stats.stat_req < 2 ^ 32
      → request_serve_static env arrival dispatch filename
          (pos 0)
          (record s { stats = count_static s.stats })
        ≡ empty_answer filename s
  unfolding empty_answer
  serve_empty_answer filename s opens closes w small =
      serve_empty filename (record s { stats = count_static s.stats }) opens closes
      ∙ ap
          (request_error env arrival dispatch filename (codes "403") (codes "Forbidden")
            (codes "OS-HW3 Server cannot map empty file"))
          (back s small)
      ∙ request_error_lem env arrival dispatch filename (codes "403") (codes "Forbidden")
          (codes "OS-HW3 Server cannot map empty file") s w

  -- A static file of 0 bytes that can be opened and closed, on a connection that takes every write,
  -- with a log that can take an entry, is answered with a 403 and leaves the counters as they were,
  -- but the log gets an entry in which it is counted.
  pub empty_file_logged :
      (filename : List ℕ) (sbuf : FileStat) (s : Session)
      → sbuf.st_size ≡ 0
      → is_negative (env.open_fd filename) ≡ false
      → env.close_ok ≡ true
      → AlwaysWrites env
      → IsStats s.stats
      → IsTime arrival
      → IsTime dispatch
      → CanLog env s.log
      → (s' : Session) × (static_served env arrival dispatch filename sbuf s ≡ returns tt s')
        × (s'.stats ≡ s.stats)
        × (s'.sent
            ≡ s.sent
              ++ error_response env arrival dispatch s.stats filename
                  (codes "403")
                  (codes "Forbidden")
                  (codes "OS-HW3 Server cannot map empty file"))
        × (content s'.log
            ≡ content s.log ++ stats_entry env arrival dispatch (count_static s.stats))
        × IsValid s'.log
        × IsQuiet s'.log
  unfolding static_served empty_answer
  empty_file_logged filename sbuf s zero_size opens closes w st a d c =
      let entry : List ℕ = stats_entry env arrival dispatch (count_static s.stats) in
      let short : length entry ≤ 269 =
        entry_short env arrival dispatch (count_static s.stats) (omega (arith, st)) a d in
      let (log', e, v, q, text) =
        add_to_log_total env.malloc s.log entry (length entry) c.exact c.valid c.quiet (omega arith)
          (omega (arith, c.room)) in
      let size : signed32 (sbuf.st_size % 2 ^ 32) ≡ pos 0 = rw zero_size in
      let answer =
        error_response env arrival dispatch s.stats filename (codes "403") (codes "Forbidden")
          (codes "OS-HW3 Server cannot map empty file") in
      (
        record s { sent = s.sent ++ answer; printed = s.printed ++ answer; log = log' },
        rw (static_served, size, serve_empty_answer filename s opens closes w st.stat_req, e),
        refl,
        refl,
        text ∙ ap (λ l. content s.log ++ l) (take-length entry),
        v,
        q,
      )
