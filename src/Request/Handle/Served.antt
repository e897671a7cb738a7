-- ===== src/Request/Handle/Served.antt =====
-- A file or a program that can be served, from the count to the log.
use operating_systems_wet.Base.{
  ℕ, suc, ◌≤◌, ◌<◌, ◌^◌, ◌%◌, ◌≡◌, refl, ap, ◌∙◌, true, false, List, ◌++◌, some, arith, length,
  take,
}
use operating_systems_wet.Base.Int.{pos, signed32}
use operating_systems_wet.Base.Time.{Timeval}
use operating_systems_wet.Log.Buffer.Bounds.{content, IsValid}
use operating_systems_wet.Log.Whole.{IsQuiet, add_to_log_total}
use operating_systems_wet.Request.Stats.Length.{IsStats, IsTime}
use operating_systems_wet.Request.Session.{FileStat, Env, Session, returns, completes}
use operating_systems_wet.Request.Answer.{is_negative}
use operating_systems_wet.Request.Answer.Response.{AlwaysWrites}
use operating_systems_wet.Request.Answer.Static.{static_response, request_serve_static_lem}
use operating_systems_wet.Request.Handle.{
  count_static, count_dynamic, stats_entry, static_served, dynamic_served,
}
use operating_systems_wet.Request.Answer.Dynamic.{dynamic_response, request_serve_dynamic_lem}
use operating_systems_wet.Request.Handle.Logged.{CanLog, entry_short, take-length}

module _ (env : Env) (arrival dispatch : Timeval) where
  pub file_size : (n : ℕ) → n < 2 ^ 31 → signed32 (n % 2 ^ 32) ≡ pos n
  file_size n h = ground arith

  -- A readable file of at least one byte and fewer than 2^31, which can be opened, mapped, closed
  -- and unmapped, on a connection that takes every write, with a log that can take an entry, is
  -- counted as a static request, sent behind a header with its length and the statistics with the
  -- request counted, and logged with these statistics; the log stays valid and unused.
  pub static_served_total :
      (filename : List ℕ) (sbuf : FileStat) (k : ℕ) (body : List ℕ) (s : Session)
      → sbuf.st_size ≡ suc k
      → suc k < 2 ^ 31
      → is_negative (env.open_fd filename) ≡ false
      → env.mmap filename (pos (suc k)) ≡ some body
      → env.close_ok ≡ true
      → env.munmap_ok ≡ true
      → AlwaysWrites env
      → IsStats s.stats
      → IsTime arrival
      → IsTime dispatch
      → CanLog env s.log
      → (s' : Session) × (static_served env arrival dispatch filename sbuf s ≡ returns tt s')
        × (s'.stats ≡ count_static s.stats)
        × (s'.sent
            ≡ s.sent
              ++ static_response env arrival dispatch
                  (count_static s.stats)
                  filename
                  (suc k)
                  (take (suc k) body))
        × (content s'.log
            ≡ content s.log ++ stats_entry env arrival dispatch (count_static s.stats))
        × IsValid s'.log
        × IsQuiet s'.log
  unfolding static_served
  static_served_total filename sbuf k body s size small opens maps closes unmaps w st a d c =
      let s₁ : Session = record s { stats = count_static s.stats } in
      let entry : List ℕ = stats_entry env arrival dispatch s₁.stats in
      let short : length entry ≤ 269 =
        entry_short env arrival dispatch (count_static s.stats) (omega (arith, st)) a d in
      let (log', e, v, q, text) =
        add_to_log_total env.malloc s.log entry (length entry) c.exact c.valid c.quiet (omega arith)
          (omega (arith, c.room)) in
      let answer =
        static_response env arrival dispatch s₁.stats filename (suc k) (take (suc k) body) in
      (
        record s₁ { sent = s.sent ++ answer; log = log' },
        rw (
          static_served,
          size,
          file_size (suc k) small,
          request_serve_static_lem env arrival dispatch filename k body s₁ w opens maps closes
              unmaps,
          e,
        ),
        refl,
        refl,
        text ∙ ap (λ l. content s.log ++ l) (take-length entry),
        v,
        q,
      )

  -- A program that can be forked and waited for, on a connection that takes every write, with a log that
  -- can take an entry, is counted as a dynamic request, its output is sent behind a header with the
  -- statistics with the request counted, and these are logged; the log stays valid and unused.
  pub dynamic_served_total :
      (filename cgiargs : List ℕ) (s : Session)
      → AlwaysWrites env
      → env.fork_ok ≡ true
      → env.wait_result ≡ completes
      → IsStats s.stats
      → IsTime arrival
      → IsTime dispatch
      → CanLog env s.log
      → (s' : Session) × (dynamic_served env arrival dispatch filename cgiargs s ≡ returns tt s')
        × (s'.stats ≡ count_dynamic s.stats)
        × (s'.sent
            ≡ s.sent
              ++ dynamic_response env arrival dispatch
                  (count_dynamic s.stats)
                  (env.run_cgi filename cgiargs))
        × (content s'.log
            ≡ content s.log ++ stats_entry env arrival dispatch (count_dynamic s.stats))
        × IsValid s'.log
        × IsQuiet s'.log
  unfolding dynamic_served
  dynamic_served_total filename cgiargs s w forks waits st a d c =
      let s₁ : Session = record s { stats = count_dynamic s.stats } in
      let entry : List ℕ = stats_entry env arrival dispatch s₁.stats in
      let short : length entry ≤ 269 =
        entry_short env arrival dispatch (count_dynamic s.stats) (omega (arith, st)) a d in
      let (log', e, v, q, text) =
        add_to_log_total env.malloc s.log entry (length entry) c.exact c.valid c.quiet (omega arith)
          (omega (arith, c.room)) in
      let answer = dynamic_response env arrival dispatch s₁.stats (env.run_cgi filename cgiargs) in
      (
        record s₁ { sent = s.sent ++ answer; log = log' },
        rw (
          dynamic_served,
          request_serve_dynamic_lem env arrival dispatch filename cgiargs s₁ w forks waits,
          e,
        ),
        refl,
        refl,
        text ∙ ap (λ l. content s.log ++ l) (take-length entry),
        v,
        q,
      )
