-- ===== src/Request/Handle/Reacts.antt =====
-- `requestHandle` does what `Reaction` promises, where the operating system does what it is asked.
use operating_systems_wet.Base.{
  ℕ, zero, suc, ◌<◌, ◌^◌, ◌≡◌, refl, sym, subst, Bool, true, false, Bool-cases, inl, inr, List,
  ◌++◌, append-nil, Option, none, some,
}
use operating_systems_wet.Base.Int.{pos}
use operating_systems_wet.Base.Bytes.{codes, same_letters}
use operating_systems_wet.Base.Time.{Timeval}
use operating_systems_wet.Log.Buffer.Bounds.{content, IsValid}
use operating_systems_wet.Log.Whole.{IsQuiet}
use operating_systems_wet.Rio.Read.{Rio}
use operating_systems_wet.Request.Uri.{Target, request_parse_uri}
use operating_systems_wet.Request.Headers.{skipped, request_readhdrs, enough_lines}
use operating_systems_wet.Request.Session.{FileStat, Env, Session, Outcome, returns, completes}
use operating_systems_wet.Request.Answer.{request_error, is_negative}
use operating_systems_wet.Request.Answer.Response.{
  AlwaysWrites, log_response, error_response, request_error_lem, request_serve_post_lem,
}
use operating_systems_wet.Request.Handle.{
  Stack, count_post, static_served, handle_static, handle_dynamic, handle_found, handle_get,
  handle_post, handle_method,
}
use operating_systems_wet.Request.Handle.Faults.{empty_file_logged}
use operating_systems_wet.Request.Handle.Served.{static_served_total, dynamic_served_total}
use operating_systems_wet.Request.Handle.Ends.{CanHandle}
use operating_systems_wet.Request.Handle.Reaction.{
  Reaction, refusal, on_file, on_get, on_post, reaction,
}

-- Every write goes through, and a file that `stat` finds is smaller than 2^31 and can be opened and
-- mapped; programs can be run.
pub record IsBenign (env : Env) : Type 0 where
  pub writes : AlwaysWrites env
  pub opens :
      (f : List ℕ) (sbuf : FileStat) → env.stat f ≡ some sbuf → is_negative (env.open_fd f) ≡ false
  pub sizes : (f : List ℕ) (sbuf : FileStat) → env.stat f ≡ some sbuf → sbuf.st_size < 2 ^ 31
  pub maps :
      (f : List ℕ) (sbuf : FileStat) (k : ℕ)
      → env.stat f ≡ some sbuf
      → sbuf.st_size ≡ suc k
      → (body : List ℕ) × (env.mmap f (pos (suc k)) ≡ some body)
  pub closes : env.close_ok ≡ true
  pub unmaps : env.munmap_ok ≡ true
  pub forks : env.fork_ok ≡ true
  pub waits : env.wait_result ≡ completes

-- The call returns, and the session has changed as the reaction says; the log stays valid and unused.
abbrev pub Fulfils : Session → Reaction → Outcome (Unit {0}) → Type 0
Fulfils s r o =
    (s' : Session) × (o ≡ returns tt s')
    × (s'.stats ≡ r.counters)
    × (s'.sent ≡ s.sent ++ r.answer)
    × (content s'.log ≡ content s.log ++ r.entry)
    × IsValid s'.log
    × IsQuiet s'.log

module _ (env : Env) (arrival dispatch : Timeval) (benign : IsBenign env) where
  refusal-Fulfils :
      (cause errnum shortmsg longmsg : List ℕ) (s : Session)
      → CanHandle env arrival dispatch s
      → Fulfils s
          (refusal env arrival dispatch s.stats cause errnum shortmsg longmsg)
          (request_error env arrival dispatch cause errnum shortmsg longmsg s)
  refusal-Fulfils cause errnum shortmsg longmsg s c =
      let r = error_response env arrival dispatch s.stats cause errnum shortmsg longmsg in
      (
        record s { sent = s.sent ++ r; printed = s.printed ++ r },
        request_error_lem env arrival dispatch cause errnum shortmsg longmsg s benign.writes,
        refl,
        refl,
        sym (append-nil (content s.log)),
        c.can_log.valid,
        c.can_log.quiet,
      )

  static-Fulfils :
      (f : List ℕ) (sbuf : FileStat) (s : Session)
      → CanHandle env arrival dispatch s
      → env.stat f ≡ some sbuf
      → (n : ℕ) → sbuf.st_size ≡ n
      → Fulfils s
          (on_file env arrival dispatch s.stats f n)
          (static_served env arrival dispatch f sbuf s)
  static-Fulfils f sbuf s c found zero size =
      empty_file_logged env arrival dispatch f sbuf s size (benign.opens f sbuf found) benign.closes
        benign.writes c.counters c.arrival_time c.dispatch_time c.can_log
  static-Fulfils f sbuf s c found (suc k) size =
      let (body, e) = benign.maps f sbuf k found size in
      rw e (
        static_served_total env arrival dispatch f sbuf k body s size
          (subst (λ n. n < 2 ^ 31) size (benign.sizes f sbuf found)) (benign.opens f sbuf found) e
          benign.closes benign.unmaps benign.writes c.counters c.arrival_time c.dispatch_time
          c.can_log)

  found-Fulfils :
      (t : Target) (found : Option FileStat) (s : Session)
      → CanHandle env arrival dispatch s
      → env.stat t.filename ≡ found
      → Fulfils s
          (on_get env arrival dispatch s.stats t found)
          (handle_found env arrival dispatch t found s)
  unfolding handle_found handle_static handle_dynamic
  found-Fulfils t none s c e =
      refusal-Fulfils t.filename (codes "404") (codes "Not found")
        (codes "OS-HW3 Server could not find this file") s c
  found-Fulfils t (some sbuf) s c e =
      by_cases t.is_static sbuf.is_regular sbuf.may_read sbuf.may_execute refl refl refl refl
    where
      by_cases :
          (static regular readable runs : Bool)
          → t.is_static ≡ static
          → sbuf.is_regular ≡ regular
          → sbuf.may_read ≡ readable
          → sbuf.may_execute ≡ runs
          → Fulfils s
              (on_get env arrival dispatch s.stats t (some sbuf))
              (handle_found env arrival dispatch t (some sbuf) s)
      by_cases true true true x a b d g =
          simp (a, b, d) (static-Fulfils t.filename sbuf s c e sbuf.st_size refl)
      by_cases true true false x a b d g =
          simp (a, b, d)
            (refusal-Fulfils t.filename (codes "403") (codes "Forbidden")
              (codes "OS-HW3 Server could not read this file") s c)
      by_cases true false y x a b d g =
          simp (a, b)
            (refusal-Fulfils t.filename (codes "403") (codes "Forbidden")
              (codes "OS-HW3 Server could not read this file") s c)
      by_cases false true y true a b d g =
          simp (a, b, g)
            (dynamic_served_total env arrival dispatch t.filename t.cgiargs s benign.writes
              benign.forks benign.waits c.counters c.arrival_time c.dispatch_time c.can_log)
      by_cases false true y false a b d g =
          simp (a, b, g)
            (refusal-Fulfils t.filename (codes "403") (codes "Forbidden")
              (codes "OS-HW3 Server could not run this CGI program") s c)
      by_cases false false y x a b d g =
          simp (a, b)
            (refusal-Fulfils t.filename (codes "403") (codes "Forbidden")
              (codes "OS-HW3 Server could not run this CGI program") s c)

  post-Fulfils :
      (s : Session)
      → CanHandle env arrival dispatch s
      → Fulfils s (on_post env arrival dispatch s.stats s.log) (handle_post env arrival dispatch s)
  unfolding handle_post
  post-Fulfils s c =
      let s₁ : Session = record s { stats = count_post s.stats } in
      let answer = log_response env arrival dispatch s₁.stats s.log in
      (
        record s₁ { sent = s.sent ++ answer },
        request_serve_post_lem env arrival dispatch s₁ benign.writes c.can_log.valid c.can_log.quiet
            c.small,
        refl,
        refl,
        sym (append-nil (content s.log)),
        c.can_log.valid,
        c.can_log.quiet,
      )

  pub method-Fulfils :
      (stack : Stack) (method uri : List ℕ) (rp rp' : Rio) (s : Session)
      → CanHandle env arrival dispatch s
      → request_readhdrs (enough_lines rp) stack.header rp ≡ some (skipped rp')
      → Fulfils s
          (reaction env arrival dispatch s.stats s.log method
            (request_parse_uri stack.below_uri uri stack.cgiargs))
          (handle_method env arrival dispatch stack (method, uri) rp s)
  unfolding handle_method handle_get
  method-Fulfils stack method uri rp rp' s c skips =
      let t = request_parse_uri stack.below_uri uri stack.cgiargs in
      elim (Bool-cases (same_letters method (codes "GET"))) [
        | inl get ↦ rw (get, skips) (found-Fulfils t (env.stat t.filename) s c refl)
        | inr other ↦ elim (Bool-cases (same_letters method (codes "POST"))) [
          | inl post ↦ rw (other, post) (post-Fulfils s c)
          | inr neither ↦
              rw (other, neither)
                (refusal-Fulfils method (codes "501") (codes "Not Implemented")
                  (codes "OS-HW3 Server does not implement this method") s c)
        ]
      ]
