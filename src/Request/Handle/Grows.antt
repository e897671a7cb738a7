-- ===== src/Request/Handle/Grows.antt =====
-- The log across a request, whatever the operating system does.
use operating_systems_wet.Base.{
  ℕ, ◌≡◌, refl, sym, subst, ap, inl, inr, ◌⊎◌, not, ◌||◌, Bool-cases, List, ◌++◌, Option, none,
  some,
}
use operating_systems_wet.Base.Bytes.{codes, c_string, same_letters}
use operating_systems_wet.Base.Time.{Timeval}
use operating_systems_wet.Log.Buffer.Bounds.{content, IsValid}
use operating_systems_wet.Log.Whole.{IsQuiet, get_log_lem}
use operating_systems_wet.Rio.Read.{Rio, Event, rio_readinitb}
use operating_systems_wet.Rio.Line.{Line, line, end_of_file, read_error, rio_readlineb}
use operating_systems_wet.Request.Uri.{Target, request_parse_uri}
use operating_systems_wet.Request.Headers.{
  maxline, Headers, skipped, read_failed, request_readhdrs, enough_lines,
}
use operating_systems_wet.Request.Session.{FileStat, Env, Session, ◌>>◌, rio_writen, write_bytes}
use operating_systems_wet.Base.Int.{ℤ, pos}
use operating_systems_wet.Request.Answer.{request_error, request_serve_post}
use operating_systems_wet.Request.Answer.Kept.{
  Ensures, Ensures-both, Ensures-bind, Ensures-imp, Keeps, Keeps-trans, rio_writen-Keeps,
  write_bytes-Keeps, request_error-Keeps,
}
use operating_systems_wet.Request.Handle.{
  Stack, scan_request, count_total, count_static, count_dynamic, count_post, stats_entry,
  static_served, dynamic_served, handle_static, handle_dynamic, handle_found, handle_get,
  handle_post, handle_method, handle_line, request_handle,
}
use operating_systems_wet.Request.Handle.Counts.{static_served-stats, dynamic_served-stats}
use operating_systems_wet.Request.Handle.Logged.{Logs, static_served-Logs, dynamic_served-Logs}
use operating_systems_wet.Request.Handle.Ends.{CanHandle, count_total-CanHandle}

module _ (env : Env) (arrival dispatch : Timeval) where
  -- The log is valid and unused, and its text is the old one, or the old one and the statistics of the
  -- thread with this request counted as static or dynamic; and what is counted fits to that.
  abbrev pub Grows : Session → Session → Type 0
  Grows s s' =
      IsValid s'.log
      × IsQuiet s'.log
      × (((content s'.log ≡ content s.log)
            × ((s'.stats ≡ s.stats) ⊎ (s'.stats ≡ count_post s.stats)))
          ⊎ ((content s'.log
                ≡ content s.log ++ stats_entry env arrival dispatch (count_static s.stats))
              × ((s'.stats ≡ count_static s.stats) ⊎ (s'.stats ≡ s.stats)))
          ⊎ ((content s'.log
                ≡ content s.log ++ stats_entry env arrival dispatch (count_dynamic s.stats))
              × (s'.stats ≡ count_dynamic s.stats)))

  Keeps-Grows :
      (s s' : Session)
      → CanHandle env arrival dispatch s
      → s'.log ≡ s.log
      → (s'.stats ≡ s.stats) ⊎ (s'.stats ≡ count_post s.stats)
      → Grows s s'
  Keeps-Grows s s' c e stats = (
    subst IsValid (sym e) c.can_log.valid,
    subst IsQuiet (sym e) c.can_log.quiet,
    inl (ap content e, stats),
  )

  request_error-Grows :
      (cause errnum shortmsg longmsg : List ℕ) (s : Session)
      → CanHandle env arrival dispatch s
      → Ensures (Grows s) (request_error env arrival dispatch cause errnum shortmsg longmsg s)
  request_error-Grows cause errnum shortmsg longmsg s c =
      Ensures-imp (Keeps s) (Grows s) _ (λ s' k. Keeps-Grows s s' c k.log (inl k.stats))
        (request_error-Keeps env arrival dispatch cause errnum shortmsg longmsg s)

  static_served-Grows :
      (filename : List ℕ) (sbuf : FileStat) (s : Session)
      → CanHandle env arrival dispatch s
      → Ensures (Grows s) (static_served env arrival dispatch filename sbuf s)
  static_served-Grows filename sbuf s c =
      Ensures-imp _ (Grows s) _ (λ s' ((v, q, e), k). (v, q, inr (inl (e, k))))
        (Ensures-both (Logs s.log (stats_entry env arrival dispatch (count_static s.stats))) _ _
          (static_served-Logs env arrival dispatch filename sbuf s c.can_log c.counters
            c.arrival_time c.dispatch_time)
          (static_served-stats env arrival dispatch filename sbuf s c.counters.stat_req))

  dynamic_served-Grows :
      (filename cgiargs : List ℕ) (s : Session)
      → CanHandle env arrival dispatch s
      → Ensures (Grows s) (dynamic_served env arrival dispatch filename cgiargs s)
  dynamic_served-Grows filename cgiargs s c =
      Ensures-imp _ (Grows s) _ (λ s' ((v, q, e), k). (v, q, inr (inr (e, k))))
        (Ensures-both (Logs s.log (stats_entry env arrival dispatch (count_dynamic s.stats))) _ _
          (dynamic_served-Logs env arrival dispatch filename cgiargs s c.can_log c.counters
            c.arrival_time c.dispatch_time)
          (dynamic_served-stats env arrival dispatch filename cgiargs s))

  two_writes :
      (a b : List ℕ) (n : ℤ) (s : Session)
      → Ensures (Keeps s) ((rio_writen env a >> write_bytes env b n) s)
  two_writes a b n s =
      Ensures-bind (Keeps s) (Keeps s) (rio_writen env a s) (λ _. write_bytes env b n)
        (rio_writen-Keeps env a s)
        (λ _ s₁ k.
          Ensures-imp (Keeps s₁) (Keeps s) (write_bytes env b n s₁)
            (λ s₂ k'. Keeps-trans s s₁ s₂ k k') (write_bytes-Keeps env b n s₁))

  handle_post-Grows :
      (s : Session)
      → CanHandle env arrival dispatch s
      → Ensures (Grows s) (handle_post env arrival dispatch s)
  unfolding handle_post request_serve_post
  handle_post-Grows s c = rw (get_log_lem s.log c.can_log.valid c.can_log.quiet c.small) (
      Ensures-imp (Keeps (record s { stats = count_post s.stats })) (Grows s) _
        (λ s' k. Keeps-Grows s s' c k.log (inr k.stats)) (two_writes _ _ (pos s.log.size) _))

  handle_found-Grows :
      (t : Target) (o : Option FileStat) (s : Session)
      → CanHandle env arrival dispatch s
      → Ensures (Grows s) (handle_found env arrival dispatch t o s)
  unfolding handle_found handle_static handle_dynamic
  handle_found-Grows t none s c = request_error-Grows _ _ _ _ s c
  handle_found-Grows t (some sbuf) s c = elim (Bool-cases t.is_static) [
    | inl e ↦ elim (Bool-cases (not sbuf.is_regular || not sbuf.may_read)) [
      | inl bad ↦ rw (e, bad) (request_error-Grows _ _ _ _ s c)
      | inr good ↦ rw (e, good) (static_served-Grows t.filename sbuf s c)
    ]
    | inr e ↦ elim (Bool-cases (not sbuf.is_regular || not sbuf.may_execute)) [
      | inl bad ↦ rw (e, bad) (request_error-Grows _ _ _ _ s c)
      | inr good ↦ rw (e, good) (dynamic_served-Grows t.filename t.cgiargs s c)
    ]
  ]

  handle_get-Grows :
      (stack : Stack) (uri : List ℕ) (h : Option Headers) (s : Session)
      → CanHandle env arrival dispatch s
      → Ensures (Grows s) (handle_get env arrival dispatch stack uri h s)
  unfolding handle_get
  handle_get-Grows stack uri none s c = tt
  handle_get-Grows stack uri (some read_failed) s c = tt
  handle_get-Grows stack uri (some (skipped rp)) s c =
      let t : Target = request_parse_uri stack.below_uri uri stack.cgiargs in
      handle_found-Grows t (env.stat t.filename) s c

  handle_method-Grows :
      (stack : Stack) (method uri : List ℕ) (rp : Rio) (s : Session)
      → CanHandle env arrival dispatch s
      → Ensures (Grows s) (handle_method env arrival dispatch stack (method, uri) rp s)
  unfolding handle_method
  handle_method-Grows stack method uri rp s c =
      elim (Bool-cases (same_letters method (codes "GET"))) [
        | inl e ↦
            rw e
              (handle_get-Grows stack uri (request_readhdrs (enough_lines rp) stack.header rp) s c)
        | inr e ↦ elim (Bool-cases (same_letters method (codes "POST"))) [
          | inl p ↦ rw (e, p) (handle_post-Grows s c)
          | inr p ↦ rw (e, p) (request_error-Grows _ _ _ _ s c)
        ]
      ]

  -- The session with the request counted in the total.
  abbrev pub with_total : Session → Session
  with_total s = record s { stats = count_total s.stats }

  -- Nothing has happened, where the client has sent nothing; or the request has been counted.
  abbrev pub Grown : Session → Session → Type 0
  Grown s s' = (s' ≡ s) ⊎ Grows (with_total s) s'

  handle_line-Grown :
      (stack : Stack) (l : Line) (rp : Rio) (s : Session)
      → CanHandle env arrival dispatch s
      → Ensures (Grown s) (handle_line env arrival dispatch stack (l, rp) s)
  unfolding handle_line
  handle_line-Grown stack end_of_file rp s c = inl refl
  handle_line-Grown stack read_error rp s c = tt
  handle_line-Grown stack (line text n) rp s c =
      let (method, uri) = scan_request stack (c_string text) in
      Ensures-imp (Grows (with_total s)) (Grown s) _ (λ s' g. inr g)
        (handle_method-Grows stack method uri rp (with_total s)
          (count_total-CanHandle env arrival dispatch s c))

  -- Whatever the client sends and whatever fails, where `requestHandle` returns on a valid, unused log
  -- with room for an entry, it has changed nothing, or it has counted the request in the total, the log is
  -- valid and unused again, and one of these holds: the log is unchanged, and nothing else or a POST is
  -- counted; the log has grown by one whole entry, the statistics with a static request counted, which then
  -- is counted or has been taken back; or the same of a dynamic request, which is counted.
  pub request_handle-Grown :
      (stack : Stack) (fd : List Event) (s : Session)
      → CanHandle env arrival dispatch s
      → Ensures (Grown s) (request_handle env arrival dispatch stack fd s)
  unfolding request_handle
  request_handle-Grown stack fd s c =
      let (l, rp) = rio_readlineb (rio_readinitb fd) maxline in handle_line-Grown stack l rp s c
