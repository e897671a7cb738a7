-- ===== src/Request/Handle/Counts.antt =====
-- How a request changes the counters of the thread that handles it.
use operating_systems_wet.Base.{
  ℕ, ◌<◌, ◌^◌, ◌≡◌, refl, ap, subst, ◌∙◌, ◌⊎◌, inl, inr, Bool, true, false, not, ◌||◌, Bool-cases,
  List, Option, none, some, arith, ◌%◌,
}
use operating_systems_wet.Base.Int.{ℤ, signed32}
use operating_systems_wet.Base.Bytes.{codes, c_string, same_letters}
use operating_systems_wet.Base.Time.{Timeval}
use operating_systems_wet.Rio.Read.{Rio, Event, rio_readinitb}
use operating_systems_wet.Rio.Line.{Line, line, end_of_file, read_error, rio_readlineb}
use operating_systems_wet.Request.Stats.Length.{dec-inc}
use operating_systems_wet.Request.Uri.{Target, request_parse_uri}
use operating_systems_wet.Request.Headers.{
  maxline, Headers, skipped, read_failed, request_readhdrs, enough_lines,
}
use operating_systems_wet.Request.Session.{FileStat, Env, Session, Outcome}
use operating_systems_wet.Request.Answer.{
  request_error, request_serve_static, request_serve_dynamic,
}
use operating_systems_wet.Request.Answer.Kept.{
  Ensures, Ensures-bind, Ensures-imp, Keeps, ServesStatic, request_error-Keeps,
  request_serve_static-ServesStatic, request_serve_dynamic-Keeps, request_serve_post-stats,
}
use operating_systems_wet.Request.Handle.{
  Stack, scan_request, count_total, count_static, count_dynamic, count_post, stats_entry, log_entry,
  static_served, dynamic_served, handle_static, handle_dynamic, handle_found, handle_get,
  handle_post, handle_method, handle_line, request_handle,
}
use operating_systems_wet.Request.Handle.Kinds.{
  Kind, neither, static, dynamic, post, is_get_kind, names_program, is_static-names_program,
  is_post_kind, is_other_kind, is_kind_of, Counts,
}

module _ (env : Env) (arrival dispatch : Timeval) where
  log_entry-stats :
      (entry : List ℕ) (s : Session)
      → Ensures (λ s'. s'.stats ≡ s.stats) (log_entry env arrival dispatch entry s)
  log_entry-stats entry s = ground arith

  static_or_not :
      (s s' : Session)
      → s.stats.stat_req < 2 ^ 32
      → ServesStatic (record s { stats = count_static s.stats }) s'
      → (s'.stats ≡ count_static s.stats) ⊎ (s'.stats ≡ s.stats)
  static_or_not s s' small v = elim v.stats [
    | inl same ↦ inl same
    | inr back ↦
        inr (back ∙ ap (λ n. record (s.stats) { stat_req = n }) (dec-inc s.stats.stat_req small))
  ]

  -- A static file is counted, or not where it is refused.
  pub static_served-stats :
      (filename : List ℕ) (sbuf : FileStat) (s : Session)
      → s.stats.stat_req < 2 ^ 32
      → Ensures
          (λ s'. (s'.stats ≡ count_static s.stats) ⊎ (s'.stats ≡ s.stats))
          (static_served env arrival dispatch filename sbuf s)
  unfolding static_served
  static_served-stats filename sbuf s small =
      let s₁ : Session = record s { stats = count_static s.stats } in
      let size : ℤ = signed32 (sbuf.st_size % 2 ^ 32) in
      let entry : List ℕ = stats_entry env arrival dispatch s₁.stats in
      Ensures-bind (ServesStatic s₁)
        (λ s'. (s'.stats ≡ count_static s.stats) ⊎ (s'.stats ≡ s.stats))
        (request_serve_static env arrival dispatch filename size s₁)
        (λ _. log_entry env arrival dispatch entry)
        (request_serve_static-ServesStatic env arrival dispatch filename size s₁)
        (λ a s₂ h.
          Ensures-imp (λ s₃. s₃.stats ≡ s₂.stats) _ _
            (λ s₃ same. elim (static_or_not s s₂ small h) [
              | inl e ↦ inl (same ∙ e)
              | inr e ↦ inr (same ∙ e)
            ])
            (log_entry-stats entry s₂))

  static_served-Counts :
      (filename : List ℕ) (sbuf : FileStat) (s : Session)
      → s.stats.stat_req < 2 ^ 32
      → Ensures (Counts (is_get_kind false) s) (static_served env arrival dispatch filename sbuf s)
  static_served-Counts filename sbuf s small =
      Ensures-imp _ (Counts (is_get_kind false) s) _
        (λ s' h. elim h [ inl e ↦ (static, refl, e) | inr e ↦ (neither, refl, e) ])
        (static_served-stats filename sbuf s small)

  pub dynamic_served-stats :
      (filename cgiargs : List ℕ) (s : Session)
      → Ensures
          (λ s'. s'.stats ≡ count_dynamic s.stats)
          (dynamic_served env arrival dispatch filename cgiargs s)
  unfolding dynamic_served
  dynamic_served-stats filename cgiargs s =
      let s₁ : Session = record s { stats = count_dynamic s.stats } in
      let entry : List ℕ = stats_entry env arrival dispatch s₁.stats in
      Ensures-bind (Keeps s₁) (λ s'. s'.stats ≡ count_dynamic s.stats)
        (request_serve_dynamic env arrival dispatch filename cgiargs s₁)
        (λ _. log_entry env arrival dispatch entry)
        (request_serve_dynamic-Keeps env arrival dispatch filename cgiargs s₁)
        (λ a s₂ h.
          Ensures-imp (λ s₃. s₃.stats ≡ s₂.stats) _ _ (λ s₃ same. same ∙ h.stats)
            (log_entry-stats entry s₂))

  dynamic_served-Counts :
      (filename cgiargs : List ℕ) (s : Session)
      → Ensures
          (Counts (is_get_kind true) s)
          (dynamic_served env arrival dispatch filename cgiargs s)
  dynamic_served-Counts filename cgiargs s =
      Ensures-imp _ (Counts (is_get_kind true) s) _ (λ s' e. (dynamic, refl, e))
        (dynamic_served-stats filename cgiargs s)

  request_error-Counts :
      (ok : Kind → Bool) (cause errnum shortmsg longmsg : List ℕ) (s : Session)
      → ok neither ≡ true
      → Ensures (Counts ok s) (request_error env arrival dispatch cause errnum shortmsg longmsg s)
  request_error-Counts ok cause errnum shortmsg longmsg s h =
      Ensures-imp (Keeps s) (Counts ok s) _ (λ s' k. (neither, h, k.stats))
        (request_error-Keeps env arrival dispatch cause errnum shortmsg longmsg s)

  handle_post-Counts :
      (s : Session) → Ensures (Counts is_post_kind s) (handle_post env arrival dispatch s)
  unfolding handle_post
  handle_post-Counts s =
      Ensures-imp (λ s'. s'.stats ≡ count_post s.stats) (Counts is_post_kind s) _
        (λ s' e. (post, refl, e))
        (request_serve_post-stats env arrival dispatch (record s { stats = count_post s.stats }))

  handle_found-Counts :
      (t : Target) (o : Option FileStat) (s : Session)
      → s.stats.stat_req < 2 ^ 32
      → Ensures (Counts (is_get_kind (not t.is_static)) s) (handle_found env arrival dispatch t o s)
  unfolding handle_found handle_static handle_dynamic
  handle_found-Counts t none s small = request_error-Counts _ _ _ _ _ s refl
  handle_found-Counts t (some sbuf) s small = elim (Bool-cases t.is_static) [
    | inl e ↦ elim (Bool-cases (not sbuf.is_regular || not sbuf.may_read)) [
      | inl bad ↦ rw (e, bad) (request_error-Counts _ _ _ _ _ s refl)
      | inr good ↦ rw (e, good) (static_served-Counts t.filename sbuf s small)
    ]
    | inr e ↦ elim (Bool-cases (not sbuf.is_regular || not sbuf.may_execute)) [
      | inl bad ↦ rw (e, bad) (request_error-Counts _ _ _ _ _ s refl)
      | inr good ↦ rw (e, good) (dynamic_served-Counts t.filename t.cgiargs s)
    ]
  ]

  handle_get-Counts :
      (stack : Stack) (uri : List ℕ) (h : Option Headers) (s : Session)
      → s.stats.stat_req < 2 ^ 32
      → Ensures
          (Counts (is_get_kind (names_program uri)) s)
          (handle_get env arrival dispatch stack uri h s)
  unfolding handle_get
  handle_get-Counts stack uri none s small = tt
  handle_get-Counts stack uri (some read_failed) s small = tt
  handle_get-Counts stack uri (some (skipped rp)) s small =
      let t : Target = request_parse_uri stack.below_uri uri stack.cgiargs in
      subst
        (λ program.
          Ensures (Counts (is_get_kind program) s)
            (handle_found env arrival dispatch t (env.stat t.filename) s))
        (is_static-names_program stack.below_uri uri stack.cgiargs)
        (handle_found-Counts t (env.stat t.filename) s small)

  widen :
      (ok : Kind → Bool) (method uri : List ℕ) (o : Outcome (Unit {0})) (s : Session)
      → ((k : Kind) → ok k ≡ true → is_kind_of method uri k ≡ true)
      → Ensures (Counts ok s) o
      → Ensures (Counts (is_kind_of method uri) s) o
  widen ok method uri o s wider h =
      Ensures-imp (Counts ok s) (Counts (is_kind_of method uri) s) o
        (λ s' (k, allowed, e). (k, wider k allowed, e)) h

  handle_method-Counts :
      (stack : Stack) (method uri : List ℕ) (rp : Rio) (s : Session)
      → s.stats.stat_req < 2 ^ 32
      → Ensures
          (Counts (is_kind_of method uri) s)
          (handle_method env arrival dispatch stack (method, uri) rp s)
  unfolding handle_method
  handle_method-Counts stack method uri rp s small =
      elim (Bool-cases (same_letters method (codes "GET"))) [
        | inl e ↦ rw e (
            widen (is_get_kind (names_program uri)) method uri _ s (λ k h. rw e h)
              (handle_get-Counts stack uri (request_readhdrs (enough_lines rp) stack.header rp) s
                small))
        | inr e ↦ elim (Bool-cases (same_letters method (codes "POST"))) [
          | inl p ↦
              rw (e, p)
                (widen is_post_kind method uri _ s (λ k h. rw (e, p) h) (handle_post-Counts s))
          | inr p ↦
              rw (e, p)
                (widen is_other_kind method uri _ s (λ k h. rw (e, p) h)
                  (request_error-Counts is_other_kind _ _ _ _ s refl))
        ]
      ]

  -- What holds of the session by what the first read of the request gave.
  abbrev pub Handled : Stack → Line → Session → Session → Type 0
  Handled stack end_of_file s s' = s' ≡ s
  Handled stack read_error s s' = ⊥
  Handled stack (line text n) s s' =
      Counts
        (is_kind_of (scan_request stack (c_string text)).0 (scan_request stack (c_string text)).1)
        (record s { stats = count_total s.stats }) s'

  handle_line-Handled :
      (stack : Stack) (l : Line) (rp : Rio) (s : Session)
      → s.stats.stat_req < 2 ^ 32
      → Ensures (Handled stack l s) (handle_line env arrival dispatch stack (l, rp) s)
  unfolding handle_line
  handle_line-Handled stack end_of_file rp s small = refl
  handle_line-Handled stack read_error rp s small = tt
  handle_line-Handled stack (line text n) rp s small =
      let (method, uri) = scan_request stack (c_string text) in
      handle_method-Counts stack method uri rp (record s { stats = count_total s.stats }) small

  -- Every request that the handler returns from is counted once in the thread's total, and besides
  -- at most once: a GET as dynamic or not where its name stands for a program, as static or not
  -- where it does not, a POST always as a POST, another method
  -- nowhere. A connection that closes before its first line changes nothing.
  pub request_handle-Handled :
      (stack : Stack) (fd : List Event) (s : Session)
      → s.stats.stat_req < 2 ^ 32
      → Ensures
          (Handled stack (rio_readlineb (rio_readinitb fd) maxline).0 s)
          (request_handle env arrival dispatch stack fd s)
  unfolding request_handle
  request_handle-Handled stack fd s small =
      let (l, rp) = rio_readlineb (rio_readinitb fd) maxline in
      handle_line-Handled stack l rp s small
