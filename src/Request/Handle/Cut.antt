-- ===== src/Request/Handle/Cut.antt =====
-- A client that does not take the answer.
use operating_systems_wet.Base.{
  ℕ, zero, suc, ◌%◌, ◌<◌, ◌^◌, ◌≡◌, refl, subst, ap, ◌∙◌, true, false, not, ◌||◌, Bool-cases, inl,
  inr, List, Option, none, some,
}
use operating_systems_wet.Base.Int.{pos, signed32}
use operating_systems_wet.Base.Bytes.{codes, same_letters}
use operating_systems_wet.Base.Time.{Timeval}
use operating_systems_wet.Log.Whole.{get_log_lem}
use operating_systems_wet.Rio.Read.{Rio}
use operating_systems_wet.Request.Stats.{dec}
use operating_systems_wet.Request.Uri.{Target, request_parse_uri}
use operating_systems_wet.Request.Headers.{skipped, request_readhdrs, enough_lines}
use operating_systems_wet.Request.Session.{
  FileStat, Env, Session, Outcome, exits, M, continue, errs,
}
use operating_systems_wet.Request.Answer.{
  request_error, request_serve_static, request_serve_dynamic, request_serve_post, is_negative,
}
use operating_systems_wet.Request.Answer.Static.{serve_step}
use operating_systems_wet.Request.Handle.{
  Stack, count_static, count_dynamic, count_post, stats_entry, log_entry, static_served,
  dynamic_served, handle_static, handle_dynamic, handle_found, handle_get, handle_post,
  handle_method,
}
use operating_systems_wet.Request.Handle.Faults.{serve_empty}
use operating_systems_wet.Request.Handle.Served.{file_size}
use operating_systems_wet.Request.Handle.Ends.{CanHandle}

-- No write goes through, and a file that `stat` finds is smaller than 2^31 and can be opened and mapped.
pub record TakesNothing (env : Env) : Type 0 where
  pub refuses : (before text : List ℕ) → env.write_result before text ≡ errs
  pub opens :
      (f : List ℕ) (sbuf : FileStat) → env.stat f ≡ some sbuf → is_negative (env.open_fd f) ≡ false
  pub sizes : (f : List ℕ) (sbuf : FileStat) → env.stat f ≡ some sbuf → sbuf.st_size < 2 ^ 31
  pub maps :
      (f : List ℕ) (sbuf : FileStat) (k : ℕ)
      → env.stat f ≡ some sbuf
      → sbuf.st_size ≡ suc k
      → (body : List ℕ) × (env.mmap f (pos (suc k)) ≡ some body)
  pub closes : env.close_ok ≡ true

-- The program exits, with nothing sent.
abbrev pub Stops : Session → Outcome (Unit {0}) → Type 0
Stops s o = (s' : Session) × (o ≡ exits (codes "Rio_writen error") s') × (s'.sent ≡ s.sent)

Stops-bind :
    (s : Session) (o : Outcome (Unit {0})) (f : Unit {0} → M (Unit {0}))
    → Stops s o
    → Stops s (continue o f)
Stops-bind s o f (s', e, h) = (s', ap (λ r. continue r f) e, h)

module _ (env : Env) (arrival dispatch : Timeval) (cut : TakesNothing env) where
  request_error-Stops :
      (cause errnum shortmsg longmsg : List ℕ) (s : Session)
      → Stops s (request_error env arrival dispatch cause errnum shortmsg longmsg s)
  unfolding request_error
  request_error-Stops cause errnum shortmsg longmsg s =
      (s, rw (request_error, cut.refuses s.sent) refl, refl)

  serve-Stops :
      (f : List ℕ) (sbuf : FileStat) (s : Session)
      → env.stat f ≡ some sbuf
      → (n : ℕ) → sbuf.st_size ≡ n
      → Stops s (request_serve_static env arrival dispatch f (signed32 (sbuf.st_size % 2 ^ 32)) s)
  serve-Stops f sbuf s found zero size =
      let whole : signed32 (sbuf.st_size % 2 ^ 32) ≡ pos 0 = rw size in
      rw (whole, serve_empty env arrival dispatch f s (cut.opens f sbuf found) cut.closes)
        (request_error-Stops f (codes "403") (codes "Forbidden")
          (codes "OS-HW3 Server cannot map empty file")
          (record s { stats = record (s.stats) { stat_req = dec s.stats.stat_req } }))
  serve-Stops f sbuf s found (suc k) size =
      let (body, m) = cut.maps f sbuf k found size in
      let whole : signed32 (sbuf.st_size % 2 ^ 32) ≡ pos (suc k) =
        ap (λ n. signed32 (n % 2 ^ 32)) size
        ∙ file_size env arrival dispatch (suc k)
            (subst (λ n. n < 2 ^ 31) size (cut.sizes f sbuf found)) in
      (
        s,
        rw (
          whole,
          serve_step env arrival dispatch f k body s (cut.opens f sbuf found) m,
          cut.closes,
          cut.refuses s.sent,
        ),
        refl,
      )

  static_served-Stops :
      (f : List ℕ) (sbuf : FileStat) (s : Session)
      → env.stat f ≡ some sbuf
      → Stops s (static_served env arrival dispatch f sbuf s)
  unfolding static_served
  static_served-Stops f sbuf s found =
      let s₁ : Session = record s { stats = count_static s.stats } in
      Stops-bind s₁
        (request_serve_static env arrival dispatch f (signed32 (sbuf.st_size % 2 ^ 32)) s₁)
        (λ _. log_entry env arrival dispatch (stats_entry env arrival dispatch s₁.stats))
        (serve-Stops f sbuf s₁ found sbuf.st_size refl)

  dynamic_served-Stops :
      (filename cgiargs : List ℕ) (s : Session)
      → Stops s (dynamic_served env arrival dispatch filename cgiargs s)
  unfolding dynamic_served request_serve_dynamic
  dynamic_served-Stops filename cgiargs s =
      let s₁ : Session = record s { stats = count_dynamic s.stats } in
      Stops-bind s₁ (request_serve_dynamic env arrival dispatch filename cgiargs s₁)
        (λ _. log_entry env arrival dispatch (stats_entry env arrival dispatch s₁.stats))
        (s₁, rw (request_serve_dynamic, cut.refuses s₁.sent), refl)

  handle_post-Stops :
      (s : Session)
      → CanHandle env arrival dispatch s
      → Stops s (handle_post env arrival dispatch s)
  unfolding handle_post request_serve_post
  handle_post-Stops s c = (
    record s { stats = count_post s.stats },
    rw (get_log_lem s.log c.can_log.valid c.can_log.quiet c.small, cut.refuses s.sent),
    refl,
  )

  handle_found-Stops :
      (t : Target) (o : Option FileStat) (s : Session)
      → env.stat t.filename ≡ o
      → Stops s (handle_found env arrival dispatch t o s)
  unfolding handle_found handle_static handle_dynamic
  handle_found-Stops t none s found = request_error-Stops _ _ _ _ s
  handle_found-Stops t (some sbuf) s found = elim (Bool-cases t.is_static) [
    | inl e ↦ elim (Bool-cases (not sbuf.is_regular || not sbuf.may_read)) [
      | inl bad ↦ rw (e, bad) (request_error-Stops _ _ _ _ s)
      | inr good ↦ rw (e, good) (static_served-Stops t.filename sbuf s found)
    ]
    | inr e ↦ elim (Bool-cases (not sbuf.is_regular || not sbuf.may_execute)) [
      | inl bad ↦ rw (e, bad) (request_error-Stops _ _ _ _ s)
      | inr good ↦ rw (e, good) (dynamic_served-Stops t.filename t.cgiargs s)
    ]
  ]

  pub method-Stops :
      (stack : Stack) (method uri : List ℕ) (rp rp' : Rio) (s : Session)
      → CanHandle env arrival dispatch s
      → request_readhdrs (enough_lines rp) stack.header rp ≡ some (skipped rp')
      → Stops s (handle_method env arrival dispatch stack (method, uri) rp s)
  unfolding handle_method handle_get
  method-Stops stack method uri rp rp' s c skips =
      let t = request_parse_uri stack.below_uri uri stack.cgiargs in
      elim (Bool-cases (same_letters method (codes "GET"))) [
        | inl get ↦ rw (get, skips) (handle_found-Stops t (env.stat t.filename) s refl)
        | inr other ↦ elim (Bool-cases (same_letters method (codes "POST"))) [
          | inl post ↦ rw (other, post) (handle_post-Stops s c)
          | inr neither ↦ rw (other, neither) (request_error-Stops _ _ _ _ s)
        ]
      ]
