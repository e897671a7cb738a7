-- ===== src/Request/Handle/Logged.antt =====
-- What a request adds to the log.
use operating_systems_wet.Base.{
  ℕ, ◌+◌, ◌≤◌, ◌^◌, ◌%◌, ◌≡◌, refl, sym, subst, ap, ◌∙◌, List, [], ◌∷◌, ◌++◌, arith, take, length,
}
use operating_systems_wet.Base.Int.{ℤ, signed32}
use operating_systems_wet.Base.Time.{Timeval}
use operating_systems_wet.Log.Buffer.{ServerLog}
use operating_systems_wet.Log.Buffer.Bounds.{content, IsValid, AllocatesExactly}
use operating_systems_wet.Log.Whole.{IsQuiet, add_to_log_total}
use operating_systems_wet.Request.Stats.{ThreadsStats}
use operating_systems_wet.Request.Stats.Length.{IsStats, IsTime, length-append_stats}
use operating_systems_wet.Request.Session.{FileStat, Env, Session}
use operating_systems_wet.Request.Answer.{request_serve_static, request_serve_dynamic}
use operating_systems_wet.Request.Answer.Kept.{
  Ensures, Ensures-bind, Keeps, ServesStatic, request_serve_static-ServesStatic,
  request_serve_dynamic-Keeps,
}
use operating_systems_wet.Request.Handle.{
  count_static, count_dynamic, stats_entry, log_entry, static_served, dynamic_served,
}

-- A log that can take one more entry.
pub record CanLog (env : Env) (log : ServerLog) : Type 0 where
  pub exact : AllocatesExactly env.malloc
  pub valid : IsValid log
  pub quiet : IsQuiet log
  pub room : log.size + 270 ≤ 2 ^ 62

abbrev pub Logs : ServerLog → List ℕ → Session → Type 0
Logs log entry s' = IsValid s'.log × IsQuiet s'.log × (content s'.log ≡ content log ++ entry)

pub take-length : (xs : List ℕ) → take (length xs) xs ≡ xs
take-length [] = refl
take-length (x ∷ xs) = ap (λ l. x ∷ l) (take-length xs)

module _ (env : Env) (arrival dispatch : Timeval) where
  log_entry-Logs :
      (entry : List ℕ) (s : Session)
      → CanLog env s.log
      → length entry ≤ 269
      → Ensures (Logs s.log entry) (log_entry env arrival dispatch entry s)
  log_entry-Logs entry s c short =
      let (log', e, v, q, text) =
        add_to_log_total env.malloc s.log entry (length entry) c.exact c.valid c.quiet (omega arith)
          (omega (arith, c.room)) in
      rw e (v, q, text ∙ ap (λ l. content s.log ++ l) (take-length entry))

  pub entry_short :
      (t : ThreadsStats)
      → IsStats t
      → IsTime arrival
      → IsTime dispatch
      → length (stats_entry env arrival dispatch t) ≤ 269
  entry_short t st a d = omega (arith, (length-append_stats [] t arrival dispatch st a d).1)

  -- A static file that is found readable is logged once it is served, also where serving it ended in
  -- a 403: the entry is the statistics with the request counted.
  pub static_served-Logs :
      (filename : List ℕ) (sbuf : FileStat) (s : Session)
      → CanLog env s.log
      → IsStats s.stats
      → IsTime arrival
      → IsTime dispatch
      → Ensures
          (Logs s.log (stats_entry env arrival dispatch (count_static s.stats)))
          (static_served env arrival dispatch filename sbuf s)
  unfolding static_served
  static_served-Logs filename sbuf s c st a d =
      let s₁ : Session = record s { stats = count_static s.stats } in
      let size : ℤ = signed32 (sbuf.st_size % 2 ^ 32) in
      let entry : List ℕ = stats_entry env arrival dispatch s₁.stats in
      let short : length entry ≤ 269 = entry_short (count_static s.stats) (omega (arith, st)) a d in
      Ensures-bind (ServesStatic s₁) (Logs s.log entry)
        (request_serve_static env arrival dispatch filename size s₁)
        (λ _. log_entry env arrival dispatch entry)
        (request_serve_static-ServesStatic env arrival dispatch filename size s₁)
        (λ x s₂ h.
          subst (λ log. Ensures (Logs log entry) (log_entry env arrival dispatch entry s₂)) h.log
            (log_entry-Logs entry s₂ (subst (CanLog env) (sym h.log) c) short))

  -- So is a program that was run.
  pub dynamic_served-Logs :
      (filename cgiargs : List ℕ) (s : Session)
      → CanLog env s.log
      → IsStats s.stats
      → IsTime arrival
      → IsTime dispatch
      → Ensures
          (Logs s.log (stats_entry env arrival dispatch (count_dynamic s.stats)))
          (dynamic_served env arrival dispatch filename cgiargs s)
  unfolding dynamic_served
  dynamic_served-Logs filename cgiargs s c st a d =
      let s₁ : Session = record s { stats = count_dynamic s.stats } in
      let entry : List ℕ = stats_entry env arrival dispatch s₁.stats in
      let short : length entry ≤ 269 =
        entry_short (count_dynamic s.stats) (omega (arith, st)) a d in
      Ensures-bind (Keeps s₁) (Logs s.log entry)
        (request_serve_dynamic env arrival dispatch filename cgiargs s₁)
        (λ _. log_entry env arrival dispatch entry)
        (request_serve_dynamic-Keeps env arrival dispatch filename cgiargs s₁)
        (λ x s₂ h.
          subst (λ log. Ensures (Logs log entry) (log_entry env arrival dispatch entry s₂)) h.log
            (log_entry-Logs entry s₂ (subst (CanLog env) (sym h.log) c) short))
