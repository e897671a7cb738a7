-- ===== src/Server/World/Entries.antt =====
-- The log and the counters of the whole server.
use operating_systems_wet.Base.{
  ℕ, suc, ◌+◌, ◌*◌, ◌≤◌, ◌<◌, ◌^◌, ◌≡◌, refl, sym, subst, ap, ◌∙◌, inl, inr, List, [], ◌∷◌, ◌++◌,
  append-nil, length, length-append, some, get_elem?, arith,
}
use operating_systems_wet.Base.Threads.{weigh}
use operating_systems_wet.Base.Time.{Timeval, timersub}
use operating_systems_wet.Log.Buffer.{ServerLog}
use operating_systems_wet.Log.Buffer.Bounds.{content, IsValid}
use operating_systems_wet.Log.Whole.{IsQuiet}
use operating_systems_wet.Log.Threads.History.{joined, joined-append, length-content}
use operating_systems_wet.Request.Stats.{ThreadsStats, append_stats}
use operating_systems_wet.Request.Stats.Length.{IsStats, length-append_stats}
use operating_systems_wet.Request.Session.{Session, returns}
use operating_systems_wet.Request.Handle.{count_total, count_static, count_dynamic}
use operating_systems_wet.Server.Worker.{Job, opening, worker_round}
use operating_systems_wet.Server.World.Round.{GoodJob, round-Grown}

abbrev pub total_of : ThreadsStats → ℕ
total_of t = t.total_req

-- The static and the dynamic requests that are counted.
abbrev pub logged_of : ThreadsStats → ℕ
logged_of t = t.stat_req + t.dynm_req

abbrev pub AllGood : List Job → Type 0
AllGood [] = Unit
AllGood (job ∷ jobs) = GoodJob job × AllGood jobs

-- The statistics of one of the workers with the numbers 1 to `n`, as `append_stats` prints them.
abbrev pub IsEntry : ℕ → List ℕ → Type 0
IsEntry n e =
    (t : ThreadsStats) × (arrival : Timeval) × (dispatch : Timeval) × (e
      ≡ (append_stats [] t arrival dispatch).0)
    × (1 ≤ t.id)
    × (t.id ≤ n)

abbrev pub AllEntries : ℕ → List (List ℕ) → Type 0
AllEntries n [] = Unit
AllEntries n (e ∷ es) = IsEntry n e × AllEntries n es

AllEntries-append :
    (n : ℕ) (es : List (List ℕ)) (e : List ℕ)
    → AllEntries n es
    → IsEntry n e
    → AllEntries n (es ++ (e ∷ []))
AllEntries-append n [] e h is = (is, tt)
AllEntries-append n (d ∷ es) e (first, h) is = (first, AllEntries-append n es e h is)

-- The text of a log that is a list of entries; of `k` dispatched requests, `held` are with a worker, and
-- `logged` are counted as static or dynamic.
pub record Entries (n k held logged : ℕ) (log : ServerLog) : Type 0 where
  pub valid : IsValid log
  pub quiet : IsQuiet log
  pub entries : List (List ℕ)
  pub whole : content log ≡ joined entries
  pub each : AllEntries n entries
  pub few : length entries + held ≤ k
  pub enough : logged ≤ length entries
  pub short : log.size ≤ 269 * length entries

-- The counters of the workers.
pub record Counters (n k held : ℕ) (stats : List ThreadsStats) : Type 0 where
  pub own :
      (i : ℕ) {t : ThreadsStats}
      → get_elem? stats i ≡ some t
      → (t.id ≡ suc i) × (suc i ≤ n) × (t.stat_req + t.dynm_req + t.post_req ≤ t.total_req)
  pub counted : weigh total_of stats + held ≤ k

-- An entry behind the others.
one_more :
    (n k held logged logged' : ℕ) (log log' : ServerLog) (e : List ℕ)
    → Entries n k (suc held) logged log
    → logged' ≤ logged + 1
    → IsValid log'
    → IsQuiet log'
    → IsEntry n e
    → length e ≤ 269
    → content log' ≡ content log ++ e
    → Entries n k held logged' log'
one_more n k held logged logged' log log' e inv more v q is short same = record {
  valid = v;
  quiet = q;
  entries = inv.entries ++ (e ∷ []);
  whole =
      same
      ∙ ap (λ l. l ++ e) inv.whole
      ∙ ap (λ l. joined inv.entries ++ l) (sym (append-nil e))
      ∙ sym (joined-append inv.entries (e ∷ []));
  each = AllEntries-append n inv.entries e inv.each is;
  few = omega (arith, inv.few, length-append inv.entries (e ∷ []));
  enough = omega (arith, inv.enough, length-append inv.entries (e ∷ []));
  short = omega (
    arith,
    inv.short,
    length-content log inv.valid,
    length-content log' v,
    ap length same,
    length-append (content log) e,
    length-append inv.entries (e ∷ []),
  );
}

no_more :
    (n k held logged logged' : ℕ) (log log' : ServerLog)
    → Entries n k (suc held) logged log
    → logged' ≤ logged
    → IsValid log'
    → IsQuiet log'
    → content log' ≡ content log
    → Entries n k held logged' log'
no_more n k held logged logged' log log' inv less v q same = record {
  valid = v;
  quiet = q;
  entries = inv.entries;
  whole = same ∙ inv.whole;
  each = inv.each;
  few = omega (arith, inv.few);
  enough = omega (arith, inv.enough);
  short =
      omega (arith, inv.short, length-content log inv.valid, length-content log' v, ap length same);
}

-- What a round does to the log, if the workers count `logged` requests as static or dynamic before and
-- `logged'` after it.
module _ (n k held logged logged' : ℕ) (job : Job) (t : ThreadsStats) (s' : Session)
    (st : IsStats t) (one : 1 ≤ t.id) (last : t.id ≤ n)
    (inv : Entries n k (suc held) logged job.log)
    (moved : logged' + logged_of t ≡ logged + logged_of s'.stats) where
  printed_more :
      GoodJob job
      → (t₁ : ThreadsStats) → IsStats t₁
      → t₁.id ≡ t.id
      → logged_of s'.stats ≤ logged_of t + 1
      → IsValid s'.log
      → IsQuiet s'.log
      → content s'.log
        ≡ content job.log ++ (append_stats [] t₁ job.arrival (timersub job.now job.arrival)).0
      → Entries n k held logged' s'.log
  printed_more g t₁ st₁ same_id counts v q same =
      let dispatch : Timeval = timersub job.now job.arrival in
      one_more n k held logged logged' job.log s'.log (append_stats [] t₁ job.arrival dispatch).0
        inv (omega arith) v q (t₁, job.arrival, dispatch, refl, omega arith, omega arith)
        (omega (
          arith,
          (length-append_stats [] t₁ job.arrival dispatch st₁ g.arrival_time g.dispatch_time).1,
        ))
        same

  unprinted :
      logged_of s'.stats ≡ logged_of t
      → IsValid s'.log
      → IsQuiet s'.log
      → content s'.log ≡ content job.log
      → Entries n k held logged' s'.log
  unprinted counts v q same =
      no_more n k held logged logged' job.log s'.log inv (omega arith) v q same

  pub round-Entries :
      worker_round job (opening job t) ≡ returns tt s'
      → GoodJob job
      → 269 * k + 270 < 2 ^ 31
      → Entries n k held logged' s'.log
  round-Entries done g small =
      elim (round-Grown job t s' done g inv.valid inv.quiet (omega (arith, inv.few, inv.short))
        st) [
          | inl nothing ↦
              unprinted (ap (λ (s : Session). logged_of s.stats) nothing)
                (subst (λ (s : Session). IsValid s.log) (sym nothing) inv.valid)
                (subst (λ (s : Session). IsQuiet s.log) (sym nothing) inv.quiet)
                (ap (λ (s : Session). content s.log) nothing)
          | inr (v, q, inl (same, inl stats)) ↦ unprinted (ap logged_of stats) v q same
          | inr (v, q, inl (same, inr stats)) ↦ unprinted (ap logged_of stats) v q same
          | inr (v, q, inr (inl (same, inl stats))) ↦
              printed_more g (count_static (count_total t)) (omega (arith, st)) refl
                (omega (arith, ap logged_of stats)) v q same
          | inr (v, q, inr (inl (same, inr stats))) ↦
              printed_more g (count_static (count_total t)) (omega (arith, st)) refl
                (omega (arith, ap logged_of stats)) v q same
          | inr (v, q, inr (inr (same, stats))) ↦
              printed_more g (count_dynamic (count_total t)) (omega (arith, st)) refl
                (omega (arith, ap logged_of stats)) v q same
        ]
