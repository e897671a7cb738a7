-- ===== src/Request/Handle/Tallied.antt =====
-- The numbers in a thread's counters before and after a request.
use operating_systems_wet.Base.{ℕ, ◌+◌, ◌%◌, ◌^◌, ◌≡◌, sym, subst, true, List, arith}
use operating_systems_wet.Base.Bytes.{c_string}
use operating_systems_wet.Base.Time.{Timeval}
use operating_systems_wet.Rio.Read.{Event, rio_readinitb}
use operating_systems_wet.Rio.Line.{Line, line, end_of_file, read_error, rio_readlineb}
use operating_systems_wet.Request.Stats.{ThreadsStats}
use operating_systems_wet.Request.Stats.Length.{IsStats}
use operating_systems_wet.Request.Headers.{maxline}
use operating_systems_wet.Request.Session.{Env, Session}
use operating_systems_wet.Request.Answer.Kept.{Ensures, Ensures-imp}
use operating_systems_wet.Request.Handle.{Stack, count_total, scan_request, request_handle}
use operating_systems_wet.Request.Handle.Kinds.{
  Kind, counted, neither, static, dynamic, post, is_kind_of,
}
use operating_systems_wet.Request.Handle.Counts.{Handled, request_handle-Handled}

-- How much a request adds to each counter besides the total.
abbrev pub adds_static : Kind → ℕ
adds_static static = 1
adds_static _ = 0

abbrev pub adds_dynamic : Kind → ℕ
adds_dynamic dynamic = 1
adds_dynamic _ = 0

abbrev pub adds_post : Kind → ℕ
adds_post post = 1
adds_post _ = 0

-- The counters of a thread before and after a request of a kind, as bit patterns of 32 bits.
pub record Tallied (k : Kind) (t t' : ThreadsStats) : Type 0 where
  pub same_id : t'.id ≡ t.id
  pub total : t'.total_req ≡ (t.total_req + 1) % 2 ^ 32
  pub static_req : t'.stat_req ≡ (t.stat_req + adds_static k) % 2 ^ 32
  pub dynamic_req : t'.dynm_req ≡ (t.dynm_req + adds_dynamic k) % 2 ^ 32
  pub posts : t'.post_req ≡ (t.post_req + adds_post k) % 2 ^ 32

-- By what the first read of the request gave. The kind is one that the method and the name allow.
abbrev pub TalliedAfter : Stack → Line → Session → Session → Type 0
TalliedAfter stack end_of_file s s' = s' ≡ s
TalliedAfter stack read_error s s' = ⊥
TalliedAfter stack (line text n) s s' =
    let (method, uri) = scan_request stack (c_string text) in
    (k : Kind) × (is_kind_of method uri k ≡ true) × Tallied k s.stats s'.stats

module _ (env : Env) (arrival dispatch : Timeval) where
  Handled-TalliedAfter :
      (stack : Stack) (l : Line) (s s' : Session)
      → IsStats s.stats
      → Handled env arrival dispatch stack l s s'
      → TalliedAfter stack l s s'
  Handled-TalliedAfter stack end_of_file s s' v h = h
  Handled-TalliedAfter stack read_error s s' v h = h
  Handled-TalliedAfter stack (line text n) s s' v (k, ok, e) =
      (k, ok, subst (Tallied k s.stats) (sym e) (counted-Tallied k))
    where
      counted-Tallied : (k : Kind) → Tallied k s.stats (counted k (count_total s.stats))
      counted-Tallied neither = omega (arith, v)
      counted-Tallied static = omega (arith, v)
      counted-Tallied dynamic = omega (arith, v)
      counted-Tallied post = omega (arith, v)

  -- A request that the handler returns from adds one to the thread's total, modulo 2^32, and besides at
  -- most one to one other counter: a POST always one to the POSTs; a GET none, or one to the dynamic
  -- requests where its name has "cgi" and no ".." in it, or one to the static ones where it has not;
  -- another method none. The number of the thread stays. A connection that closes before its first line
  -- changes nothing. The counters are bit patterns of 32 bits.
  pub request_handle-Tallied :
      (stack : Stack) (fd : List Event) (s : Session)
      → IsStats s.stats
      → Ensures
          (TalliedAfter stack (rio_readlineb (rio_readinitb fd) maxline).0 s)
          (request_handle env arrival dispatch stack fd s)
  request_handle-Tallied stack fd s v =
      Ensures-imp _ _ _
        (λ s' h. Handled-TalliedAfter stack (rio_readlineb (rio_readinitb fd) maxline).0 s s' v h)
        (request_handle-Handled env arrival dispatch stack fd s (omega (arith, v)))
