-- ===== src/Request/Answer/Response.antt =====
-- The bytes of an answer, where every write goes through.
use operating_systems_wet.Base.{
  ℕ, zero, suc, ◌<◌, ◌^◌, ◌≡◌, refl, ap, ap₂, List, [], ◌∷◌, ◌++◌, append_assoc, arith, take,
  length-take, length,
}
use operating_systems_wet.Base.Bytes.{codes}
use operating_systems_wet.Base.Format.{print_int, print_nat}
use operating_systems_wet.Base.Time.{Timeval}
use operating_systems_wet.Log.Buffer.{ServerLog}
use operating_systems_wet.Log.Buffer.Bounds.{content, IsValid}
use operating_systems_wet.Log.Whole.{IsQuiet, get_log_lem}
use operating_systems_wet.Request.Stats.{ThreadsStats, crlf, stats_lines, append_stats}
use operating_systems_wet.Request.Session.{Env, Session, Outcome, returns, completes}
use operating_systems_wet.Request.Answer.{
  error_body, request_error, request_serve_post, server_lines,
}

abbrev pub AlwaysWrites : Env → Type 0
AlwaysWrites env = (before text : List ℕ) → env.write_result before text ≡ completes

pub take-whole : (xs ys : List ℕ) (n : ℕ) → n ≡ length xs → take n (xs ++ ys) ≡ xs
take-whole [] ys zero e = refl
take-whole [] ys (suc n) e = absurd (omega arith)
take-whole (x ∷ xs) ys zero e = absurd (omega arith)
take-whole (x ∷ xs) ys (suc n) e = ap (λ l. x ∷ l) (take-whole xs ys n (omega arith))

abbrev pub answered : Session → List ℕ → List ℕ → Outcome (Unit {0})
answered s sent printed = returns tt (record s { sent = sent; printed = printed })

module _ (env : Env) (arrival dispatch : Timeval) where
  -- Status line, type, length of the body, statistics, an empty line and the body.
  abbrev pub error_response : ThreadsStats → List ℕ → List ℕ → List ℕ → List ℕ → List ℕ
  error_response stats cause errnum shortmsg longmsg =
      (codes "HTTP/1.0 " ++ (errnum ++ (codes " " ++ (shortmsg ++ crlf))))
      ++ ((codes "Content-Type: text/html" ++ crlf)
          ++ (((codes "Content-Length: "
                  ++ (print_nat (length (error_body cause errnum shortmsg longmsg)) ++ crlf))
                ++ stats_lines stats arrival dispatch)
              ++ error_body cause errnum shortmsg longmsg))

  append₄ : (s a b c d : List ℕ) → (((s ++ a) ++ b) ++ c) ++ d ≡ s ++ (a ++ (b ++ (c ++ d)))
  append₄ s a b c d = simp append_assoc

  -- On a connection that takes every write, `requestError` sends the status line, the type, the
  -- length of the body, the statistics, an empty line and the body, and prints the same.
  pub request_error_lem :
      (cause errnum shortmsg longmsg : List ℕ) (s : Session)
      → AlwaysWrites env
      → request_error env arrival dispatch cause errnum shortmsg longmsg s
        ≡ answered s
            (s.sent ++ error_response s.stats cause errnum shortmsg longmsg)
            (s.printed ++ error_response s.stats cause errnum shortmsg longmsg)
  unfolding request_error append_stats
  request_error_lem cause errnum shortmsg longmsg s w =
      let body : List ℕ = error_body cause errnum shortmsg longmsg in
      let a : List ℕ = codes "HTTP/1.0 " ++ (errnum ++ (codes " " ++ (shortmsg ++ crlf))) in
      let b : List ℕ = codes "Content-Type: text/html" ++ crlf in
      let c : List ℕ =
        (codes "Content-Length: " ++ (print_nat (length body) ++ crlf))
        ++ stats_lines s.stats arrival dispatch in
      rw
        (
          request_error,
          w s.sent a,
          w (s.sent ++ a) b,
          w ((s.sent ++ a) ++ b) c,
          w (((s.sent ++ a) ++ b) ++ c) body,
        )
        (ap₂ (answered s) (append₄ s.sent a b c body) (append₄ s.printed a b c body))

  -- The answer to a POST: the text of the log, with its length in the header.
  abbrev pub log_response : ThreadsStats → ServerLog → List ℕ
  log_response stats log =
      ((server_lines env arrival dispatch
          ++ (codes "Content-Length: "
              ++ (print_nat log.size ++ (crlf ++ (codes "Content-Type: text/plain" ++ crlf)))))
        ++ stats_lines stats arrival dispatch)
      ++ content log

  take-content :
      (log : ServerLog) → IsValid log → take log.size (content log ++ (0 ∷ [])) ≡ content log
  take-content log v =
      take-whole (content log) (0 ∷ []) log.size
        (omega (arith, length-take log.size log.buffer, v.fits, v.storage))

  -- On a connection that takes every write, a POST on a valid log that nobody else uses, shorter
  -- than 2^31 bytes, is answered with the whole text of the log and its length, and leaves the
  -- counters, the log and the server's output alone.
  pub request_serve_post_lem :
      (s : Session)
      → AlwaysWrites env
      → IsValid s.log
      → IsQuiet s.log
      → s.log.size < 2 ^ 31
      → request_serve_post env arrival dispatch s
        ≡ answered s (s.sent ++ log_response s.stats s.log) s.printed
  unfolding request_serve_post append_stats print_int
  request_serve_post_lem s w v q small =
      let header : List ℕ =
        (server_lines env arrival dispatch
          ++ (codes "Content-Length: "
              ++ (print_nat s.log.size ++ (crlf ++ (codes "Content-Type: text/plain" ++ crlf)))))
        ++ stats_lines s.stats arrival dispatch in
      rw (
        request_serve_post,
        get_log_lem s.log v q small,
        w s.sent header,
        take-content s.log v,
        w (s.sent ++ header) (content s.log),
        append_assoc s.sent header (content s.log),
      )
