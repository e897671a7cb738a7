-- ===== src/Request/Answer/Kept.antt =====
-- What answering a request leaves as it was, on every way out.
use operating_systems_wet.Base.{
  ◌++◌, ℕ, ◌≡◌, refl, ◌∙◌, ◌⊎◌, inl, inr, Bool-cases, List, arith, take,
}
use operating_systems_wet.Base.Int.{ℤ, pos, negsuc}
use operating_systems_wet.Base.Bytes.{codes}
use operating_systems_wet.Base.Time.{Timeval}
use operating_systems_wet.Request.Stats.{dec}
use operating_systems_wet.Request.Session.{
  Env, Session, Outcome, returns, exits, stuck, M, continue, rio_writen, Call, completes, errs,
  hangs, after_call, write_bytes,
}
use operating_systems_wet.Request.Answer.{
  is_negative, is_zero, request_error, request_serve_static, request_serve_dynamic,
  request_serve_post,
}

-- What holds where a call returns.
abbrev pub Ensures : {A : Type 0} → (Session → Type 0) → Outcome A → Type 0
Ensures P (returns a s) = P s
Ensures P (exits message s) = Unit
Ensures P stuck = Unit

pub Ensures-bind :
    {A B : Type 0} (P Q : Session → Type 0) (o : Outcome A) (f : A → M B)
    → Ensures P o
    → ((a : A) (s : Session) → P s → Ensures Q (f a s))
    → Ensures Q (continue o f)
Ensures-bind P Q (returns a s) f h next = next a s h
Ensures-bind P Q (exits message s) f h next = tt
Ensures-bind P Q stuck f h next = tt

pub Ensures-imp :
    {A : Type 0} (P Q : Session → Type 0) (o : Outcome A)
    → ((s : Session) → P s → Q s)
    → Ensures P o
    → Ensures Q o
Ensures-imp P Q (returns a s) imp h = imp s h
Ensures-imp P Q (exits message s) imp h = tt
Ensures-imp P Q stuck imp h = tt

pub Ensures-both :
    {A : Type 0} (P Q : Session → Type 0) (o : Outcome A)
    → Ensures P o
    → Ensures Q o
    → Ensures (λ s. P s × Q s) o
Ensures-both P Q (returns a s) p q = (p, q)
Ensures-both P Q (exits message s) p q = tt
Ensures-both P Q stuck p q = tt

-- The counters and the log are those of `s`.
pub record Keeps (s s' : Session) : Type 0 where
  pub stats : s'.stats ≡ s.stats
  pub log : s'.log ≡ s.log

pub Keeps-trans : (s t u : Session) → Keeps s t → Keeps t u → Keeps s u
Keeps-trans s t u a b = record { stats = b.stats ∙ a.stats; log = b.log ∙ a.log }

pub rio_writen-Keeps :
    (env : Env) (text : List ℕ) (s : Session) → Ensures (Keeps s) (rio_writen env text s)
rio_writen-Keeps env text s = after_call-Keeps (env.write_result s.sent text)
  where
    after_call-Keeps :
        (c : Call)
        → Ensures
            (Keeps s)
            (after_call c (codes "Rio_writen error") s (record s { sent = s.sent ++ text }))
    after_call-Keeps completes = record { stats = refl; log = refl }
    after_call-Keeps errs = tt
    after_call-Keeps hangs = tt

pub write_bytes-Keeps :
    (env : Env) (buf : List ℕ) (n : ℤ) (s : Session) → Ensures (Keeps s) (write_bytes env buf n s)
write_bytes-Keeps env buf (pos n) s = rio_writen-Keeps env (take n buf) s
write_bytes-Keeps env buf (negsuc k) s = tt

-- Serving a file leaves the log alone, and the counters too, or takes back one static request.
pub record ServesStatic (s s' : Session) : Type 0 where
  pub log : s'.log ≡ s.log
  pub stats :
      (s'.stats ≡ s.stats) ⊎ (s'.stats ≡ record (s.stats) { stat_req = dec s.stats.stat_req })

taken_back : Session → Session
taken_back s = record s { stats = record (s.stats) { stat_req = dec s.stats.stat_req } }

module _ (env : Env) (arrival dispatch : Timeval) where
  pub request_error-Keeps :
      (cause errnum shortmsg longmsg : List ℕ) (s : Session)
      → Ensures (Keeps s) (request_error env arrival dispatch cause errnum shortmsg longmsg s)
  unfolding request_error
  request_error-Keeps cause errnum shortmsg longmsg s = ground arith

  ServesStatic-taken_back : (s s' : Session) → Keeps (taken_back s) s' → ServesStatic s s'
  unfolding taken_back
  ServesStatic-taken_back s s' k = record { log = k.log; stats = inr k.stats }

  pub request_serve_static-ServesStatic :
      (filename : List ℕ) (filesize : ℤ) (s : Session)
      → Ensures (ServesStatic s) (request_serve_static env arrival dispatch filename filesize s)
  unfolding request_serve_static taken_back
  request_serve_static-ServesStatic filename filesize s =
      elim (Bool-cases (is_negative (env.open_fd filename))) [
        | inl e ↦ rw e tt
        | inr e ↦ elim (Bool-cases (is_zero filesize)) [
          | inl z ↦ elim (Bool-cases env.close_ok) [
            | inl c ↦ ground (
              arith,
              request_error-Keeps filename (codes "403") (codes "Forbidden")
                  (codes "OS-HW3 Server cannot map empty file") (taken_back s),
            )
            | inr c ↦ ground arith
          ]
          | inr nz ↦ ground arith
        ]
      ]

  pub request_serve_dynamic-Keeps :
      (filename cgiargs : List ℕ) (s : Session)
      → Ensures (Keeps s) (request_serve_dynamic env arrival dispatch filename cgiargs s)
  unfolding request_serve_dynamic
  request_serve_dynamic-Keeps filename cgiargs s = ground arith

  -- Answering a POST leaves the counters alone.
  pub request_serve_post-stats :
      (s : Session) → Ensures (λ s'. s'.stats ≡ s.stats) (request_serve_post env arrival dispatch s)
  unfolding request_serve_post
  request_serve_post-stats s = ground arith
