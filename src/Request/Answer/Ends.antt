-- ===== src/Request/Answer/Ends.antt =====
-- The answers come to an end.
use operating_systems_wet.Base.{
  ℕ, ◌≡◌, ◌≢◌, refl, Bool, true, false, Bool-cases, inl, inr, List, Option, none, some, take,
}
use operating_systems_wet.Base.Int.{ℤ, pos, negsuc}
use operating_systems_wet.Base.Time.{Timeval}
use operating_systems_wet.Request.Session.{
  Env, Session, Outcome, returns, exits, stuck, M, continue, Call, completes, errs, hangs,
  after_call, check, rio_writen, write_bytes, printf, ◌>>◌,
}
use operating_systems_wet.Request.Answer.{
  request_error, request_serve_static, request_serve_dynamic, is_negative, is_zero, write_and_print,
  send_mapped, serve_mapped, close_wrapper, forbidden, mmap_wrapper,
}
use operating_systems_wet.Request.Answer.Kept.{Ensures}

-- The call returns, or ends the program.
abbrev pub Ends : {A : Type 0} → Outcome A → Type 0
Ends (returns a s) = Unit
Ends (exits message s) = Unit
Ends stuck = ⊥

pub Ends-bind :
    {A B : Type 0} (P : Session → Type 0) (o : Outcome A) (f : A → M B)
    → Ends o
    → Ensures P o
    → ((a : A) (s : Session) → P s → Ends (f a s))
    → Ends (continue o f)
Ends-bind P (returns a s) f h p next = next a s p
Ends-bind P (exits message s) f h p next = tt
Ends-bind P stuck f h p next = absurd h

pub Ends-then :
    {A B : Type 0} (o : Outcome A) (f : A → M B)
    → Ends o
    → ((a : A) (s : Session) → Ends (f a s))
    → Ends (continue o f)
Ends-then (returns a s) f h next = next a s
Ends-then (exits message s) f h next = tt
Ends-then stuck f h next = absurd h

-- No write sleeps for ever, and every program that is waited for ends.
pub record NeverHangs (env : Env) : Type 0 where
  pub writes : (before text : List ℕ) → env.write_result before text ≢ hangs
  pub waits : env.wait_result ≢ hangs

after_call-Ends :
    (c : Call) (message : List ℕ) (s s' : Session) → c ≢ hangs → Ends (after_call c message s s')
after_call-Ends completes message s s' h = tt
after_call-Ends errs message s s' h = tt
after_call-Ends hangs message s s' h = absurd (h refl)

check-Ends : (ok : Bool) (message : List ℕ) (s : Session) → Ends (check ok message s)
check-Ends true message s = tt
check-Ends false message s = tt

module _ (env : Env) (arrival dispatch : Timeval) (lively : NeverHangs env) where
  rio_writen-Ends : (text : List ℕ) (s : Session) → Ends (rio_writen env text s)
  rio_writen-Ends text s =
      after_call-Ends (env.write_result s.sent text) _ s _ (lively.writes s.sent text)

  pub write_bytes-Ends : (buf : List ℕ) (n : ℤ) (s : Session) → Ends (write_bytes env buf n s)
  write_bytes-Ends buf (pos n) s = rio_writen-Ends (take n buf) s
  write_bytes-Ends buf (negsuc k) s = tt

  pub two_writes-Ends :
      (text buf : List ℕ) (n : ℤ) (s : Session)
      → Ends ((rio_writen env text >> write_bytes env buf n) s)
  two_writes-Ends text buf n s =
      Ends-then (rio_writen env text s) (λ _. write_bytes env buf n) (rio_writen-Ends text s)
        (λ _ s₁. write_bytes-Ends buf n s₁)

  write_and_print-Ends :
      (text : List ℕ) (s : Session) → Ends (write_and_print env arrival dispatch text s)
  write_and_print-Ends text s =
      Ends-then (rio_writen env text s) (λ _. printf text) (rio_writen-Ends text s) (λ _ s₁. tt)

  pub request_error-Ends :
      (cause errnum shortmsg longmsg : List ℕ) (s : Session)
      → Ends (request_error env arrival dispatch cause errnum shortmsg longmsg s)
  unfolding request_error
  request_error-Ends cause errnum shortmsg longmsg s =
      Ends-then _ _ (write_and_print-Ends _ s) (λ _ s₁.
        Ends-then _ _ (write_and_print-Ends _ s₁)
          (λ _ s₂. Ends-then _ _ (write_and_print-Ends _ s₂) (λ _ s₃. write_and_print-Ends _ s₃)))

  pub request_serve_dynamic-Ends :
      (filename cgiargs : List ℕ) (s : Session)
      → Ends (request_serve_dynamic env arrival dispatch filename cgiargs s)
  unfolding request_serve_dynamic
  request_serve_dynamic-Ends filename cgiargs s = Ends-then _ _ (rio_writen-Ends _ s) (λ _ s₁.
      Ends-then _ _ (check-Ends env.fork_ok _ s₁)
        (λ _ s₂. after_call-Ends env.wait_result _ _ _ lively.waits))

  send_mapped-Ends :
      (filename : List ℕ) (filesize : ℤ) (srcp : List ℕ) (s : Session)
      → Ends (send_mapped env arrival dispatch filename filesize srcp s)
  send_mapped-Ends filename filesize srcp s = Ends-then _ _ (check-Ends env.close_ok _ s) (λ _ s₁.
      Ends-then _ _ (rio_writen-Ends _ s₁) (λ _ s₂.
        Ends-then _ _ (write_bytes-Ends srcp filesize s₂) (λ _ s₃. check-Ends env.munmap_ok _ s₃)))

  refused-Ends :
      (filename longmsg : List ℕ) (s : Session)
      → Ends (
          (close_wrapper env arrival dispatch >> forbidden env arrival dispatch filename longmsg) s)
  refused-Ends filename longmsg s =
      Ends-then _ _ (check-Ends env.close_ok _ s)
        (λ _ s₁. request_error-Ends filename _ _ longmsg s₁)

  mapped-Ends :
      (filename : List ℕ) (filesize : ℤ) (o : Option (List ℕ)) (s : Session)
      → env.mmap filename filesize ≡ o
      → Ends (
          continue
            (mmap_wrapper env arrival dispatch filename filesize s)
            (serve_mapped env arrival dispatch filename filesize))
  mapped-Ends filename filesize none s e = rw (mmap_wrapper, e) tt
  mapped-Ends filename filesize (some srcp) s e =
      rw (mmap_wrapper, e) (send_mapped-Ends filename filesize srcp s)

  pub request_serve_static-Ends :
      (filename : List ℕ) (filesize : ℤ) (s : Session)
      → Ends (request_serve_static env arrival dispatch filename filesize s)
  unfolding request_serve_static
  request_serve_static-Ends filename filesize s =
      elim (Bool-cases (is_negative (env.open_fd filename))) [
        | inl e ↦ rw e tt
        | inr e ↦ elim (Bool-cases (is_zero filesize)) [
          | inl z ↦ rw (e, e, z) (refused-Ends filename _ _)
          | inr nz ↦
              rw (e, e, nz) (mapped-Ends filename filesize (env.mmap filename filesize) s refl)
        ]
      ]
