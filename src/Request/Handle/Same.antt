-- ===== src/Request/Handle/Same.antt =====
-- The handler sees the bytes of a request and not how they arrive.
use operating_systems_wet.Base.{
  ℕ, ◌≡◌, refl, ap, ◌∙◌, true, Bool-cases, inl, inr, List, [], Option, none, some,
}
use operating_systems_wet.Base.Bytes.{codes, c_string, same_letters}
use operating_systems_wet.Base.Time.{Timeval}
use operating_systems_wet.Rio.Read.{Rio, Event, rio_readinitb}
use operating_systems_wet.Rio.Read.Stream.{flow}
use operating_systems_wet.Rio.Line.{Line, line, end_of_file, read_error, rio_readlineb}
use operating_systems_wet.Rio.Line.Closed.{is_closed}
use operating_systems_wet.Rio.Line.Same.{Alike, rio_readlineb-Alike}
use operating_systems_wet.Request.Headers.{
  maxline, Headers, skipped, read_failed, request_readhdrs, enough_lines,
}
use operating_systems_wet.Request.Headers.Same.{SameEnd, request_readhdrs-SameEnd}
use operating_systems_wet.Request.Session.{Env, Session}
use operating_systems_wet.Request.Handle.{
  Stack, scan_request, count_total, handle_get, handle_method, handle_line, request_handle,
}

module _ (env : Env) (arrival dispatch : Timeval) (stack : Stack) where
  handle_get-same :
      (uri : List ℕ) (h₁ h₂ : Option Headers) (s : Session)
      → SameEnd h₁ h₂
      → handle_get env arrival dispatch stack uri h₁ s
        ≡ handle_get env arrival dispatch stack uri h₂ s
  unfolding handle_get
  handle_get-same uri none none s e = refl
  handle_get-same uri (some (skipped _)) (some (skipped _)) s e = refl
  handle_get-same uri (some read_failed) (some read_failed) s e = refl
  handle_get-same uri none (some h) s e = absurd e
  handle_get-same uri (some (skipped _)) none s e = absurd e
  handle_get-same uri (some (skipped _)) (some read_failed) s e = absurd e
  handle_get-same uri (some read_failed) none s e = absurd e
  handle_get-same uri (some read_failed) (some (skipped _)) s e = absurd e

  handle_method-same :
      (request : List ℕ × List ℕ) (rp₁ rp₂ : Rio) (s : Session)
      → Alike rp₁ rp₂
      → handle_method env arrival dispatch stack request rp₁ s
        ≡ handle_method env arrival dispatch stack request rp₂ s
  unfolding handle_method
  handle_method-same (method, uri) rp₁ rp₂ s a =
      elim (Bool-cases (same_letters method (codes "GET"))) [
        | inl get ↦ rw get (
            handle_get-same uri (request_readhdrs (enough_lines rp₁) stack.header rp₁)
              (request_readhdrs (enough_lines rp₂) stack.header rp₂) s
              (request_readhdrs-SameEnd stack.header rp₁ rp₂ a))
        | inr other ↦ rw other
      ]

  handle_line-same :
      (l : Line) (rp₁ rp₂ : Rio) (s : Session)
      → Alike rp₁ rp₂
      → handle_line env arrival dispatch stack (l, rp₁) s
        ≡ handle_line env arrival dispatch stack (l, rp₂) s
  unfolding handle_line
  handle_line-same (line text n) rp₁ rp₂ s a =
      handle_method-same (scan_request stack (c_string text)) rp₁ rp₂
        (record s { stats = count_total s.stats }) a
  handle_line-same end_of_file rp₁ rp₂ s a = refl
  handle_line-same read_error rp₁ rp₂ s a = refl

  -- Two connections that deliver the same bytes and then stay at their end make `requestHandle` do exactly
  -- the same, whatever the bytes are, into whatever pieces they are cut and however often reading them is
  -- interrupted.
  pub request_handle-same :
      (fd₁ fd₂ : List Event) (s : Session)
      → is_closed fd₁ ≡ true
      → is_closed fd₂ ≡ true
      → (flow fd₁).coming ≡ (flow fd₂).coming
      → request_handle env arrival dispatch stack fd₁ s
        ≡ request_handle env arrival dispatch stack fd₂ s
  unfolding request_handle rio_readinitb
  request_handle-same fd₁ fd₂ s c₁ c₂ e =
      let rp₁ : Rio = record { fd = fd₁; unread = [] } in
      let rp₂ : Rio = record { fd = fd₂; unread = [] } in
      let (same, a) =
        rio_readlineb-Alike rp₁ rp₂ 8191 (record { closed₁ = c₁; closed₂ = c₂; same = e }) in
      handle_line-same (rio_readlineb rp₁ maxline).0 (rio_readlineb rp₁ maxline).1
        (rio_readlineb rp₂ maxline).1 s a
      ∙ ap (λ l. handle_line env arrival dispatch stack (l, (rio_readlineb rp₂ maxline).1) s) same
