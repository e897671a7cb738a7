-- ===== src/Request/Headers/Same.antt =====
-- `requestReadhdrs` on two connections that deliver the same bytes.
use operating_systems_wet.Base.{
  ℕ, zero, suc, ◌+◌, sym, subst, Bool-cases, inl, inr, List, Option, none, some, arith,
}
use operating_systems_wet.Base.Bytes.{c_string, same_text}
use operating_systems_wet.Rio.Read.{Rio}
use operating_systems_wet.Rio.Line.{Line, line, end_of_file, read_error, rio_readlineb}
use operating_systems_wet.Rio.Line.Same.{Alike, rio_readlineb-Alike}
use operating_systems_wet.Request.Stats.{crlf}
use operating_systems_wet.Request.Headers.{
  maxline, Headers, skipped, read_failed, headers_got, request_readhdrs, enough_lines,
}
use operating_systems_wet.Request.Headers.Fuel.{request_readhdrs_enough}

-- The two calls end in the same way.
abbrev pub SameEnd : Option Headers → Option Headers → Type 0
SameEnd none none = Unit
SameEnd (some (skipped _)) (some (skipped _)) = Unit
SameEnd (some read_failed) (some read_failed) = Unit
SameEnd _ _ = ⊥

headers_got-SameEnd :
    (buf : List ℕ) (l : Line) (rp₁ rp₂ : Rio) (next₁ next₂ : List ℕ → Rio → Option Headers)
    → ((buf' : List ℕ) → SameEnd (next₁ buf' rp₁) (next₂ buf' rp₂))
    → SameEnd (headers_got buf (l, rp₁) next₁) (headers_got buf (l, rp₂) next₂)
unfolding headers_got
headers_got-SameEnd buf (line text n) rp₁ rp₂ next₁ next₂ ih =
    elim (Bool-cases (same_text (c_string text) crlf)) [
      | inl blank ↦ rw blank tt
      | inr other ↦ rw other (ih text)
    ]
headers_got-SameEnd buf end_of_file rp₁ rp₂ next₁ next₂ ih =
    elim (Bool-cases (same_text (c_string buf) crlf)) [
      | inl blank ↦ rw blank tt
      | inr other ↦ rw other (ih buf)
    ]
headers_got-SameEnd buf read_error rp₁ rp₂ next₁ next₂ ih = tt

rounds-SameEnd :
    (fuel : ℕ) (buf : List ℕ) (rp₁ rp₂ : Rio)
    → Alike rp₁ rp₂
    → SameEnd (request_readhdrs fuel buf rp₁) (request_readhdrs fuel buf rp₂)
unfolding request_readhdrs
rounds-SameEnd zero buf rp₁ rp₂ a = tt
rounds-SameEnd (suc fuel) buf rp₁ rp₂ a =
    let (same, a') = rio_readlineb-Alike rp₁ rp₂ 8191 a in
    let (l₁, rp₁') = rio_readlineb rp₁ maxline in
    let (l₂, rp₂') = rio_readlineb rp₂ maxline in
    subst
      (λ l.
        SameEnd (headers_got buf (l₁, rp₁') (request_readhdrs fuel))
          (headers_got buf (l, rp₂') (request_readhdrs fuel)))
      same
      (headers_got-SameEnd buf l₁ rp₁' rp₂' (request_readhdrs fuel) (request_readhdrs fuel)
        (λ buf'. rounds-SameEnd fuel buf' rp₁' rp₂' a'))

pub request_readhdrs-SameEnd :
    (buf : List ℕ) (rp₁ rp₂ : Rio)
    → Alike rp₁ rp₂
    → SameEnd
        (request_readhdrs (enough_lines rp₁) buf rp₁)
        (request_readhdrs (enough_lines rp₂) buf rp₂)
request_readhdrs-SameEnd buf rp₁ rp₂ a =
    let fuel : ℕ = enough_lines rp₁ + enough_lines rp₂ in
    rw
      (
        sym (request_readhdrs_enough fuel buf rp₁ (omega arith)),
        sym (request_readhdrs_enough fuel buf rp₂ (omega arith)),
      )
      (rounds-SameEnd fuel buf rp₁ rp₂ a)
