-- ===== src/Request/Headers/Fuel.antt =====
-- `requestReadhdrs` decides within `enough_lines` rounds, or never.
use operating_systems_wet.Base.{
  ℕ, zero, suc, ◌≤◌, ◌<◌, ◌≡◌, refl, sym, ◌∙◌, Bool-cases, inl, inr, List, arith,
}
use operating_systems_wet.Base.Bytes.{c_string, same_text}
use operating_systems_wet.Rio.Read.{Rio}
use operating_systems_wet.Rio.Line.{Line, line, end_of_file, read_error, rio_readlineb}
use operating_systems_wet.Rio.Line.Progress.{pending, Advances, rio_readlineb-Advances}
use operating_systems_wet.Request.Stats.{crlf}
use operating_systems_wet.Request.Headers.{
  maxline, headers_got, request_readhdrs, enough_lines, request_readhdrs_stuck,
}

-- One round, where all later rounds agree.
headers_got-agree :
    (f g p : ℕ) (buf : List ℕ) (r : Line × Rio)
    → p ≤ f
    → p ≤ g
    → Advances r p
    → ((buf' : List ℕ) (rp' : Rio)
        → pending rp' < p
        → request_readhdrs f buf' rp' ≡ request_readhdrs g buf' rp')
    → headers_got buf r (request_readhdrs f) ≡ headers_got buf r (request_readhdrs g)
unfolding headers_got
headers_got-agree f g p buf (line text n, rp') hf hg adv ih =
    elim (Bool-cases (same_text (c_string text) crlf)) [
      | inl blank ↦ rw blank
      | inr other ↦ rw other (ih text rp' adv)
    ]
headers_got-agree f g p buf (end_of_file, rp') hf hg adv ih =
    elim (Bool-cases (same_text (c_string buf) crlf)) [
      | inl blank ↦ rw blank
      | inr other ↦ rw other (elim adv [
        | inl less ↦ ih buf rp' less
        | inr e ↦
            rw e (request_readhdrs_stuck f buf other ∙ sym (request_readhdrs_stuck g buf other))
      ])
    ]
headers_got-agree f g p buf (read_error, rp') hf hg adv ih = refl

-- The rounds that `request_handle` grants are enough: any larger number of rounds gives the same
-- result.
pub request_readhdrs_enough :
    (fuel : ℕ) (buf : List ℕ) (rp : Rio)
    → enough_lines rp ≤ fuel
    → request_readhdrs fuel buf rp ≡ request_readhdrs (enough_lines rp) buf rp
unfolding request_readhdrs
request_readhdrs_enough fuel buf rp h = agree fuel (enough_lines rp) buf rp h (omega arith)
  where
    agree :
        (f g : ℕ) (buf : List ℕ) (rp : Rio)
        → pending rp < f
        → pending rp < g
        → request_readhdrs f buf rp ≡ request_readhdrs g buf rp
    agree zero g buf rp hf hg = absurd (omega arith)
    agree (suc f) zero buf rp hf hg = absurd (omega arith)
    agree (suc f) (suc g) buf rp hf hg =
        headers_got-agree f g (pending rp) buf (rio_readlineb rp maxline) (omega arith)
          (omega arith) (rio_readlineb-Advances rp 8190)
          (λ buf' rp' less. agree f g buf' rp' (omega arith) (omega arith))
