-- ===== src/Rio/Line/Same.antt =====
-- Two connections that deliver the same bytes.
use operating_systems_wet.Base.{
  ℕ, ◌+◌, ◌≡◌, refl, sym, subst, ap, ap₂, ◌∙◌, true, List, [], ◌∷◌, ◌++◌, drop, length,
}
use operating_systems_wet.Rio.Read.{Rio}
use operating_systems_wet.Rio.Read.Stream.{stream}
use operating_systems_wet.Rio.Line.{Line, line, end_of_file, read_error, rio_readlineb}
use operating_systems_wet.Rio.Line.Spec.{cut, how, report, rio_readlineb_lem}
use operating_systems_wet.Rio.Line.Closed.{
  is_closed, flow-is_closed, Conserves, rio_readlineb-Conserves,
}

-- Both deliver the same bytes, in whatever pieces, and then stay at their end.
pub record Alike (rp₁ rp₂ : Rio) : Type 0 where
  pub closed₁ : is_closed rp₁.fd ≡ true
  pub closed₂ : is_closed rp₂.fd ≡ true
  pub same : (stream rp₁).coming ≡ (stream rp₂).coming

drop-append : (t s : List ℕ) → drop (length t) (t ++ s) ≡ s
drop-append [] s = refl
drop-append (c ∷ t) s = drop-append t s

append-cancel : (t a b : List ℕ) → t ++ a ≡ t ++ b → a ≡ b
append-cancel t a b e = sym (drop-append t a) ∙ ap (drop (length t)) e ∙ drop-append t b

abbrev text_of : Line → List ℕ
text_of (line text n) = text
text_of _ = []

left-Alike :
    (r₁ r₂ : Line × Rio) (coming : List ℕ)
    → Conserves r₁ coming
    → Conserves r₂ coming
    → r₁.0 ≡ r₂.0
    → Alike r₁.1 r₂.1
left-Alike (line t n, rp₁) (line u m, rp₂) coming (c₁, w₁) (c₂, w₂) e = record {
  closed₁ = c₁;
  closed₂ = c₂;
  same =
      append-cancel t _ _ (w₁ ∙ sym w₂ ∙ ap (λ l. l ++ (stream rp₂).coming) (sym (ap text_of e)));
}
left-Alike (end_of_file, rp₁) (end_of_file, rp₂) coming (_, g₁) (_, g₂) e =
    rw (g₁, g₂) (record { closed₁ = refl; closed₂ = refl; same = refl })
left-Alike (line t n, rp₁) (end_of_file, rp₂) coming h₁ h₂ e = absurd (cc)
left-Alike (end_of_file, rp₁) (line u m, rp₂) coming h₁ h₂ e = absurd (cc)
left-Alike (read_error, rp₁) r₂ coming h₁ h₂ e = absurd h₁
left-Alike r₁ (read_error, rp₂) coming h₁ h₂ e = absurd h₂

-- They give the same line, and are alike behind it.
pub rio_readlineb-Alike :
    (rp₁ rp₂ : Rio) (m : ℕ)
    → Alike rp₁ rp₂
    → ((rio_readlineb rp₁ (m + 1)).0 ≡ (rio_readlineb rp₂ (m + 1)).0)
      × Alike (rio_readlineb rp₁ (m + 1)).1 (rio_readlineb rp₂ (m + 1)).1
rio_readlineb-Alike rp₁ rp₂ m a =
    let stops : (stream rp₁).stop ≡ (stream rp₂).stop =
      flow-is_closed rp₁.fd a.closed₁ ∙ sym (flow-is_closed rp₂.fd a.closed₂) in
    let same : (rio_readlineb rp₁ (m + 1)).0 ≡ (rio_readlineb rp₂ (m + 1)).0 =
      (rio_readlineb_lem rp₁ m).0
      ∙ ap₂ (λ c st. report (how m c) st (cut m c)) a.same stops
      ∙ sym (rio_readlineb_lem rp₂ m).0 in
    (
      same,
      left-Alike (rio_readlineb rp₁ (m + 1)) (rio_readlineb rp₂ (m + 1)) (stream rp₂).coming
          (subst (Conserves (rio_readlineb rp₁ (m + 1))) a.same
            (rio_readlineb-Conserves rp₁ (m + 1) a.closed₁))
          (rio_readlineb-Conserves rp₂ (m + 1) a.closed₂) same,
    )
