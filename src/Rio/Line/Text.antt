-- ===== src/Rio/Line/Text.antt =====
-- A line that ends in a newline, read whole.
use operating_systems_wet.Base.{
  ℕ, zero, suc, ◌+◌, ◌<◌, ◌==◌, ◌≡◌, refl, subst, ap, ap₂, ◌∙◌, Bool, true, not, ◌&&◌, List, [],
  ◌∷◌, ◌++◌, drop, length, arith,
}
use operating_systems_wet.Base.Bytes.{c_string}
use operating_systems_wet.Rio.Read.{Rio}
use operating_systems_wet.Rio.Read.Stream.{Stop, Stream, stream}
use operating_systems_wet.Rio.Line.{line, rio_readlineb}
use operating_systems_wet.Rio.Line.Spec.{cut, newline, how, report, Leaves, rio_readlineb_lem}

-- Bytes that stand in a line of a C string.
abbrev pub in_line : List ℕ → Bool
in_line [] = true
in_line (c ∷ s) = not (c == b'\n') && not (c == 0) && in_line s

pub in_line-append : (w s : List ℕ) → in_line w ≡ true → in_line s ≡ true → in_line (w ++ s) ≡ true
in_line-append [] s h g = g
in_line-append (c ∷ w) s h g = ground (arith, in_line-append w s)

pub cut-in_line :
    (w rest : List ℕ) (m : ℕ)
    → in_line w ≡ true
    → length w < m
    → (cut m (w ++ (b'\n' ∷ rest)) ≡ w ++ (b'\n' ∷ [])) × (how m (w ++ (b'\n' ∷ rest)) ≡ newline)
cut-in_line w rest zero h less = absurd (omega arith)
cut-in_line [] rest (suc m) h less = (refl, refl)
cut-in_line (c ∷ w) rest (suc m) h less =
    let ih = cut-in_line w rest m (ground arith) (omega arith) in ground (arith, ih)

pub c_string-in_line :
    (w : List ℕ) → in_line w ≡ true → c_string (w ++ (b'\n' ∷ [])) ≡ w ++ (b'\n' ∷ [])
c_string-in_line [] h = refl
c_string-in_line (c ∷ w) h = ground (arith, c_string-in_line w)

drop-line : (w rest : List ℕ) → drop (length (w ++ (b'\n' ∷ []))) (w ++ (b'\n' ∷ rest)) ≡ rest
drop-line [] rest = refl
drop-line (c ∷ w) rest = drop-line w rest

-- A line that fits the buffer with its newline is stored whole, and the rest stays to be read.
pub rio_readlineb-in_line :
    (rp : Rio) (m : ℕ) (w rest : List ℕ) (stop : Stop)
    → in_line w ≡ true
    → length w < m
    → stream rp ≡ record { coming = w ++ (b'\n' ∷ rest); stop = stop }
    → (rp' : Rio) × (rio_readlineb rp (m + 1)
        ≡ (line (w ++ (b'\n' ∷ [])) (length (w ++ (b'\n' ∷ []))), rp'))
      × (stream rp' ≡ record { coming = rest; stop = stop })
rio_readlineb-in_line rp m w rest stop lined fits same =
    let (cuts, ends) = cut-in_line w rest m lined fits in
    let (got, left) =
      subst
        (λ (s : Stream).
          ((rio_readlineb rp (m + 1)).0 ≡ report (how m s.coming) s.stop (cut m s.coming))
          × Leaves (how m s.coming) (stream (rio_readlineb rp (m + 1)).1)
              (drop (length (cut m s.coming)) s.coming) s.stop)
        same (rio_readlineb_lem rp m) in
    (
      (rio_readlineb rp (m + 1)).1,
      ap (λ r. (r, (rio_readlineb rp (m + 1)).1)) (got ∙ ap₂ (λ h l. report h stop l) ends cuts),
      rest_of (stream (rio_readlineb rp (m + 1)).1) cuts ends left,
    )
  where
    rest_of :
        (s : Stream)
        → cut m (w ++ (b'\n' ∷ rest)) ≡ w ++ (b'\n' ∷ [])
        → how m (w ++ (b'\n' ∷ rest)) ≡ newline
        → Leaves
            (how m (w ++ (b'\n' ∷ rest)))
            s
            (drop (length (cut m (w ++ (b'\n' ∷ rest)))) (w ++ (b'\n' ∷ rest)))
            stop
        → s ≡ record { coming = rest; stop = stop }
    rest_of s cuts ends left =
        let plain = rw (ends, cuts) at left in
        plain ∙ ap (λ l. record { coming = l; stop = stop }) (drop-line w rest)
