-- ===== src/Base/Threads.antt =====
-- Threads as a list of program counters: weighted counts, and what a write at one index changes.
use operating_systems_wet.Base.{
  ap, ◌⊎◌, inl, inr, ℕ, zero, suc, ◌+◌, ◌≤◌, ◌<◌, ◌≡◌, refl, List, [], ◌∷◌, some, arith, dec_lt,
  get_elem?, set,
}

module _ {ℓ} {A : Type ℓ} (w : A → ℕ) where
  -- The weights of all threads, added up.
  abbrev pub weigh : List A → ℕ
  weigh [] = 0
  weigh (p ∷ ps) = w p + weigh ps

  -- One thread moves: only its own weight is exchanged.
  pub weigh-set :
      (ps : List A) (i : ℕ) {p : A} (p' : A)
      → get_elem? ps i ≡ some p
      → weigh (set ps i p') + w p ≡ weigh ps + w p'
  weigh-set [] i p' h = ground arith
  weigh-set (q ∷ ps) zero p' h = ground arith
  weigh-set (q ∷ ps) (suc i) p' h = omega (arith, weigh-set ps i p' h)

  pub weigh_pos : (ps : List A) (i : ℕ) {p : A} → get_elem? ps i ≡ some p → w p ≤ weigh ps
  weigh_pos [] i h = ground arith
  weigh_pos (q ∷ ps) zero h = ground arith
  weigh_pos (q ∷ ps) (suc i) h = omega (arith, weigh_pos ps i h)

  -- A thread with a weight, where the sum is not 0.
  pub weigh_find :
      (ps : List A) → 0 < weigh ps → (i : ℕ) × (p : A) × (get_elem? ps i ≡ some p) × (0 < w p)
  weigh_find [] h = absurd (omega arith)
  weigh_find (p ∷ ps) h = elim (dec_lt 0 (w p)) [
    | yes here ↦ (0, p, refl, here)
    | no zero_here ↦ let (i, q, at, pos) = weigh_find ps (omega arith) in (suc i, q, at, pos)
  ]

module _ {ℓ} {A : Type ℓ} (w : A → ℕ) where
  -- Two threads with a weight are one where the sum is at most 1.
  pub weigh_unique :
      (ps : List A) (i j : ℕ) {p q : A}
      → weigh w ps ≤ 1
      → get_elem? ps i ≡ some p
      → get_elem? ps j ≡ some q
      → 0 < w p
      → 0 < w q
      → i ≡ j
  weigh_unique [] i j h at at' hp hq = absurd (cc)
  weigh_unique (r ∷ ps) zero zero h at at' hp hq = refl
  weigh_unique (r ∷ ps) zero (suc j) {p} {q} h at at' hp hq =
      absurd (ground (arith, weigh_pos w ps j at'))
  weigh_unique (r ∷ ps) (suc i) zero {p} {q} h at at' hp hq =
      absurd (ground (arith, weigh_pos w ps i at))
  weigh_unique (r ∷ ps) (suc i) (suc j) h at at' hp hq =
      ap suc (weigh_unique ps i j (omega arith) at at' hp hq)

-- After a write at one index a thread is what was written, or what it was.
pub get_elem?-set_or {ℓ} :
    {A : Type ℓ} (ps : List A) (i j : ℕ) (p' : A) {q : A}
    → get_elem? (set ps i p') j ≡ some q
    → (q ≡ p') ⊎ (get_elem? ps j ≡ some q)
get_elem?-set_or [] i j p' e = inr e
get_elem?-set_or (p ∷ ps) zero zero p' e = inl (cc)
get_elem?-set_or (p ∷ ps) zero (suc j) p' e = inr e
get_elem?-set_or (p ∷ ps) (suc i) zero p' e = inr e
get_elem?-set_or (p ∷ ps) (suc i) (suc j) p' e = get_elem?-set_or ps i j p' e

-- The same, with the place.
pub get_elem?-set_at {ℓ} :
    {A : Type ℓ} (ps : List A) (i j : ℕ) (p' : A) {q : A}
    → get_elem? (set ps i p') j ≡ some q
    → ((j ≡ i) × (q ≡ p')) ⊎ (get_elem? ps j ≡ some q)
get_elem?-set_at [] i j p' e = inr e
get_elem?-set_at (p ∷ ps) zero zero p' e = inl (refl, cc)
get_elem?-set_at (p ∷ ps) zero (suc j) p' e = inr e
get_elem?-set_at (p ∷ ps) (suc i) zero p' e = inr e
get_elem?-set_at (p ∷ ps) (suc i) (suc j) p' {q} e = elim (get_elem?-set_at ps i j p' e) [
  | inl (same, is_new) ↦ inl (ap suc same, is_new)
  | inr old ↦ inr old
]

-- The thread that has moved is where it moved to.
pub get_elem?-set_here {ℓ} :
    {A : Type ℓ} (ps : List A) (i : ℕ) {p : A} (p' : A)
    → get_elem? ps i ≡ some p
    → get_elem? (set ps i p') i ≡ some p'
get_elem?-set_here [] i p' e = absurd (cc)
get_elem?-set_here (q ∷ ps) zero p' e = refl
get_elem?-set_here (q ∷ ps) (suc i) p' e = get_elem?-set_here ps i p' e
