-- ===== src/Base/Format.antt =====
-- The numbers that `sprintf` prints.
use native.Mathlib.Nat.{pow-suc}
use operating_systems_wet.Base.{
  ℕ, zero, suc, ◌+◌, ◌-◌, ◌*◌, ◌/◌, ◌%◌, ◌^◌, ◌≤◌, ◌<◌, ◌≡◌, refl, subst, ◌∙◌, ltb, if◌then◌else◌,
  Bool-cases, inl, inr, List, [], ◌∷◌, ◌++◌, arith, length, length-append, replicate,
  length-replicate,
}
use operating_systems_wet.Base.Int.{ℤ, pos, negsuc, pos_part, neg_part}

-- The decimal digits. Each round divides by ten, so `suc n` rounds are enough.
unfoldable pub digits : ℕ → ℕ → List ℕ
digits zero n = []
digits (suc fuel) n =
    let rest = digits fuel (n / 10) in
    if ltb n 10 then (b'0' + n) ∷ [] else rest ++ ((b'0' + n % 10) ∷ [])

-- `%lu`, and `%d` or `%ld` of a number that is not negative.
unfoldable pub print_nat : ℕ → List ℕ
unfolding digits
print_nat n = digits (suc n) n

-- `%d` and `%ld`.
unfoldable pub print_int : ℤ → List ℕ
unfolding print_nat
print_int (pos n) = print_nat n
print_int (negsuc n) = b'-' ∷ print_nat (n + 1)

-- `%06ld` of a number that is not negative.
unfoldable pub print_06 : ℕ → List ℕ
unfolding print_nat
print_06 n = replicate (6 - length (print_nat n)) b'0' ++ print_nat n

-- The number that digits spell behind `acc`.
abbrev pub value : ℕ → List ℕ → ℕ
value acc [] = acc
value acc (c ∷ s) = value (acc * 10 + (c - b'0')) s

value-append :
    (acc : ℕ) (s : List ℕ) (c : ℕ) → value acc (s ++ (c ∷ [])) ≡ value acc s * 10 + (c - b'0')
value-append acc [] c = refl
value-append acc (d ∷ s) c = value-append (acc * 10 + (d - b'0')) s c

value-digits : (fuel n : ℕ) → n < fuel → value 0 (digits fuel n) ≡ n
unfolding digits
value-digits zero n h = absurd (omega arith)
value-digits (suc fuel) n h = elim (Bool-cases (ltb n 10)) [
  | inl small ↦ rw small (omega arith)
  | inr large ↦ rw large (
      value-append 0 (digits fuel (n / 10)) (b'0' + n % 10)
      ∙ omega (arith, value-digits fuel (n / 10) (ground arith)))
]

-- What is printed of a number reads back as that number.
pub value-print_nat : (n : ℕ) → value 0 (print_nat n) ≡ n
unfolding print_nat
value-print_nat n = value-digits (suc n) n (omega arith)

tenth_lt : (m n : ℕ) → n < m * 10 → n / 10 < m
tenth_lt m n h = omega arith

length-digits : (k fuel n : ℕ) → n < 10 ^ suc k → length (digits fuel n) ≤ suc k
unfolding digits
length-digits k zero n h = omega arith
length-digits zero (suc fuel) n h = ground arith
length-digits (suc k) (suc fuel) n h = elim (Bool-cases (ltb n 10)) [
  | inl small ↦ rw small (omega arith)
  | inr large ↦ rw large (
      omega (
        arith,
        length-append (digits fuel (n / 10)) ((b'0' + n % 10) ∷ []),
        length-digits k fuel (n / 10) (tenth_lt (10 ^ suc k) n (rw (pow-suc 10 (suc k)) at h)),
      ))
]

-- A number below 10^(k+1) takes at most k+1 digits.
pub length-print_nat : (k n : ℕ) → n < 10 ^ suc k → length (print_nat n) ≤ suc k
unfolding print_nat
length-print_nat k n h = length-digits k (suc n) n h

-- `%06ld` of fewer than a million is six characters wide.
pub length-print_06 : (n : ℕ) → n < 10 ^ 6 → length (print_06 n) ≡ 6
unfolding print_06
length-print_06 n h =
    length-append (replicate (6 - length (print_nat n)) b'0') (print_nat n)
    ∙ omega
        (arith, length-replicate {A = ℕ} (6 - length (print_nat n)) b'0', length-print_nat 5 n h)

-- A `long` takes at most 20 characters, with its sign.
pub length-print_int :
    (k : ℕ) (z : ℤ)
    → pos_part z < 10 ^ suc k
    → neg_part z < 10 ^ suc k
    → length (print_int z) ≤ suc (suc k)
unfolding print_int
length-print_int k (pos n) h g = omega (arith, length-print_nat k n h)
length-print_int k (negsuc n) h g =
    omega (arith, length-print_nat k (n + 1) (subst (λ m. m < 10 ^ suc k) (omega arith) g))
