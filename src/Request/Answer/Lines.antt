-- ===== src/Request/Answer/Lines.antt =====
-- The answers as header lines, a blank line and a body.
use operating_systems_wet.Base.{
  ℕ, zero, suc, ◌+◌, ◌-◌, ◌/◌, ◌<◌, ◌^◌, ◌==◌, ◌≡◌, refl, true, false, ltb, lt→ltb, Bool-cases, inl,
  inr, List, [], ◌∷◌, ◌++◌, append_assoc, length, length-append, replicate, arith,
}
use operating_systems_wet.Base.Int.{ℤ, pos, negsuc, signed32}
use operating_systems_wet.Base.Bytes.{codes, same_text}
use operating_systems_wet.Base.Format.{digits, print_nat, print_int, print_06}
use operating_systems_wet.Base.Time.{Timeval}
use operating_systems_wet.Rio.Line.Text.{in_line, in_line-append}
use operating_systems_wet.Request.Stats.{ThreadsStats, print_timeval, stats_lines}
use operating_systems_wet.Request.Stats.Length.{
  IsStats, IsTime, length-print_timeval, length-print_int32,
}
use operating_systems_wet.Request.Headers.Spec.{is_header, all_headers, header_text}

-- A line that names a value, without its newline.
abbrev pub named : List ℕ → List ℕ → List ℕ
named label v = label ++ (v ++ (13 ∷ []))

abbrev pub stat_headers : ThreadsStats → Timeval → Timeval → List (List ℕ)
stat_headers t arrival dispatch =
    named (codes "Stat-Req-Arrival:: ") (print_timeval arrival)
    ∷ named (codes "Stat-Req-Dispatch:: ") (print_timeval dispatch)
    ∷ named (codes "Stat-Thread-Id:: ") (print_int (signed32 t.id))
    ∷ named (codes "Stat-Thread-Count:: ") (print_int (signed32 t.total_req))
    ∷ named (codes "Stat-Thread-Static:: ") (print_int (signed32 t.stat_req))
    ∷ named (codes "Stat-Thread-Dynamic:: ") (print_int (signed32 t.dynm_req))
    ∷ named (codes "Stat-Thread-Post:: ") (print_int (signed32 t.post_req))
    ∷ []

pub stats_lines-header_text :
    (t : ThreadsStats) (arrival dispatch : Timeval) (body : List ℕ)
    → stats_lines t arrival dispatch ++ body ≡ header_text (stat_headers t arrival dispatch) body
stats_lines-header_text t arrival dispatch body = simp append_assoc

in_line-digits : (fuel n : ℕ) → in_line (digits fuel n) ≡ true
unfolding digits
in_line-digits zero n = refl
in_line-digits (suc fuel) n = elim (Bool-cases (ltb n 10)) [
  | inl small ↦ rw small (ground arith)
  | inr large ↦
      rw large
        (in_line-append (digits fuel (n / 10)) _ (in_line-digits fuel (n / 10)) (ground arith))
]

pub in_line-print_nat : (n : ℕ) → in_line (print_nat n) ≡ true
unfolding print_nat
in_line-print_nat n = in_line-digits (suc n) n

in_line-print_int : (z : ℤ) → in_line (print_int z) ≡ true
unfolding print_int
in_line-print_int (pos n) = in_line-print_nat n
in_line-print_int (negsuc n) = in_line-print_nat (n + 1)

in_line-replicate : (n : ℕ) → in_line (replicate n b'0') ≡ true
in_line-replicate zero = refl
in_line-replicate (suc n) = in_line-replicate n

in_line-print_timeval : (t : Timeval) → in_line (print_timeval t) ≡ true
unfolding print_timeval print_06
in_line-print_timeval t = in_line-append (print_int t.tv_sec) _ (in_line-print_int t.tv_sec) (
    in_line-append (replicate (6 - length (print_nat t.tv_usec)) b'0') _
      (in_line-replicate (6 - length (print_nat t.tv_usec))) (in_line-print_nat t.tv_usec))

same_text-named : (c : ℕ) (s : List ℕ) → (c == 13) ≡ false → same_text (c ∷ s) (13 ∷ []) ≡ false
same_text-named c s h = ground arith

pub named-is_header :
    (c : ℕ) (label v : List ℕ)
    → in_line (c ∷ label) ≡ true
    → (c == 13) ≡ false
    → in_line v ≡ true
    → length label + length v < 8000
    → is_header (named (c ∷ label) v) ≡ true
named-is_header c label v h g i short =
    let lined : in_line (named (c ∷ label) v) ≡ true =
      in_line-append (c ∷ label) (v ++ (13 ∷ [])) h (in_line-append v (13 ∷ []) i refl) in
    let fits : ltb (length (named (c ∷ label) v)) 8191 ≡ true =
      lt→ltb _ _
        (omega (arith, length-append (c ∷ label) (v ++ (13 ∷ [])), length-append v (13 ∷ []))) in
    rw (lined, fits, same_text-named c (label ++ (v ++ (13 ∷ []))) g) refl

pub stat_headers-all_headers :
    (t : ThreadsStats) (arrival dispatch : Timeval)
    → IsStats t
    → IsTime arrival
    → IsTime dispatch
    → all_headers (stat_headers t arrival dispatch) ≡ true
stat_headers-all_headers t arrival dispatch st a d =
    rw
      (
        named-is_header b'S' (codes "tat-Req-Arrival:: ") (print_timeval arrival) refl refl
            (in_line-print_timeval arrival) (omega (arith, length-print_timeval arrival a)),
        named-is_header b'S' (codes "tat-Req-Dispatch:: ") (print_timeval dispatch) refl refl
            (in_line-print_timeval dispatch) (omega (arith, length-print_timeval dispatch d)),
        counter (codes "tat-Thread-Id:: ") t.id refl (omega arith) st.id,
        counter (codes "tat-Thread-Count:: ") t.total_req refl (omega arith) st.total_req,
        counter (codes "tat-Thread-Static:: ") t.stat_req refl (omega arith) st.stat_req,
        counter (codes "tat-Thread-Dynamic:: ") t.dynm_req refl (omega arith) st.dynm_req,
        counter (codes "tat-Thread-Post:: ") t.post_req refl (omega arith) st.post_req,
      )
      refl
  where
    counter :
        (label : List ℕ) (w : ℕ)
        → in_line label ≡ true
        → length label < 100
        → w < 2 ^ 32
        → is_header (named (b'S' ∷ label) (print_int (signed32 w))) ≡ true
    counter label w lined short small =
        named-is_header b'S' label (print_int (signed32 w)) lined refl
          (in_line-print_int (signed32 w)) (omega (arith, length-print_int32 w small))
