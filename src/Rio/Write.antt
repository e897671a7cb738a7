-- ===== src/Rio/Write.antt =====
-- segel.c: `rio_writen`, and what it hands to a descriptor.
use mathlib.Core.Option.{some-injective}
use operating_systems_wet.Base.{
  ℕ, ◌+◌, ◌≤◌, ◌<◌, ◌==◌, ◌≡◌, refl, sym, subst, ◌⊎◌, ap, ◌∙◌, Bool, true, if◌then◌else◌,
  Bool-cases, ==_iff, inl, inr, List, [], ◌∷◌, ◌++◌, append_assoc, append-nil, Option, none, some,
  take, drop, length, length-drop, take-append-drop, min, arith,
}

-- A call of `write`: how many bytes the descriptor takes at most, 0 for a call that fails, and
-- whether `errno` is EINTR afterwards.
pub record Accepts : Type 0 where
  pub count : ℕ
  pub eintr : Bool

-- What was sent, and the result: `n`, or -1.
pub data Written : Type 0 where
  sent_all : (sent : List ℕ) → Written
  write_error : (sent : List ℕ) → Written

-- The loop, with the bytes left and those sent. `none` is a call that waits for ever, where the list
-- of the descriptor's answers ends.
unfoldable pub writen_from : List Accepts → List ℕ → List ℕ → Option Written
writen_from script [] sent = some (sent_all sent)
writen_from [] (b ∷ bs) sent = none
writen_from (w ∷ script) (b ∷ bs) sent =
    let n = min w.count (length (b ∷ bs)) in
    let retry = writen_from script (b ∷ bs) sent in
    let go_on = writen_from script (drop n (b ∷ bs)) (sent ++ take n (b ∷ bs)) in
    if n == 0 then (if w.eintr then retry else some (write_error sent)) else go_on

unfoldable pub rio_writen : List Accepts → List ℕ → Option Written
unfolding writen_from
rio_writen script usrbuf = writen_from script usrbuf []

-- A result that fits the buffer: all of it in order, or a prefix of it and an error.
abbrev pub Delivers : List ℕ → Written → Type 0
Delivers buf (sent_all sent) = sent ≡ buf
Delivers buf (write_error sent) = (rest : List ℕ) × (sent ++ rest ≡ buf)

writen_from-Delivers :
    (script : List Accepts) (bs sent buf : List ℕ) {r : Written}
    → sent ++ bs ≡ buf
    → writen_from script bs sent ≡ some r
    → Delivers buf r
unfolding writen_from
writen_from-Delivers script [] sent buf e h =
    subst (Delivers buf) (some-injective _ _ h) (sym (append-nil sent) ∙ e)
writen_from-Delivers [] (b ∷ bs) sent buf e h = absurd (cc)
writen_from-Delivers (w ∷ script) (b ∷ bs) sent buf e h =
    let n = min w.count (length (b ∷ bs)) in
    elim (Bool-cases (n == 0)) [
      | inl none_taken ↦ elim (Bool-cases w.eintr) [
        | inl i ↦ writen_from-Delivers script (b ∷ bs) sent buf e (rw (none_taken, i) at h)
        | inr f ↦ subst (Delivers buf) (some-injective _ _ (rw (none_taken, f) at h)) (b ∷ bs, e)
      ]
      | inr taken ↦
          writen_from-Delivers script (drop n (b ∷ bs)) (sent ++ take n (b ∷ bs)) buf
            (append_assoc sent (take n (b ∷ bs)) (drop n (b ∷ bs))
              ∙ ap (λ l. sent ++ l) (take-append-drop n (b ∷ bs))
              ∙ e)
            (rw taken at h)
    ]

-- Where `rio_writen` returns, it has sent the bytes of the buffer in order, each once: all of them
-- if it returns their number, and a first part of them if it returns -1.
pub rio_writen-Delivers :
    (script : List Accepts) (usrbuf : List ℕ) {r : Written}
    → rio_writen script usrbuf ≡ some r
    → Delivers usrbuf r
unfolding rio_writen
rio_writen-Delivers script usrbuf h = writen_from-Delivers script usrbuf [] usrbuf refl h

-- A descriptor that never fails: each call takes a byte or more, or is interrupted.
abbrev pub Progresses : List Accepts → Type 0
Progresses [] = Unit
Progresses (w ∷ script) = ((0 < w.count) ⊎ (w.eintr ≡ true)) × Progresses script

-- The number of calls that take something.
abbrev pub takers : List Accepts → ℕ
takers [] = 0
takers (w ∷ script) = (if w.count == 0 then 0 else 1) + takers script

interrupted_if_none :
    (w : Accepts) → w.count ≡ 0 → (0 < w.count) ⊎ (w.eintr ≡ true) → w.eintr ≡ true
interrupted_if_none w z (inl pos) = absurd (omega arith)
interrupted_if_none w z (inr i) = i

writen_from_total :
    (script : List Accepts) (bs sent : List ℕ)
    → Progresses script
    → length bs ≤ takers script
    → writen_from script bs sent ≡ some (sent_all (sent ++ bs))
unfolding writen_from
writen_from_total script [] sent p h = ap (λ l. some (sent_all l)) (sym (append-nil sent))
writen_from_total [] (b ∷ bs) sent p h = absurd (omega arith)
writen_from_total (w ∷ script) (b ∷ bs) sent p h =
    let n = min w.count (length (b ∷ bs)) in
    elim (Bool-cases (n == 0)) [
      | inl none_taken ↦
          rw (none_taken, interrupted_if_none w (omega (arith, (==_iff n 0).0 none_taken)) p.0)
            (writen_from_total script (b ∷ bs) sent p.1 (ground arith))
      | inr taken ↦ rw taken (
          writen_from_total script (drop n (b ∷ bs)) (sent ++ take n (b ∷ bs)) p.1
            (ground (arith, length-drop n (b ∷ bs)))
          ∙ ap (λ l. some (sent_all l)) (append_assoc sent (take n (b ∷ bs)) (drop n (b ∷ bs)))
          ∙ ap (λ l. some (sent_all (sent ++ l))) (take-append-drop n (b ∷ bs)))
    ]

-- On a descriptor where each call takes a byte or more or is interrupted, and as many calls as
-- there are bytes take something, `rio_writen` returns and has sent everything.
pub rio_writen_total :
    (script : List Accepts) (usrbuf : List ℕ)
    → Progresses script
    → length usrbuf ≤ takers script
    → rio_writen script usrbuf ≡ some (sent_all usrbuf)
unfolding rio_writen
rio_writen_total script usrbuf p h = writen_from_total script usrbuf [] p h
