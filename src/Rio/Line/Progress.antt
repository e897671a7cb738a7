-- ===== src/Rio/Line/Progress.antt =====
-- How far the functions that read get: each line uses up something that is still to come.
use operating_systems_wet.Base.{
  ℕ, zero, suc, ◌+◌, ◌-◌, ◌≤◌, ◌<◌, ◌==◌, ◌≡◌, refl, subst, Bool-cases, ◌⊎◌, inl, inr, List, [],
  ◌∷◌, ◌++◌, arith, length, leb, length-drop, length-take,
}
use operating_systems_wet.Rio.Read.{
  Rio, Event, chunk, interrupted, broken, Got, bytes, failed, read, rio_bufsize, refill,
  read_filled, rio_read_from, rio_read,
}
use operating_systems_wet.Rio.Line.{
  Line, line, end_of_file, read_error, readline_got, readline_from, rio_readlineb,
}

-- What is left to read: each byte, and each event, counts one.
abbrev pub pending_events : List Event → ℕ
pending_events [] = 0
pending_events (chunk bs ∷ es) = suc (length bs + pending_events es)
pending_events (interrupted ∷ es) = suc (pending_events es)
pending_events (broken ∷ es) = suc (pending_events es)

abbrev pub pending : Rio → ℕ
pending rp = length rp.unread + pending_events rp.fd

-- A connection that has been read to its end.
abbrev pub exhausted : Rio
exhausted = record { fd = []; unread = [] }

-- Filling the buffer takes nothing away, and uses up an event unless there is none.
abbrev Filled : Got × List Event → List Event → Type 0
Filled (bytes [], es') es = (pending_events es' < pending_events es) ⊎ (es' ≡ [])
Filled (bytes (b ∷ bs), es') es = suc (length bs) + pending_events es' ≤ pending_events es
Filled (failed eintr, es') es = Unit

Filled-interrupted :
    (r : Got × List Event) (es : List Event) → Filled r es → Filled r (interrupted ∷ es)
Filled-interrupted (bytes [], es') es (inl less) = inl (omega arith)
Filled-interrupted (bytes [], es') es (inr none_left) = inr none_left
Filled-interrupted (bytes (b ∷ bs), es') es h = omega arith
Filled-interrupted (failed eintr, es') es h = tt

refill-Filled : (es : List Event) → Filled (refill es) es
unfolding refill read
refill-Filled [] = inr refl
refill-Filled (interrupted ∷ es) = Filled-interrupted (refill es) es (refill-Filled es)
refill-Filled (broken ∷ es) = tt
refill-Filled (chunk [] ∷ es) = inl (omega arith)
refill-Filled (chunk (b ∷ bs) ∷ es) = elim (Bool-cases (leb (length (b ∷ bs)) rio_bufsize)) [
  | inl whole ↦ rw whole (omega arith)
  | inr part ↦ rw part (ground (arith, length-take 8191 bs, length-drop 8192 (b ∷ bs)))
]

-- A byte that is read is no longer to come, and the end of file uses up an event unless there is none.
abbrev Moved : Got × Rio → ℕ → Type 0
Moved (bytes [], rp') p = (pending rp' < p) ⊎ (rp' ≡ exhausted)
Moved (bytes (c ∷ _), rp') p = pending rp' < p
Moved (failed eintr, rp') p = Unit

read_filled-Moved :
    (r : Got × List Event) (es : List Event)
    → Filled r es
    → Moved (read_filled r 1) (pending_events es)
read_filled-Moved (bytes [], es') es (inl less) = inl (omega arith)
read_filled-Moved (bytes [], es') es (inr none_left) = inr (rw none_left)
read_filled-Moved (bytes (b ∷ bs), es') es h = omega arith
read_filled-Moved (failed eintr, es') es h = tt

rio_read-Moved : (rp : Rio) → Moved (rio_read rp 1) (pending rp)
unfolding rio_read
rio_read-Moved rp = from rp.fd rp.unread
  where
    from :
        (fd : List Event) (unread : List ℕ)
        → Moved (rio_read_from fd unread 1) (length unread + pending_events fd)
    from fd [] =
        let same : pending_events fd ≡ 0 + pending_events fd = omega arith in
        subst (Moved (read_filled (refill fd) 1)) same
          (read_filled-Moved (refill fd) fd (refill-Filled fd))
    from fd (b ∷ bs) = omega arith

-- The same of a line.
abbrev pub Advances : Line × Rio → ℕ → Type 0
Advances (line text n, rp') p = pending rp' < p
Advances (end_of_file, rp') p = (pending rp' < p) ⊎ (rp' ≡ exhausted)
Advances (read_error, rp') p = Unit

-- One round after a byte has been stored, if the later ones advance.
readline_got-Advances :
    (m n : ℕ) (r : Got × Rio) (p q : ℕ) (text : List ℕ)
    → 1 < n
    → q < p
    → Moved r q
    → ((rp' : Rio) (text' : List ℕ)
        → pending rp' < p
        → Advances (readline_from m (n + 1) rp' text') p)
    → Advances (readline_got n r text (readline_from m (n + 1))) p
unfolding readline_got
readline_got-Advances m n (bytes [], rp') p q text more less (inl gone) ih =
    elim (Bool-cases (n == 1)) [
      | inl one ↦ absurd (ground arith)
      | inr other ↦ rw other (omega arith)
    ]
readline_got-Advances m n (bytes [], rp') p q text more less (inr e) ih =
    elim (Bool-cases (n == 1)) [
      | inl one ↦ absurd (ground arith)
      | inr other ↦ rw (other, e) (omega arith)
    ]
readline_got-Advances m n (bytes (c ∷ cs), rp') p q text more less moved ih =
    elim (Bool-cases (c == b'\n')) [
      | inl nl ↦ rw nl (omega arith)
      | inr other ↦ rw other (ih rp' (text ++ (c ∷ [])) (omega arith))
    ]
readline_got-Advances m n (failed eintr, rp') p q text more less moved ih = tt

readline_from-Advances :
    (m n : ℕ) (rp : Rio) (text : List ℕ) (p : ℕ)
    → 1 < n
    → pending rp < p
    → Advances (readline_from m n rp text) p
unfolding readline_from
readline_from-Advances zero n rp text p more less = less
readline_from-Advances (suc m) n rp text p more less =
    readline_got-Advances m n (rio_read rp 1) p (pending rp) text more less (rio_read-Moved rp)
      (λ rp' text' less'. readline_from-Advances m (n + 1) rp' text' p (omega arith) less')

-- The first round.
readline_first-Advances :
    (m : ℕ) (r : Got × Rio) (p : ℕ)
    → Moved r p
    → Advances (readline_got 1 r [] (readline_from m 2)) p
unfolding readline_got
readline_first-Advances m (bytes [], rp') p moved = moved
readline_first-Advances m (bytes (c ∷ cs), rp') p moved = elim (Bool-cases (c == b'\n')) [
  | inl nl ↦ rw nl moved
  | inr other ↦ rw other (readline_from-Advances m 2 rp' (c ∷ []) p (omega arith) moved)
]
readline_first-Advances m (failed eintr, rp') p moved = tt

-- A call of `rio_readlineb` that does not fail leaves less to come, unless nothing was left.
pub rio_readlineb-Advances : (rp : Rio) (m : ℕ) → Advances (rio_readlineb rp (m + 2)) (pending rp)
unfolding rio_readlineb readline_from
rio_readlineb-Advances rp m =
    let e : m + 2 - 1 ≡ suc m = omega arith in
    rw e (readline_first-Advances m (rio_read rp 1) (pending rp) (rio_read-Moved rp))
