-- ===== src/Rio/Line/Closed.antt =====
-- `rio_readlineb` on a connection that delivers its bytes and then stays at its end.
use operating_systems_wet.Base.{
  ℕ, zero, suc, ◌+◌, ◌-◌, ◌<◌, ◌==◌, ◌≡◌, refl, subst, ap, ◌∙◌, Bool, true, false, leb, leb→gt,
  Bool-cases, inl, inr, List, [], ◌∷◌, ◌++◌, append_assoc, length, length-append, length-drop, drop,
  arith,
}
use operating_systems_wet.Rio.Read.{
  Rio, Event, chunk, interrupted, broken, Got, bytes, failed, read, rio_bufsize, refill,
  read_filled, rio_read_from, rio_read,
}
use operating_systems_wet.Rio.Read.Stream.{
  Stop, at_end, at_error, Stream, stream, next_of, Agrees, rio_read-Agrees, flow,
}
use operating_systems_wet.Rio.Line.{
  Line, line, end_of_file, read_error, readline_got, readline_from, rio_readlineb,
}
use operating_systems_wet.Rio.Line.Progress.{exhausted}

-- No error, and no end of file that bytes follow.
abbrev pub is_closed : List Event → Bool
is_closed [] = true
is_closed (interrupted ∷ es) = is_closed es
is_closed (broken ∷ es) = false
is_closed (chunk [] ∷ es) = false
is_closed (chunk (b ∷ bs) ∷ es) = is_closed es

pub flow-is_closed : (es : List Event) → is_closed es ≡ true → (flow es).stop ≡ at_end
flow-is_closed [] h = refl
flow-is_closed (interrupted ∷ es) h = flow-is_closed es h
flow-is_closed (broken ∷ es) h = absurd (cc)
flow-is_closed (chunk [] ∷ es) h = absurd (cc)
flow-is_closed (chunk (b ∷ bs) ∷ es) h = flow-is_closed es h

abbrev Refills : Got × List Event → Type 0
Refills (bytes [], es) = es ≡ []
Refills (bytes (b ∷ bs), es) = is_closed es ≡ true
Refills (failed eintr, es) = ⊥

is_closed-chunk :
    (bs : List ℕ) (es : List Event)
    → 0 < length bs
    → is_closed es ≡ true
    → is_closed (chunk bs ∷ es) ≡ true
is_closed-chunk [] es pos h = absurd (omega arith)
is_closed-chunk (b ∷ bs) es pos h = h

some_left : (bs : List ℕ) → leb (length bs) rio_bufsize ≡ false → 0 < length (drop rio_bufsize bs)
some_left bs more = omega (arith, length-drop rio_bufsize bs, leb→gt (length bs) rio_bufsize more)

refill-Refills : (es : List Event) → is_closed es ≡ true → Refills (refill es)
unfolding refill read
refill-Refills [] h = refl
refill-Refills (interrupted ∷ es) h = refill-Refills es h
refill-Refills (broken ∷ es) h = absurd (cc)
refill-Refills (chunk [] ∷ es) h = absurd (cc)
refill-Refills (chunk (b ∷ bs) ∷ es) h = elim (Bool-cases (leb (length (b ∷ bs)) rio_bufsize)) [
  | inl whole ↦ rw whole h
  | inr part ↦ rw part (is_closed-chunk (drop 8192 (b ∷ bs)) es (some_left (b ∷ bs) part) h)
]

abbrev Stays : Got × Rio → Type 0
Stays (bytes [], rp') = rp' ≡ exhausted
Stays (bytes (b ∷ bs), rp') = is_closed rp'.fd ≡ true
Stays (failed eintr, rp') = ⊥

read_filled-Stays : (r : Got × List Event) → Refills r → Stays (read_filled r 1)
read_filled-Stays (bytes [], es) h = rw h refl
read_filled-Stays (bytes (b ∷ bs), es) h = h
read_filled-Stays (failed eintr, es) h = absurd h

rio_read-Stays : (rp : Rio) → is_closed rp.fd ≡ true → Stays (rio_read rp 1)
unfolding rio_read
rio_read-Stays rp h = from rp.unread
  where
    from : (unread : List ℕ) → Stays (rio_read_from rp.fd unread 1)
    from [] = read_filled-Stays (refill rp.fd) (refill-Refills rp.fd h)
    from (b ∷ bs) = h

-- Nothing is lost: what was stored and what is left is what was to come; and the end of the file is
-- reported only there.
abbrev pub Conserves : Line × Rio → List ℕ → Type 0
Conserves (line text n, rp') coming =
    (is_closed rp'.fd ≡ true) × (text ++ (stream rp').coming ≡ coming)
Conserves (end_of_file, rp') coming = (coming ≡ []) × (rp' ≡ exhausted)
Conserves (read_error, rp') coming = ⊥

Conserves-end :
    (m n : ℕ) (rp : Rio) (text : List ℕ)
    → n ≡ length text + 1
    → rp ≡ exhausted
    → Conserves (readline_got n (bytes [], rp) text (readline_from m (n + 1))) (text ++ [])
unfolding readline_got
Conserves-end m n rp [] e gone = rw e (refl, gone)
Conserves-end m n rp (b ∷ text) e gone = elim (Bool-cases (n == 1)) [
  | inl one ↦ absurd (ground arith)
  | inr more ↦ rw (more, gone) (refl, refl)
]

Conserves-byte :
    (m n : ℕ) (c : ℕ) (rp : Rio) (text : List ℕ)
    → is_closed rp.fd ≡ true
    → Conserves
        (readline_from m (n + 1) rp (text ++ (c ∷ [])))
        ((text ++ (c ∷ [])) ++ (stream rp).coming)
    → Conserves
        (readline_got n (bytes (c ∷ []), rp) text (readline_from m (n + 1)))
        (text ++ (c ∷ (stream rp).coming))
unfolding readline_got
Conserves-byte m n c rp text h ih = elim (Bool-cases (c == b'\n')) [
  | inl nl ↦ rw nl (h, append_assoc text (c ∷ []) (stream rp).coming)
  | inr other ↦ rw other (
      subst (Conserves (readline_from m (n + 1) rp (text ++ (c ∷ []))))
        (append_assoc text (c ∷ []) (stream rp).coming) ih)
]

Conserves-got :
    (m n : ℕ) (g : Got) (rp : Rio) (text coming : List ℕ) (stop : Stop)
    → n ≡ length text + 1
    → Agrees (g, rp) (next_of coming stop)
    → Stays (g, rp)
    → ((c : ℕ)
        → is_closed rp.fd ≡ true
        → Conserves
            (readline_from m (n + 1) rp (text ++ (c ∷ [])))
            ((text ++ (c ∷ [])) ++ (stream rp).coming))
    → Conserves (readline_got n (g, rp) text (readline_from m (n + 1))) (text ++ coming)
unfolding readline_got
Conserves-got m n (bytes []) rp text [] stop e h stays ih = Conserves-end m n rp text e stays
Conserves-got m n (bytes []) rp text (b ∷ bs) stop e h stays ih = absurd h
Conserves-got m n (bytes (c ∷ [])) rp text [] at_end e h stays ih = absurd h
Conserves-got m n (bytes (c ∷ [])) rp text [] at_error e h stays ih = absurd h
Conserves-got m n (bytes (c ∷ [])) rp text (b ∷ bs) stop e (same, left) stays ih =
    subst
      (λ l.
        Conserves (readline_got n (bytes (c ∷ []), rp) text (readline_from m (n + 1))) (text ++ l))
      (ap (λ x. c ∷ x) (ap (λ (s : Stream). s.coming) left) ∙ ap (λ x. x ∷ bs) same)
      (Conserves-byte m n c rp text stays (ih c stays))
Conserves-got m n (bytes (c ∷ d ∷ r)) rp text [] at_end e h stays ih = absurd h
Conserves-got m n (bytes (c ∷ d ∷ r)) rp text [] at_error e h stays ih = absurd h
Conserves-got m n (bytes (c ∷ d ∷ r)) rp text (b ∷ bs) stop e h stays ih = absurd h
Conserves-got m n (failed eintr) rp text coming stop e h stays ih = absurd stays

readline_from-Conserves :
    (m n : ℕ) (rp : Rio) (text : List ℕ)
    → n ≡ length text + 1
    → is_closed rp.fd ≡ true
    → Conserves (readline_from m n rp text) (text ++ (stream rp).coming)
unfolding readline_from
readline_from-Conserves zero n rp text e h = (h, refl)
readline_from-Conserves (suc m) n rp text e h =
    Conserves-got m n (rio_read rp 1).0 (rio_read rp 1).1 text (stream rp).coming (stream rp).stop e
      (rio_read-Agrees rp) (rio_read-Stays rp h)
      (λ c h'.
        readline_from-Conserves m (n + 1) (rio_read rp 1).1 (text ++ (c ∷ []))
          (omega (arith, length-append text (c ∷ []))) h')

pub rio_readlineb-Conserves :
    (rp : Rio) (maxlen : ℕ)
    → is_closed rp.fd ≡ true
    → Conserves (rio_readlineb rp maxlen) (stream rp).coming
unfolding rio_readlineb
rio_readlineb-Conserves rp maxlen h = readline_from-Conserves (maxlen - 1) 1 rp [] (omega arith) h
