-- ===== src/Rio/Line/Spec.antt =====
-- `rio_readlineb` reads the next line of the stream, however `read` delivers it.
use operating_systems_wet.Base.{
  ℕ, zero, suc, ◌+◌, ◌-◌, ◌==◌, ◌≡◌, refl, sym, subst, ap, ap₂, ◌∙◌, true, false, if◌then◌else◌,
  Bool-cases, inl, inr, List, [], ◌∷◌, ◌++◌, append_assoc, append-nil, drop, length, length-append,
  arith,
}
use operating_systems_wet.Rio.Read.{Got, bytes, failed, Rio, rio_read}
use operating_systems_wet.Rio.Read.Stream.{
  Stop, at_end, at_error, Stream, stream, next_of, next, Agrees, rio_read-Agrees,
}
use operating_systems_wet.Rio.Line.{
  Line, line, end_of_file, read_error, readline_from, readline_got, rio_readlineb,
}

-- At most `m` bytes, up to and with the first newline.
abbrev pub cut : ℕ → List ℕ → List ℕ
cut zero bs = []
cut (suc m) [] = []
cut (suc m) (b ∷ bs) = if b == b'\n' then b ∷ [] else b ∷ cut m bs

-- Why the line ends there.
pub data How : Type 0 where
  newline : How
  filled : How
  ran_out : How

abbrev pub how : ℕ → List ℕ → How
how zero bs = filled
how (suc m) [] = ran_out
how (suc m) (b ∷ bs) = if b == b'\n' then newline else how m bs

-- What the function returns: the number of bytes behind a newline, but one more than that where the
-- buffer is full or the file ends.
abbrev pub report : How → Stop → List ℕ → Line
report newline _ text = line text (length text)
report filled _ text = line text (length text + 1)
report ran_out at_end [] = end_of_file
report ran_out at_end (b ∷ text) = line (b ∷ text) (length (b ∷ text) + 1)
report ran_out at_error _ = read_error

-- The bytes behind the line stay in the stream.
abbrev pub Leaves : How → Stream → List ℕ → Stop → Type 0
Leaves ran_out s rest stop = Unit
Leaves _ s rest stop = s ≡ record { coming = rest; stop = stop }

abbrev Reads : Line × Rio → ℕ → List ℕ → List ℕ → Stop → Type 0
Reads r m text coming stop =
    (r.0 ≡ report (how m coming) stop (text ++ cut m coming))
    × Leaves (how m coming) (stream r.1) (drop (length (cut m coming)) coming) stop

Reads-end :
    (m n : ℕ) (rp : Rio) (text : List ℕ) (k : Rio → List ℕ → Line × Rio)
    → n ≡ length text + 1
    → Reads (readline_got n (bytes [], rp) text k) (suc m) text [] at_end
unfolding readline_got
Reads-end m n rp [] k e = rw e (refl, tt)
Reads-end m n rp (b ∷ text) k e = elim (Bool-cases (n == 1)) [
  | inl one ↦ absurd (ground arith)
  | inr more ↦
      rw more
        (ap₂ line (sym (append-nil (b ∷ text))) (omega (arith, ap length (append-nil text))), tt)
]

Reads-byte :
    (m n : ℕ) (c : ℕ) (rp : Rio) (text coming : List ℕ) (stop : Stop)
    → n ≡ length text + 1
    → stream rp ≡ record { coming = coming; stop = stop }
    → Reads (readline_from m (n + 1) rp (text ++ (c ∷ []))) m (text ++ (c ∷ [])) coming stop
    → Reads
        (readline_got n (bytes (c ∷ []), rp) text (readline_from m (n + 1)))
        (suc m)
        text
        (c ∷ coming)
        stop
unfolding readline_got
Reads-byte m n c rp text coming stop e same ih = elim (Bool-cases (c == b'\n')) [
  | inl nl ↦ rw nl (ap (line (text ++ (c ∷ []))) (omega (arith, length-append text (c ∷ []))), same)
  | inr other ↦
      rw other
        (ih.0 ∙ ap (report (how m coming) stop) (append_assoc text (c ∷ []) (cut m coming)), ih.1)
]

-- One round: whatever `rio_read` returned, if it agrees with the stream.
Reads-got :
    (m n : ℕ) (g : Got) (rp : Rio) (text coming : List ℕ) (stop : Stop)
    → n ≡ length text + 1
    → Agrees (g, rp) (next_of coming stop)
    → ((c : ℕ) (s : Stream)
        → stream rp ≡ s
        → Reads
            (readline_from m (n + 1) rp (text ++ (c ∷ [])))
            m
            (text ++ (c ∷ []))
            s.coming
            s.stop)
    → Reads (readline_got n (g, rp) text (readline_from m (n + 1))) (suc m) text coming stop
unfolding readline_got
Reads-got m n (bytes []) rp text [] at_end e h ih =
    Reads-end m n rp text (readline_from m (n + 1)) e
Reads-got m n (bytes []) rp text [] at_error e h ih = absurd h
Reads-got m n (bytes []) rp text (b ∷ bs) stop e h ih = absurd h
Reads-got m n (bytes (c ∷ [])) rp text [] at_end e h ih = absurd h
Reads-got m n (bytes (c ∷ [])) rp text [] at_error e h ih = absurd h
Reads-got m n (bytes (c ∷ [])) rp text (b ∷ bs) stop e (same, left) ih =
    subst
      (λ x.
        Reads (readline_got n (bytes (c ∷ []), rp) text (readline_from m (n + 1))) (suc m) text
          (x ∷ bs) stop)
      same
      (Reads-byte m n c rp text bs stop e left (ih c (record { coming = bs; stop = stop }) left))
Reads-got m n (bytes (c ∷ d ∷ r)) rp text [] at_end e h ih = absurd h
Reads-got m n (bytes (c ∷ d ∷ r)) rp text [] at_error e h ih = absurd h
Reads-got m n (bytes (c ∷ d ∷ r)) rp text (b ∷ bs) stop e h ih = absurd h
Reads-got m n (failed true) rp text [] at_end e h ih = absurd h
Reads-got m n (failed true) rp text [] at_error e h ih = absurd h
Reads-got m n (failed true) rp text (b ∷ bs) stop e h ih = absurd h
Reads-got m n (failed false) rp text [] at_end e h ih = absurd h
Reads-got m n (failed false) rp text [] at_error e h ih = (refl, tt)
Reads-got m n (failed false) rp text (b ∷ bs) stop e h ih = absurd h

readline_from-Reads :
    (m n : ℕ) (rp : Rio) (text : List ℕ) (s : Stream)
    → n ≡ length text + 1
    → stream rp ≡ s
    → Reads (readline_from m n rp text) m text s.coming s.stop
unfolding readline_from
readline_from-Reads zero n rp text s e same =
    (ap₂ line (sym (append-nil text)) (e ∙ ap (λ l. length l + 1) (sym (append-nil text))), same)
readline_from-Reads (suc m) n rp text s e same =
    Reads-got m n (rio_read rp 1).0 (rio_read rp 1).1 text s.coming s.stop e
      (subst (λ x. Agrees (rio_read rp 1) (next x)) same (rio_read-Agrees rp))
      (λ c s' left.
        readline_from-Reads m (n + 1) (rio_read rp 1).1 (text ++ (c ∷ [])) s'
          (omega (arith, length-append text (c ∷ []))) left)

-- `rio_readlineb` on a buffer of `maxlen` bytes stores the next line of the stream, cut at
-- `maxlen - 1` bytes, reports it as `report` says, and leaves the bytes behind it to be read. So its
-- result depends on the bytes of the stream alone, not on how `read` delivers or interrupts them.
pub rio_readlineb_lem :
    (rp : Rio) (m : ℕ)
    → let (r, rp') = rio_readlineb rp (m + 1) in
      let s = stream rp in
      (r ≡ report (how m s.coming) s.stop (cut m s.coming))
      × Leaves (how m s.coming) (stream rp') (drop (length (cut m s.coming)) s.coming) s.stop
unfolding rio_readlineb
rio_readlineb_lem rp m =
    let e : m + 1 - 1 ≡ m = omega arith in
    rw e (readline_from-Reads m 1 rp [] (stream rp) (omega arith) refl)
