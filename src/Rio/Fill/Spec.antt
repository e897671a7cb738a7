-- ===== src/Rio/Fill/Spec.antt =====
-- What `rio_readn` and `rio_readnb` store of a stream.
use operating_systems_wet.Base.{
  ℕ, zero, suc, ◌+◌, ◌-◌, ◌≤◌, ◌<◌, ◌≡◌, refl, sym, ap, ◌∙◌, Bool, true, false, ◌||◌, if◌then◌else◌,
  leb, Bool-cases, inl, inr, List, [], ◌∷◌, ◌++◌, append_assoc, append-nil, take, drop, length,
  length-take, take-append-drop, Option, some, arith,
}
use operating_systems_wet.Rio.Read.{
  Event, chunk, interrupted, broken, Got, bytes, failed, read, Rio, refill, rio_read, rio_read_from,
  read_filled,
}
use operating_systems_wet.Rio.Read.Stream.{
  Stop, at_end, at_error, Stream, prepend, flow, stream, Fills, Fills-split, refill-Fills,
}
use operating_systems_wet.Rio.Fill.{
  Filled, filled, fill_error, fill_got, fill_from, interruptions, rio_readn, rio_readnb,
}

abbrev pub ends : Stop → Bool
ends at_end = true
ends at_error = false

-- `n` bytes, or fewer at the end of the file; -1 where an error comes first.
abbrev pub fetched : ℕ → Stream → Filled
fetched n s =
    if leb n (length s.coming) || ends s.stop then filled (take n s.coming) else fill_error

-- The same byte by byte, behind `text`.
abbrev taken : ℕ → List ℕ → Stop → List ℕ → Filled
taken zero coming stop text = filled text
taken (suc n) [] at_end text = filled text
taken (suc n) [] at_error text = fill_error
taken (suc n) (b ∷ bs) stop text = taken n bs stop (text ++ (b ∷ []))

leb-suc : (m n : ℕ) → leb m n ≡ leb (suc m) (suc n)
leb-suc m n = ground arith

taken_fetched :
    (n : ℕ) (coming : List ℕ) (stop : Stop) (text : List ℕ)
    → taken n coming stop text
      ≡ (if leb n (length coming) || ends stop then filled (text ++ take n coming) else fill_error)
taken_fetched zero coming stop text = elim (Bool-cases (leb 0 (length coming))) [
  | inl e ↦ rw e (ap filled (sym (append-nil text)))
  | inr e ↦ absurd (ground arith)
]
taken_fetched (suc n) [] at_end text = elim (Bool-cases (leb (suc n) 0)) [
  | inl e ↦ absurd (ground arith)
  | inr e ↦ rw e (ap filled (sym (append-nil text)))
]
taken_fetched (suc n) [] at_error text = elim (Bool-cases (leb (suc n) 0)) [
  | inl e ↦ absurd (ground arith)
  | inr e ↦ rw e
]
taken_fetched (suc n) (b ∷ bs) stop text =
    taken_fetched n bs stop (text ++ (b ∷ []))
    ∙ ap (λ l. if leb n (length bs) || ends stop then filled l else fill_error)
        (append_assoc text (b ∷ []) (take n bs))
    ∙ ap (λ x. if x || ends stop then filled (text ++ (b ∷ take n bs)) else fill_error)
        (leb-suc n (length bs))

taken-append :
    (n : ℕ) (xs ys : List ℕ) (stop : Stop) (text : List ℕ)
    → length xs ≤ n
    → taken n (xs ++ ys) stop text ≡ taken (n - length xs) ys stop (text ++ xs)
taken-append n [] ys stop text h =
    ap (λ l. taken n ys stop l) (sym (append-nil text))
    ∙ ap (λ k. taken k ys stop (text ++ [])) {y = n - 0} (omega arith)
taken-append zero (x ∷ xs) ys stop text h = absurd (omega arith)
taken-append (suc n) (x ∷ xs) ys stop text h =
    taken-append n xs ys stop (text ++ (x ∷ [])) (omega arith)
    ∙ ap (λ l. taken (n - length xs) ys stop l) (append_assoc text (x ∷ []) xs)
    ∙ ap (λ k. taken k ys stop (text ++ (x ∷ xs))) {y = suc n - suc (length xs)} (omega arith)

-- A reader, the stream behind it, and how often it can still be interrupted.
module _ {S : Type 0} (read_some : S → ℕ → Got × S) (strm : S → Stream) (weight : S → ℕ) where
  -- What one call for `n` bytes has to do with the stream.
  abbrev Serves : S → ℕ → Got × S → Type 0
  Serves s n (bytes [], s') = strm s ≡ record { coming = []; stop = at_end }
  Serves s n (bytes (b ∷ bs), s') =
      (length (b ∷ bs) ≤ n) × (strm s ≡ prepend (b ∷ bs) (strm s')) × (weight s' ≤ weight s)
  Serves s n (failed true, s') = (strm s ≡ strm s') × (weight s' < weight s)
  Serves s n (failed false, s') = strm s ≡ record { coming = []; stop = at_error }

  abbrev Fetches : ℕ → S → List ℕ → Option (Filled × S) → Type 0
  Fetches n s text r = (s' : S) × (r ≡ some (taken n (strm s).coming (strm s).stop text, s'))

  fill_got-Fetches :
      (fuel nleft : ℕ) (s : S) (text : List ℕ) (r : Got × S)
      → Serves s (suc nleft) r
      → suc nleft + weight s ≤ suc fuel
      → ((n : ℕ) (s' : S) (text' : List ℕ)
          → n + weight s' ≤ fuel
          → Fetches n s' text' (fill_from read_some fuel n s' text'))
      → Fetches (suc nleft) s text (fill_got (suc nleft) text (fill_from read_some fuel) r)
  fill_got-Fetches fuel nleft s text (bytes [], s') h enough next = (s', rw h)
  fill_got-Fetches fuel nleft s text (failed false, s') h enough next = (s', rw h)
  fill_got-Fetches fuel nleft s text (failed true, s') (same, less) enough next =
      rw same (next (suc nleft) s' text (omega arith))
  fill_got-Fetches fuel nleft s text (bytes (b ∷ bs), s') (short, same, less) enough next =
      let (s'', e) = next (suc nleft - length (b ∷ bs)) s' (text ++ (b ∷ bs)) (omega arith) in
      (
        s'',
        e
            ∙ ap (λ r. some (r, s''))
                (sym (taken-append (suc nleft) (b ∷ bs) (strm s').coming (strm s').stop text short)
                  ∙ ap (λ (x : Stream). taken (suc nleft) x.coming x.stop text) (sym same)),
      )

  fill_from-Fetches :
      ((s : S) (n : ℕ) → 0 < n → Serves s n (read_some s n))
      → (fuel n : ℕ) (s : S) (text : List ℕ) → n + weight s ≤ fuel
      → Fetches n s text (fill_from read_some fuel n s text)
  unfolding fill_from
  fill_from-Fetches serves fuel zero s text enough = (s, refl)
  fill_from-Fetches serves zero (suc n) s text enough = absurd (omega arith)
  fill_from-Fetches serves (suc fuel) (suc n) s text enough =
      fill_got-Fetches fuel n s text (read_some s (suc n)) (serves s (suc n) (omega arith)) enough
        (λ n' s' text' enough'. fill_from-Fetches serves fuel n' s' text' enough')

  fill-fetched :
      ((s : S) (n : ℕ) → 0 < n → Serves s n (read_some s n))
      → (fuel n : ℕ) (s : S) → n + weight s ≤ fuel
      → (s' : S) × (fill_from read_some fuel n s [] ≡ some (fetched n (strm s), s'))
  fill-fetched serves fuel n s enough =
      let (s', e) = fill_from-Fetches serves fuel n s [] enough in
      (s', e ∙ ap (λ r. some (r, s')) (taken_fetched n (strm s).coming (strm s).stop []))

read-Serves : (fd : List Event) (n : ℕ) → 0 < n → Serves read flow interruptions fd n (read fd n)
unfolding read
read-Serves [] n pos = refl
read-Serves (interrupted ∷ es) n pos = (refl, omega arith)
read-Serves (broken ∷ es) n pos = refl
read-Serves (chunk [] ∷ es) n pos = elim (Bool-cases (leb 0 n)) [
  | inl e ↦ rw e refl
  | inr e ↦ absurd (ground arith)
]
read-Serves (chunk (b ∷ bs) ∷ es) zero pos = absurd (omega arith)
read-Serves (chunk (b ∷ bs) ∷ es) (suc n) pos = elim (Bool-cases (leb (suc (length bs)) (suc n))) [
  | inl whole ↦ rw whole (ground arith, refl, omega arith)
  | inr part ↦ rw part (
    omega (arith, length-take n bs),
    Fills-split (suc n) (b ∷ bs) es (omega arith) (ground arith),
    omega arith,
  )
]

copy-Serves :
    (rp : Rio) (fd : List Event) (b : ℕ) (bs : List ℕ) (n : ℕ)
    → 0 < n
    → stream rp ≡ prepend (b ∷ bs) (flow fd)
    → Serves rio_read stream
        (λ _. 0)
        rp
        n
        (bytes (take n (b ∷ bs)), record { fd = fd; unread = drop n (b ∷ bs) })
copy-Serves rp fd b bs zero pos same = absurd (omega arith)
copy-Serves rp fd b bs (suc n) pos same = (
  omega (arith, length-take n bs),
  same
      ∙ ap (λ l. prepend (b ∷ l) (flow fd)) (sym (take-append-drop n bs))
      ∙ ap (λ l. record { coming = b ∷ l; stop = (flow fd).stop })
          (append_assoc (take n bs) (drop n bs) (flow fd).coming),
  omega arith,
)

read_filled-Serves :
    (rp : Rio) (r : Got × List Event) (n : ℕ)
    → 0 < n
    → Fills r (stream rp)
    → Serves rio_read stream (λ _. 0) rp n (read_filled r n)
read_filled-Serves rp (failed true, fd) n pos h = absurd h
read_filled-Serves rp (failed false, fd) n pos h = h
read_filled-Serves rp (bytes [], fd) n pos h = h
read_filled-Serves rp (bytes (b ∷ bs), fd) n pos h = copy-Serves rp fd b bs n pos h

rio_read-Serves : (rp : Rio) (n : ℕ) → 0 < n → Serves rio_read stream (λ _. 0) rp n (rio_read rp n)
unfolding rio_read
rio_read-Serves rp n pos = from rp.fd rp.unread
  where
    from :
        (fd : List Event) (unread : List ℕ)
        → Serves rio_read stream
            (λ _. 0)
            (record { fd = fd; unread = unread })
            n
            (rio_read_from fd unread n)
    from fd [] =
        read_filled-Serves (record { fd = fd; unread = [] }) (refill fd) n pos (refill-Fills fd)
    from fd (b ∷ bs) = copy-Serves (record { fd = fd; unread = b ∷ bs }) fd b bs n pos refl

-- `rio_readn` returns, and has stored the next `n` bytes of the descriptor, or all that are left before
-- the end of file; it returns -1 exactly where an error comes before that.
pub rio_readn_lem :
    (fd : List Event) (n : ℕ)
    → (fd' : List Event) × (rio_readn fd n ≡ some (fetched n (flow fd), fd'))
unfolding rio_readn
rio_readn_lem fd n =
    fill-fetched read flow interruptions read-Serves (n + interruptions fd) n fd (omega arith)

-- `rio_readnb` returns, and has stored the next `n` bytes of the stream, or all that are left before the
-- end of file; it returns -1 exactly where an error comes before that.
pub rio_readnb_lem :
    (rp : Rio) (n : ℕ) → (rp' : Rio) × (rio_readnb rp n ≡ some (fetched n (stream rp), rp'))
unfolding rio_readnb
rio_readnb_lem rp n = fill-fetched rio_read stream (λ _. 0) rio_read-Serves n n rp (omega arith)
