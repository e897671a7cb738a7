-- ===== src/Rio/Read/Stream.antt =====
-- The bytes that are still to come, whatever the sizes in which `read` hands them out.
use operating_systems_wet.Base.{
  ℕ, zero, suc, ◌≡◌, refl, sym, ap, ◌∙◌, true, false, leb, Bool-cases, inl, inr, List, [], ◌∷◌,
  ◌++◌, append_assoc, take, drop, length, take-append-drop, length-drop, ◌<◌, arith,
}
use operating_systems_wet.Rio.Read.{
  Event, chunk, interrupted, broken, Got, bytes, failed, read, rio_bufsize, Rio, refill, rio_read,
  read_filled, rio_read_from,
}

pub data Stop : Type 0 where
  at_end : Stop
  at_error : Stop

-- The bytes up to the end of file or an error.
pub record Stream : Type 0 where
  pub coming : List ℕ
  pub stop : Stop

abbrev pub prepend : List ℕ → Stream → Stream
prepend bs s = record { coming = bs ++ s.coming; stop = s.stop }

abbrev pub flow_chunk : List ℕ → Stream → Stream
flow_chunk [] rest = record { coming = []; stop = at_end }
flow_chunk (b ∷ bs) rest = prepend (b ∷ bs) rest

abbrev pub flow : List Event → Stream
flow [] = record { coming = []; stop = at_end }
flow (interrupted ∷ es) = flow es
flow (broken ∷ es) = record { coming = []; stop = at_error }
flow (chunk bs ∷ es) = flow_chunk bs (flow es)

abbrev pub stream : Rio → Stream
stream rp = prepend rp.unread (flow rp.fd)

-- One round of the loop of `rio_read`: call `read`, and again if that was interrupted.
abbrev again : Got × List Event → Got × List Event
again (failed true, es) = refill es
again (failed false, es) = (failed false, es)
again (bytes bs, es) = (bytes bs, es)

-- `refill` is the loop of `rio_read`.
pub refill_lem : (es : List Event) → refill es ≡ again (read es rio_bufsize)
unfolding refill
refill_lem [] = refl
refill_lem (interrupted ∷ es) = refl
refill_lem (broken ∷ es) = refl
refill_lem (chunk bs ∷ es) = elim (Bool-cases (leb (length bs) rio_bufsize)) [
  | inl e ↦ rw e
  | inr e ↦ rw e
]

-- What the next byte of a stream is.
pub data Next : Type 0 where
  byte : ℕ → Stream → Next
  finished : Stop → Next

abbrev pub next_of : List ℕ → Stop → Next
next_of [] stop = finished stop
next_of (b ∷ bs) stop = byte b (record { coming = bs; stop = stop })

abbrev pub next : Stream → Next
next s = next_of s.coming s.stop

-- `rio_read(rp, &c, 1)` agrees with the stream: it stores the stream's next byte and leaves the rest,
-- returns 0 at its end, or -1 with an `errno` other than EINTR at an error.
abbrev pub Agrees : Got × Rio → Next → Type 0
Agrees (bytes (c ∷ []), rp') (byte b s) = (c ≡ b) × (stream rp' ≡ s)
Agrees (bytes [], _) (finished at_end) = Unit
Agrees (failed false, _) (finished at_error) = Unit
Agrees _ _ = ⊥

-- What filling the buffer has to do with the stream.
abbrev pub Fills : Got × List Event → Stream → Type 0
Fills (failed true, _) s = ⊥
Fills (failed false, _) s = s ≡ record { coming = []; stop = at_error }
Fills (bytes [], _) s = s ≡ record { coming = []; stop = at_end }
Fills (bytes (b ∷ bs), es) s = s ≡ prepend (b ∷ bs) (flow es)

flow_chunk-prepend : (bs : List ℕ) (s : Stream) → 0 < length bs → flow_chunk bs s ≡ prepend bs s
flow_chunk-prepend [] s h = absurd (omega arith)
flow_chunk-prepend (b ∷ bs) s h = refl

-- A chunk that is longer than the buffer is handed out in two parts.
pub Fills-split :
    (n : ℕ) (bs : List ℕ) (es : List Event)
    → 0 < n
    → n < length bs
    → Fills (bytes (take n bs), chunk (drop n bs) ∷ es) (flow (chunk bs ∷ es))
Fills-split zero bs es pos h = absurd (omega arith)
Fills-split (suc n) [] es pos h = absurd (omega arith)
Fills-split (suc n) (b ∷ bs) es pos h =
    ap (λ (l : List ℕ). prepend (b ∷ l) (flow es)) (sym (take-append-drop n bs))
    ∙ ap (λ (l : List ℕ). record { coming = b ∷ l; stop = (flow es).stop })
        (append_assoc (take n bs) (drop n bs) (flow es).coming)
    ∙ ap (prepend (b ∷ take n bs))
        (sym (flow_chunk-prepend (drop n bs) (flow es) (omega (arith, length-drop n bs))))

pub Fills-whole : (bs : List ℕ) (es : List Event) → Fills (bytes bs, es) (flow (chunk bs ∷ es))
Fills-whole [] es = refl
Fills-whole (b ∷ bs) es = refl

pub refill-Fills : (es : List Event) → Fills (refill es) (flow es)
unfolding refill
refill-Fills [] = refl
refill-Fills (interrupted ∷ es) = refill-Fills es
refill-Fills (broken ∷ es) = refl
refill-Fills (chunk bs ∷ es) = elim (Bool-cases (leb (length bs) rio_bufsize)) [
  | inl e ↦ rw e (Fills-whole bs es)
  | inr e ↦ rw e (Fills-split rio_bufsize bs es (omega arith) (ground arith))
]

read_filled-Agrees :
    (g : Got) (es : List Event) (s : Stream)
    → Fills (g, es) s
    → Agrees (read_filled (g, es) 1) (next s)
read_filled-Agrees (failed true) es s h = absurd h
read_filled-Agrees (failed false) es s h = rw h tt
read_filled-Agrees (bytes []) es s h = rw h tt
read_filled-Agrees (bytes (b ∷ bs)) es s h = rw h (refl, refl)

-- A call of `rio_read` for one byte agrees with the stream, however `read` cuts it into pieces and
-- however often it is interrupted.
pub rio_read-Agrees : (rp : Rio) → Agrees (rio_read rp 1) (next (stream rp))
unfolding rio_read
rio_read-Agrees rp = from rp.fd rp.unread
  where
    from :
        (fd : List Event) (unread : List ℕ)
        → Agrees (rio_read_from fd unread 1) (next (prepend unread (flow fd)))
    from fd [] = read_filled-Agrees (refill fd).0 (refill fd).1 (flow fd) (refill-Fills fd)
    from fd (b ∷ bs) = (refl, refl)
