-- ===== src/Rio/Read.antt =====
-- segel.c: `rio_t`, `rio_readinitb` and `rio_read`, over a descriptor whose calls of `read` are a list.
pub mod Stream
use operating_systems_wet.Base.{
  ℕ, zero, suc, ◌-◌, Bool, true, false, if◌then◌else◌, leb, List, [], ◌∷◌, take, drop, length,
}

-- What the next calls of `read` on a descriptor meet. The bytes of a chunk may be handed out by
-- several calls; an empty chunk is a call that returns 0. Behind the last event is the end of file.
pub data Event : Type 0 where
  chunk : (bytes : List ℕ) → Event
  interrupted : Event  -- -1, with `errno == EINTR`
  broken : Event  -- -1, with another `errno`

-- What a call returned: the bytes that it stored, or -1 and whether `errno` is EINTR.
pub data Got : Type 0 where
  bytes : List ℕ → Got
  failed : (eintr : Bool) → Got

-- `read(fd, buf, n)`.
unfoldable pub read : List Event → ℕ → Got × List Event
read [] n = (bytes [], [])
read (interrupted ∷ es) n = (failed true, es)
read (broken ∷ es) n = (failed false, es)
read (chunk bs ∷ es) n =
    if leb (length bs) n then (bytes bs, es) else (bytes (take n bs), chunk (drop n bs) ∷ es)

abbrev pub rio_bufsize : ℕ
rio_bufsize = 8192

-- `rio_t`: `unread` is the `rio_cnt` bytes from `rio_bufptr` on, none where `rio_cnt` is negative.
pub record Rio : Type 0 where
  pub fd : List Event
  pub unread : List ℕ

unfoldable pub rio_readinitb : List Event → Rio
rio_readinitb fd = record { fd = fd; unread = [] }

-- The loop that fills an empty buffer: a call of `read` for each interruption, and one more. That it
-- is the loop of the code is `Stream.refill_lem`.
unfoldable pub refill : List Event → Got × List Event
unfolding read
refill [] = read [] rio_bufsize
refill (interrupted ∷ es) = refill es
refill (broken ∷ es) = read (broken ∷ es) rio_bufsize
refill (chunk bs ∷ es) = read (chunk bs ∷ es) rio_bufsize

-- `min(n, rio_cnt)` bytes from the buffer.
abbrev pub copy_out : List Event → List ℕ → ℕ → Got × Rio
copy_out fd unread n = (bytes (take n unread), record { fd = fd; unread = drop n unread })

abbrev pub read_filled : Got × List Event → ℕ → Got × Rio
read_filled (failed eintr, fd) n = (failed eintr, record { fd = fd; unread = [] })
read_filled (bytes [], fd) n = (bytes [], record { fd = fd; unread = [] })
read_filled (bytes (b ∷ bs), fd) n = copy_out fd (b ∷ bs) n

abbrev pub rio_read_from : List Event → List ℕ → ℕ → Got × Rio
rio_read_from fd [] n = read_filled (refill fd) n
rio_read_from fd (b ∷ bs) n = copy_out fd (b ∷ bs) n

unfoldable pub rio_read : Rio → ℕ → Got × Rio
unfolding refill
rio_read rp n = rio_read_from rp.fd rp.unread n
