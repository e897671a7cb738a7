-- ===== src/Rio/Fill.antt =====
-- segel.c: `rio_readn` and `rio_readnb`, which have the same loop, over `read` and over `rio_read`.
pub mod Spec
use operating_systems_wet.Base.{
  ℕ, zero, suc, ◌+◌, ◌-◌, true, false, List, [], ◌∷◌, ◌++◌, Option, none, some, length,
}
use operating_systems_wet.Rio.Read.{
  Event, chunk, interrupted, broken, Got, bytes, failed, read, Rio, rio_read,
}

-- The bytes that were stored, whose number is returned, or -1.
pub data Filled : Type 0 where
  filled : List ℕ → Filled
  fill_error : Filled

module _ {S : Type 0} where
  -- What the loop does with the result of one call; `next_round` is the rest of the loop.
  abbrev pub fill_got :
      ℕ → List ℕ → (ℕ → S → List ℕ → Option (Filled × S)) → Got × S → Option (Filled × S)
  fill_got nleft text next_round (failed true, s) = next_round nleft s text
  fill_got nleft text next_round (failed false, s) = some (fill_error, s)
  fill_got nleft text next_round (bytes [], s) = some (filled text, s)
  fill_got nleft text next_round (bytes (b ∷ bs), s) =
      next_round (nleft - length (b ∷ bs)) s (text ++ (b ∷ bs))

  -- `none` is fuel that ran out.
  unfoldable pub fill_from : (S → ℕ → Got × S) → ℕ → ℕ → S → List ℕ → Option (Filled × S)
  fill_from read_some fuel zero s text = some (filled text, s)
  fill_from read_some zero (suc nleft) s text = none
  fill_from read_some (suc fuel) (suc nleft) s text =
      fill_got (suc nleft) text (fill_from read_some fuel) (read_some s (suc nleft))

-- The calls of `read` that are interrupted.
abbrev pub interruptions : List Event → ℕ
interruptions [] = 0
interruptions (chunk bs ∷ es) = interruptions es
interruptions (interrupted ∷ es) = suc (interruptions es)
interruptions (broken ∷ es) = interruptions es

-- Each round stores a byte or more, or is interrupted.
unfoldable pub rio_readn : List Event → ℕ → Option (Filled × List Event)
unfolding fill_from read
rio_readn fd n = fill_from read (n + interruptions fd) n fd []

unfoldable pub rio_readnb : Rio → ℕ → Option (Filled × Rio)
unfolding fill_from rio_read
rio_readnb rp n = fill_from rio_read n n rp []
