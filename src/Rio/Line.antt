-- ===== src/Rio/Line.antt =====
-- segel.c: `rio_readlineb`.
pub mod Spec
pub mod Progress
pub mod Text
pub mod Closed
pub mod Same
use operating_systems_wet.Base.{
  ℕ, zero, suc, ◌+◌, ◌-◌, ◌==◌, Bool, true, false, if◌then◌else◌, List, [], ◌∷◌, ◌++◌,
}
use operating_systems_wet.Rio.Read.{Event, Got, bytes, failed, Rio, rio_read}

-- What a call did: stored a line and a zero behind it and returned `n`; returned 0 and stored
-- nothing, at the end of file; or returned -1.
pub data Line : Type 0 where
  line : (text : List ℕ) (n : ℕ) → Line
  end_of_file : Line
  read_error : Line

-- What the loop does with the result of `rio_read`; `next_round` is the rest of the loop.
readline_got : ℕ → Got × Rio → List ℕ → (Rio → List ℕ → Line × Rio) → Line × Rio
readline_got n (bytes [], rp) text next_round =
    if n == 1 then (end_of_file, rp) else (line text n, rp)
readline_got n (bytes (c ∷ _), rp) text next_round =
    if c == b'\n' then (line (text ++ (c ∷ [])) n, rp) else next_round rp (text ++ (c ∷ []))
readline_got n (failed _, rp) text next_round = (read_error, rp)

-- The loop, with `rounds = maxlen - n` rounds left, after `text` has been stored.
readline_from : ℕ → ℕ → Rio → List ℕ → Line × Rio
unfolding readline_got rio_read
readline_from zero n rp text = (line text n, rp)
readline_from (suc rounds) n rp text =
    readline_got n (rio_read rp 1) text (readline_from rounds (n + 1))

unfoldable pub rio_readlineb : Rio → ℕ → Line × Rio
unfolding readline_from
rio_readlineb rp maxlen = readline_from (maxlen - 1) 1 rp []
