-- ===== src/Base/Time.antt =====
-- `struct timeval` and `timersub`, of sys/time.h.
use operating_systems_wet.Base.{
  ℕ, ◌+◌, ◌-◌, ◌*◌, ◌<◌, ◌≡◌, true, false, ltb→lt, ltb→ge, ltb, if◌then◌else◌, arith, Bool-cases,
  inl, inr,
}
use operating_systems_wet.Base.Int.{ℤ, pos, ◌-ℤ◌, pos_part, neg_part, int_laws}

-- The seconds are a `long`, negative where a difference is.
pub record Timeval : Type 0 where
  pub tv_sec : ℤ
  pub tv_usec : ℕ

-- `timersub(&a, &b, &result)`: a borrow where `a` has fewer microseconds.
unfoldable pub timersub : Timeval → Timeval → Timeval
timersub a b =
    if ltb a.tv_usec b.tv_usec
    then record {
      tv_sec = a.tv_sec -ℤ b.tv_sec -ℤ pos 1;
      tv_usec = a.tv_usec + 1000000 - b.tv_usec;
    }
    else record { tv_sec = a.tv_sec -ℤ b.tv_sec; tv_usec = a.tv_usec - b.tv_usec }

-- `d + b = a` in microseconds, with the negative parts on the other side.
abbrev pub SumsTo : Timeval → Timeval → Timeval → Type 0
SumsTo d b a =
    (pos_part d.tv_sec + pos_part b.tv_sec + neg_part a.tv_sec) * 1000000 + d.tv_usec + b.tv_usec
    ≡ (neg_part d.tv_sec + neg_part b.tv_sec + pos_part a.tv_sec) * 1000000 + a.tv_usec

-- For two times in normal form `timersub` gives their difference in normal form.
pub timersub_lem :
    (a b : Timeval)
    → a.tv_usec < 1000000
    → b.tv_usec < 1000000
    → ((timersub a b).tv_usec < 1000000) × SumsTo (timersub a b) b a
unfolding timersub
timersub_lem a b ha hb = elim (Bool-cases (ltb a.tv_usec b.tv_usec)) [
  | inl borrow ↦ rw borrow (omega (arith, ltb→lt a.tv_usec b.tv_usec borrow), with_borrow borrow)
  | inr enough ↦ rw enough (omega arith, without enough)
]
  where
    with_borrow :
        ltb a.tv_usec b.tv_usec ≡ true
        → SumsTo
            (record {
              tv_sec = a.tv_sec -ℤ b.tv_sec -ℤ pos 1;
              tv_usec = a.tv_usec + 1000000 - b.tv_usec;
            })
            b
            a
    with_borrow h = omega (int_laws, ltb→lt a.tv_usec b.tv_usec h)

    without :
        ltb a.tv_usec b.tv_usec ≡ false
        → SumsTo (record { tv_sec = a.tv_sec -ℤ b.tv_sec; tv_usec = a.tv_usec - b.tv_usec }) b a
    without h = omega (int_laws, ltb→ge a.tv_usec b.tv_usec h)
