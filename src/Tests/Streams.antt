-- ===== src/Tests/Streams.antt =====
-- A connection that delivers one line in two parts, and one that takes two bytes at a time.
use operating_systems_wet.Base.{
  ℕ, ◌+◌, ◌≡◌, refl, List, [], ◌∷◌, some, true, false, arith, length, drop, inl, inr,
}
use operating_systems_wet.Rio.Read.{Rio, chunk, interrupted}
use operating_systems_wet.Rio.Read.Stream.{stream}
use operating_systems_wet.Rio.Line.{rio_readlineb}
use operating_systems_wet.Rio.Line.Spec.{cut, how, report, Leaves, rio_readlineb_lem}
use operating_systems_wet.Rio.Write.{
  Accepts, sent_all, rio_writen, Delivers, rio_writen-Delivers, rio_writen_total,
}
use operating_systems_wet.Rio.Fill.{rio_readnb}
use operating_systems_wet.Rio.Fill.Spec.{fetched, rio_readnb_lem}

abbrev slow : Rio
slow = record {
  fd = chunk (b'G' ∷ b'E' ∷ []) ∷ interrupted ∷ chunk (b'T' ∷ b'\n' ∷ b'x' ∷ []) ∷ [];
  unread = [];
}

rio_readlineb_lem_example :
    ((rio_readlineb slow (9 + 1)).0
      ≡ report (how 9 (stream slow).coming) (stream slow).stop (cut 9 (stream slow).coming))
    × Leaves
        (how 9 (stream slow).coming)
        (stream (rio_readlineb slow (9 + 1)).1)
        (drop (length (cut 9 (stream slow).coming)) (stream slow).coming)
        (stream slow).stop
rio_readlineb_lem_example = rio_readlineb_lem slow 9

-- An interruption, and then two bytes at a time.
abbrev two_by_two : List Accepts
two_by_two =
    record { count = 0; eintr = true }
    ∷ record { count = 2; eintr = false }
    ∷ record { count = 2; eintr = false }
    ∷ record { count = 2; eintr = false }
    ∷ []

abbrev abc : List ℕ
abc = 97 ∷ 98 ∷ 99 ∷ []

writes_abc : rio_writen two_by_two abc ≡ some (sent_all abc)
unfolding rio_writen
writes_abc = refl

rio_writen-Delivers_example : Delivers abc (sent_all abc)
rio_writen-Delivers_example = rio_writen-Delivers two_by_two abc {r = sent_all abc} writes_abc

rio_writen_total_example : rio_writen two_by_two abc ≡ some (sent_all abc)
rio_writen_total_example =
    rio_writen_total two_by_two abc
      (inr refl, (inl (omega arith), (inl (omega arith), (inl (omega arith), tt)))) (omega arith)

rio_readnb_lem_example : (rp' : Rio) × (rio_readnb slow 9 ≡ some (fetched 9 (stream slow), rp'))
rio_readnb_lem_example = rio_readnb_lem slow 9
