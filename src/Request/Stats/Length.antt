-- ===== src/Request/Stats/Length.antt =====
-- The statistics fit every buffer that they are printed into.
use operating_systems_wet.Base.{
  ℕ, ◌+◌, ◌^◌, ◌≤◌, ◌<◌, ◌≡◌, refl, List, ◌∷◌, arith, length, length-append,
}
use operating_systems_wet.Base.Int.{pos_part, neg_part, signed32}
use operating_systems_wet.Base.Format.{print_int, print_06, length-print_int, length-print_06}
use operating_systems_wet.Base.Time.{Timeval}
use operating_systems_wet.Request.Stats.{ThreadsStats, inc, dec, print_timeval, append_stats}

-- A `long` of seconds, and microseconds in normal form.
pub record IsTime (t : Timeval) : Type 0 where
  pub sec_max : pos_part t.tv_sec < 2 ^ 63
  pub sec_min : neg_part t.tv_sec ≤ 2 ^ 63
  pub usec : t.tv_usec < 1000000

-- Bit patterns of 32 bits.
pub record IsStats (t : ThreadsStats) : Type 0 where
  pub id : t.id < 2 ^ 32
  pub stat_req : t.stat_req < 2 ^ 32
  pub dynm_req : t.dynm_req < 2 ^ 32
  pub post_req : t.post_req < 2 ^ 32
  pub total_req : t.total_req < 2 ^ 32

pub length-print_timeval : (t : Timeval) → IsTime t → length (print_timeval t) ≤ 27
unfolding print_timeval
length-print_timeval t v = omega (
  arith,
  length-append (print_int t.tv_sec) (b'.' ∷ print_06 t.tv_usec),
  length-print_06 t.tv_usec v.usec,
  length-print_int 18 t.tv_sec (omega arith) (omega arith),
)

pub length-print_int32 : (w : ℕ) → w < 2 ^ 32 → length (print_int (signed32 w)) ≤ 11
length-print_int32 w h = length-print_int 9 (signed32 w) (ground arith) (ground arith)

-- For counters that are bit patterns of 32 bits and times in normal form, `append_stats` returns
-- the length of the text, and has added at most 269 bytes to it.
pub length-append_stats :
    (buf : List ℕ) (t : ThreadsStats) (arrival dispatch : Timeval)
    → IsStats t
    → IsTime arrival
    → IsTime dispatch
    → let (text, offset) = append_stats buf t arrival dispatch in
      (offset ≡ length text) × (length text ≤ length buf + 269)
unfolding append_stats
length-append_stats buf t arrival dispatch s a d = (
  refl,
  omega (
    arith,
    length-append {0},
    length-print_timeval arrival a,
    length-print_timeval dispatch d,
    length-print_int32 t.id s.id,
    length-print_int32 t.total_req s.total_req,
    length-print_int32 t.stat_req s.stat_req,
    length-print_int32 t.dynm_req s.dynm_req,
    length-print_int32 t.post_req s.post_req,
  ),
)

-- `--` after `++` restores a counter.
pub dec-inc : (n : ℕ) → n < 2 ^ 32 → dec (inc n) ≡ n
dec-inc n h = omega arith
