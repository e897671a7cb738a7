-- ===== src/Request/Stats.antt =====
-- request.h: the counters of a worker thread; request.c: `append_stats`, which prints them.
pub mod Length
use operating_systems_wet.Base.{ℕ, ◌+◌, ◌-◌, ◌%◌, ◌^◌, ◌<◌, ◌≡◌, List, [], ◌∷◌, ◌++◌, arith, length}
use operating_systems_wet.Base.Int.{signed32}
use operating_systems_wet.Base.Bytes.{codes}
use operating_systems_wet.Base.Format.{print_int, print_06}
use operating_systems_wet.Base.Time.{Timeval}

-- `struct Threads_stats`: each field is the bit pattern of an `int`.
pub record ThreadsStats : Type 0 where
  pub id : ℕ
  pub stat_req : ℕ
  pub dynm_req : ℕ
  pub post_req : ℕ
  pub total_req : ℕ

-- `++` and `--` on an `int` that wraps.
abbrev pub inc : ℕ → ℕ
inc n = (n + 1) % 2 ^ 32

abbrev pub dec : ℕ → ℕ
dec n = (n + 2 ^ 32 - 1) % 2 ^ 32

abbrev pub crlf : List ℕ
crlf = 13 ∷ 10 ∷ []

-- `"%ld.%06ld"`.
unfoldable pub print_timeval : Timeval → List ℕ
unfolding print_int print_06
print_timeval t = print_int t.tv_sec ++ (b'.' ∷ print_06 t.tv_usec)

abbrev pub stats_lines : ThreadsStats → Timeval → Timeval → List ℕ
stats_lines t arrival dispatch =
    codes "Stat-Req-Arrival:: "
    ++ (print_timeval arrival
        ++ (crlf
            ++ (codes "Stat-Req-Dispatch:: "
                ++ (print_timeval dispatch
                    ++ (crlf
                        ++ (codes "Stat-Thread-Id:: "
                            ++ (print_int (signed32 t.id)
                                ++ (crlf
                                    ++ (codes "Stat-Thread-Count:: "
                                        ++ (print_int (signed32 t.total_req)
                                            ++ (crlf
                                                ++ (codes "Stat-Thread-Static:: "
                                                    ++ (print_int (signed32 t.stat_req)
                                                        ++ (crlf
                                                            ++ (codes "Stat-Thread-Dynamic:: "
                                                            ++ (print_int (signed32 t.dynm_req)
                                                            ++ (crlf
                                                            ++ (codes "Stat-Thread-Post:: "
                                                            ++ (print_int (signed32 t.post_req)
                                                            ++ (crlf ++ crlf))))))))))))))))))))

-- The text of `buf` afterwards, and the `offset` that is returned.
unfoldable pub append_stats : List ℕ → ThreadsStats → Timeval → Timeval → List ℕ × ℕ
unfolding print_timeval
append_stats buf t arrival dispatch =
    let text = buf ++ stats_lines t arrival dispatch in (text, length text)
