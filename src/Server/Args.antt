-- ===== src/Server/Args.antt =====
-- server.c: `getargs`, and `main` up to its accept loop.
pub mod Start
use operating_systems_wet.Base.{
  ℕ, zero, suc, ◌+◌, ◌-◌, ◌%◌, ◌^◌, ◌==◌, ◌&&◌, ◌||◌, leb, ltb, min, Bool, true, false,
  if◌then◌else◌, List, [], ◌∷◌, length,
}
use operating_systems_wet.Base.Int.{ℤ, pos, negsuc, signed32}
use operating_systems_wet.Base.Bytes.{codes, skip_space}
use operating_systems_wet.Base.Format.{value}
use operating_systems_wet.Segel.{
  Run, returned, exited, app_error, posix_error, open_listenfd, open_listenfd_wrapper,
}
use operating_systems_wet.Log.Buffer.{ServerLog, create_log}
use operating_systems_wet.Server.Queue.{Request, init_queue}
use operating_systems_wet.Server.Pool.{Server, start}

-- The digits that a text starts with.
abbrev pub digit_run : List ℕ → List ℕ
digit_run [] = []
digit_run (c ∷ s) = if leb b'0' c && leb c b'9' then c ∷ digit_run s else []

-- `strtol(s, NULL, 10)`: it stops at the ends of a `long`.
abbrev pub clamp_pos : ℕ → ℤ
clamp_pos v = pos (min v (2 ^ 63 - 1))

abbrev pub negate : ℕ → ℤ
negate zero = pos 0
negate (suc k) = negsuc k

abbrev pub strtol_sign : List ℕ → ℤ
strtol_sign [] = pos 0
strtol_sign (c ∷ s) =
    if c == b'-'
    then negate (min (value 0 (digit_run s)) (2 ^ 63))
    else if c == b'+'
    then clamp_pos (value 0 (digit_run s))
    else clamp_pos (value 0 (digit_run (c ∷ s)))

-- A `long` cast to an `int`.
abbrev pub to_int : ℤ → ℤ
to_int (pos n) = signed32 (n % 2 ^ 32)
to_int (negsuc k) = signed32 (2 ^ 32 - 1 - k % 2 ^ 32)

-- `atoi` of libc.
unfoldable pub atoi : List ℕ → ℤ
atoi s = to_int (strtol_sign (skip_space s))

-- `z < 1`.
abbrev pub below_one : ℤ → Bool
below_one (pos zero) = true
below_one (pos (suc n)) = false
below_one (negsuc n) = true

pub record Args : Type 0 where
  pub port : ℤ
  pub num_threads : ℤ
  pub que_size : ℤ

-- `argv` has `argc` texts, the first of them the program's name. The arguments behind the fourth are
-- not looked at.
unfoldable pub getargs : List (List ℕ) → Run Args
unfolding atoi
getargs (name ∷ port ∷ threads ∷ size ∷ more) =
    if below_one (atoi threads) || below_one (atoi size)
    then app_error (codes "invalid parameters")
    else returned (record { port = atoi port; num_threads = atoi threads; que_size = atoi size })
getargs _ = app_error (codes "Usage: ./server <port> <threads> <queue size>")

abbrev pub after : {A B : Type 0} → Run A → (A → Run B) → Run B
after (returned a) f = f a
after (exited kind msg) f = exited kind msg

abbrev pub count_of : ℤ → ℕ
count_of (pos n) = n
count_of (negsuc k) = 0

-- The test of `pthread_create`'s result; `rest` is the rest of the loop.
abbrev pub created : ℤ → Run (List ℕ) → Run (List ℕ)
created (pos zero) rest = rest
created (pos (suc n)) rest = posix_error (pos (suc n)) (codes "pthread_create failed")
created (negsuc n) rest = posix_error (negsuc n) (codes "pthread_create failed")

-- The loop that creates `left` threads, the next one with number `i`: `rcs i` is what its
-- `pthread_create` returns. The result is the `thread_id`s.
unfoldable pub create_threads : (ℕ → ℤ) → ℕ → ℕ → Run (List ℕ)
create_threads rcs zero i = returned []
create_threads rcs (suc left) i =
    let rest = after (create_threads rcs left (i + 1)) (λ ids. returned ((i + 1) ∷ ids)) in
    created (rcs i) rest

-- What `main` has made when it comes to its loop.
pub record Started : Type 0 where
  pub server : Server
  pub log : ServerLog
  pub thread_ids : List ℕ

-- `rcs` are the results of `socket`, `setsockopt`, `bind` and `listen`.
pub record ListenCalls : Type 0 where
  pub socket_rc : ℤ
  pub setsockopt_rc : ℤ
  pub bind_rc : ℤ
  pub listen_rc : ℤ

-- `memory n` is what `Malloc` hands out for `n` requests, and `malloc n` for `n` bytes.
unfoldable pub main_start :
    (ℕ → List Request) → (ℕ → List ℕ) → ListenCalls → (ℕ → ℤ) → List (List ℕ) → Run Started
unfolding getargs create_threads
main_start memory malloc listen rcs argv = after (getargs argv) (λ args.
    after
      (open_listenfd_wrapper
        (open_listenfd listen.socket_rc listen.setsockopt_rc listen.bind_rc
          listen.listen_rc).result)
      (λ listenfd.
        let capacity = count_of args.que_size in
        after (create_threads rcs (count_of args.num_threads) 0) (λ ids. returned (record {
          server = start (init_queue (memory capacity) capacity) (length ids);
          log = create_log malloc;
          thread_ids = ids;
        }))))
