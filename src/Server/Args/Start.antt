-- ===== src/Server/Args/Start.antt =====
-- How the server starts.
use operating_systems_wet.Base.{
  ℕ, zero, suc, ◌+◌, ◌-◌, ◌^◌, ◌%◌, ◌<◌, ◌≡◌, refl, ap, ◌∙◌, subst, false, ltb, ltb→lt, Bool-cases,
  inl, inr, List, [], ◌∷◌, arith, length,
}
use operating_systems_wet.Base.Int.{ℤ, pos, negsuc, signed32}
use operating_systems_wet.Segel.{Run, returned, exited}
use operating_systems_wet.Segel.{open_listenfd, open_listenfd_wrapper}
use operating_systems_wet.Log.Buffer.{create_log}
use operating_systems_wet.Log.Buffer.Bounds.{content, IsValid, AllocatesExactly, create_log-IsValid}
use operating_systems_wet.Log.Whole.{IsQuiet}
use operating_systems_wet.Server.Queue.{Request, init_queue}
use operating_systems_wet.Server.Pool.{start, started}
use operating_systems_wet.Server.Pool.Invariant.{PoolInv}
use operating_systems_wet.Server.Pool.Safety.{Reach-PoolInv}
use operating_systems_wet.Server.Args.{
  Args, to_int, strtol_sign, below_one, atoi, getargs, created, create_threads, after, count_of,
  Started, ListenCalls, main_start,
}
use operating_systems_wet.Base.Bytes.{skip_space}

-- A positive `int`.
abbrev pub IsCount : ℤ → Type 0
IsCount z = (n : ℕ) × (z ≡ pos n) × (0 < n) × (n < 2 ^ 31)

IsCount-signed32 : (w : ℕ) → below_one (signed32 w) ≡ false → IsCount (signed32 w)
IsCount-signed32 zero h = absurd (cc)
IsCount-signed32 (suc w) h = elim (Bool-cases (ltb (suc w) (2 ^ 31))) [
  | inl small ↦ rw small (suc w, refl, omega arith, ltb→lt (suc w) (2 ^ 31) small)
  | inr large ↦ absurd (cc)
]

IsCount-to_int : (z : ℤ) → below_one (to_int z) ≡ false → IsCount (to_int z)
IsCount-to_int (pos n) h = IsCount-signed32 (n % 2 ^ 32) h
IsCount-to_int (negsuc k) h = IsCount-signed32 (2 ^ 32 - 1 - k % 2 ^ 32) h

IsCount-atoi : (s : List ℕ) → below_one (atoi s) ≡ false → IsCount (atoi s)
unfolding atoi
IsCount-atoi s h = IsCount-to_int (strtol_sign (skip_space s)) h

-- Arguments that `getargs` accepts have a positive number of threads and a positive queue size, both in
-- the range of an `int`.
pub getargs_lem :
    (argv : List (List ℕ)) (args : Args)
    → getargs argv ≡ returned args
    → IsCount args.num_threads × IsCount args.que_size
unfolding getargs
getargs_lem [] args h = absurd (cc)
getargs_lem (name ∷ []) args h = absurd (cc)
getargs_lem (name ∷ p ∷ []) args h = absurd (cc)
getargs_lem (name ∷ p ∷ t ∷ []) args h = absurd (cc)
getargs_lem (name ∷ p ∷ t ∷ q ∷ more) args h = elim (Bool-cases (below_one (atoi t))) [
  | inl low ↦ absurd (ground arith)
  | inr ok ↦ elim (Bool-cases (below_one (atoi q))) [
    | inl low ↦ absurd (ground arith)
    | inr fine ↦
        let e : record { port = atoi p; num_threads = atoi t; que_size = atoi q } ≡ args =
          ground arith in
        (
          subst (λ a. IsCount a.num_threads) e (IsCount-atoi t ok),
          subst (λ a. IsCount a.que_size) e (IsCount-atoi q fine),
        )
  ]
]

after-returned :
    {A B : Type 0} (r : Run A) (f : A → Run B) {b : B}
    → after r f ≡ returned b
    → (a : A) × (r ≡ returned a) × (f a ≡ returned b)
after-returned (returned a) f h = (a, refl, h)
after-returned (exited kind msg) f h = absurd (cc)

-- `n` numbers from `i` on.
abbrev pub numbered : ℕ → ℕ → List ℕ
numbered i zero = []
numbered i (suc n) = i ∷ numbered (i + 1) n

length-numbered : (i n : ℕ) → length (numbered i n) ≡ n
length-numbered i zero = refl
length-numbered i (suc n) = ap suc (length-numbered (i + 1) n)

created-returned :
    (rc : ℤ) (rest : Run (List ℕ)) {ids : List ℕ}
    → created rc rest ≡ returned ids
    → rest ≡ returned ids
created-returned (pos zero) rest h = h
created-returned (pos (suc n)) rest h = absurd (cc)
created-returned (negsuc n) rest h = absurd (cc)

create_threads-numbered :
    (rcs : ℕ → ℤ) (left i : ℕ) {ids : List ℕ}
    → create_threads rcs left i ≡ returned ids
    → ids ≡ numbered (i + 1) left
unfolding create_threads
create_threads-numbered rcs zero i h = cc
create_threads-numbered rcs (suc left) i {ids} h =
    let (ids', made, e) =
      after-returned (create_threads rcs left (i + 1)) (λ l. returned ((i + 1) ∷ l))
        (created-returned (rcs i) _ h) in
    let tail : ids' ≡ numbered (i + 1 + 1) left = create_threads-numbered rcs left (i + 1) made in
    cc

count_of-IsCount : (z : ℤ) → IsCount z → (0 < count_of z) × (count_of z < 2 ^ 31)
count_of-IsCount (pos n) (m, e, h, g) = ground arith
count_of-IsCount (negsuc k) (m, e, h, g) = absurd (cc)

-- The threads and the queue satisfy their invariant, with at least one worker, the workers are numbered
-- from 1 on, and the log is valid, empty and not in use.
abbrev pub IsReady : Started → Type 0
IsReady st =
    (n : ℕ) × (0 < n)
    × PoolInv n st.server
    × (st.thread_ids ≡ numbered 1 n)
    × IsValid st.log
    × IsQuiet st.log
    × (content st.log ≡ [])

started-IsReady :
    (memory : ℕ → List Request) (malloc : ℕ → List ℕ) (c n : ℕ) (ids : List ℕ)
    → ((c : ℕ) → length (memory c) ≡ c)
    → AllocatesExactly malloc
    → (0 < c) × (c < 2 ^ 31)
    → 0 < n
    → ids ≡ numbered 1 n
    → IsReady (record {
      server = start (init_queue (memory c) c) (length ids);
      log = create_log malloc;
      thread_ids = ids;
    })
unfolding create_log
started-IsReady memory malloc c n ids exact alloc (c_pos, c_int) n_pos e =
    let (v, text) = create_log-IsValid malloc alloc in
    let count : length ids ≡ n = ap length e ∙ length-numbered 1 n in
    (
      n,
      n_pos,
      subst (λ k. PoolInv k (start (init_queue (memory c) c) (length ids))) count
          (Reach-PoolInv (memory c) c (length ids) (exact c) c_pos c_int started),
      e,
      v,
      record { no_readers = refl; no_writers = refl; no_waiting = refl },
      text,
    )

-- Where `main` comes to its accept loop, with memory of the sizes that it asked for, its threads
-- and the queue satisfy their invariant, there is at least one worker, the workers are numbered
-- from 1 on, and the log is valid, empty and unused.
pub main_start_lem :
    (memory : ℕ → List Request) (malloc : ℕ → List ℕ) (listen : ListenCalls) (rcs : ℕ → ℤ)
    (argv : List (List ℕ)) {st : Started}
    → ((c : ℕ) → length (memory c) ≡ c)
    → AllocatesExactly malloc
    → main_start memory malloc listen rcs argv ≡ returned st
    → IsReady st
unfolding main_start
main_start_lem memory malloc listen rcs argv {st} exact alloc h =
    let (args, got, h₁) = after-returned (getargs argv) _ h in
    let (threads, size) = getargs_lem argv args got in
    let (fd, opened, h₂) =
      after-returned
        (open_listenfd_wrapper
          (open_listenfd listen.socket_rc listen.setsockopt_rc listen.bind_rc
            listen.listen_rc).result)
        _ h₁ in
    let (ids, made, h₃) = after-returned (create_threads rcs (count_of args.num_threads) 0) _ h₂ in
    subst IsReady (cc) (
      started-IsReady memory malloc (count_of args.que_size) (count_of args.num_threads) ids exact
        alloc (count_of-IsCount args.que_size size) (count_of-IsCount args.num_threads threads).0
        (create_threads-numbered rcs (count_of args.num_threads) 0 made))
