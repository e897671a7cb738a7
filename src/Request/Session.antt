-- ===== src/Request/Session.antt =====
-- What a worker changes while it handles a request, and what it meets: a state and exit monad.
use operating_systems_wet.Base.{ℕ, Bool, true, false, List, ◌++◌, Option, take}
use operating_systems_wet.Base.Int.{ℤ, pos, negsuc}
use operating_systems_wet.Base.Bytes.{codes}
use operating_systems_wet.Log.Buffer.{ServerLog}
use operating_systems_wet.Request.Stats.{ThreadsStats}

-- The fields of `struct stat` that the server reads.
pub record FileStat : Type 0 where
  pub is_regular : Bool  -- S_ISREG(st_mode)
  pub may_read : Bool  -- S_IRUSR & st_mode
  pub may_execute : Bool  -- S_IXUSR & st_mode
  pub st_size : ℕ

-- A call that sleeps until something happens outside of the program, which may never be.
pub data Call : Type 0 where
  completes : Call
  errs : Call
  hangs : Call

-- What the operating system answers during one request.
pub record Env : Type 0 where
  pub stat : List ℕ → Option FileStat  -- `none` where `stat` returns -1
  pub open_fd : List ℕ → ℤ  -- the result of `open`
  pub mmap : List ℕ → ℤ → Option (List ℕ)  -- the bytes mapped; `none` is MAP_FAILED
  pub munmap_ok : Bool
  pub close_ok : Bool
  pub fork_ok : Bool
  pub wait_result : Call  -- `hangs` where the child never ends
  pub run_cgi : List ℕ → List ℕ → List ℕ  -- what the child writes to its standard output
  pub write_result : List ℕ → List ℕ → Call  -- of `rio_writen` on a text behind what was sent
  pub malloc : ℕ → List ℕ

pub record Session : Type 0 where
  pub sent : List ℕ  -- to the client
  pub printed : List ℕ  -- on the server's standard output
  pub stats : ThreadsStats
  pub log : ServerLog

-- The whole program exits in an error; a call that loops or sleeps for ever does not return.
pub data Outcome (A : Type 0) : Type 0 where
  returns : A → Session → Outcome A
  exits : (message : List ℕ) → Session → Outcome A
  stuck : Outcome A

abbrev pub M : Type 0 → Type 0
M A = Session → Outcome A

abbrev pub continue : {A B : Type 0} → Outcome A → (A → M B) → Outcome B
continue (returns a s) f = f a s
continue (exits message s) f = exits message s
continue stuck f = stuck

infixl 5 ◌>>=◌ ◌>>◌
abbrev pub ◌>>=◌ : {A B : Type 0} → M A → (A → M B) → M B
◌>>=◌ m f s = continue (m s) f

abbrev pub ◌>>◌ : {B : Type 0} → M (Unit {0}) → M B → M B
◌>>◌ m k = m >>= λ _. k

abbrev pub pure : {A : Type 0} → A → M A
pure a s = returns a s

abbrev pub get : M Session
get s = returns s s

-- `unix_error`: the message, and `exit(0)`.
abbrev pub unix_error : {A : Type 0} → List ℕ → M A
unix_error message s = exits message s

abbrev pub check : Bool → List ℕ → M (Unit {0})
check true message s = returns tt s
check false message s = exits message s

abbrev pub set_stats : (ThreadsStats → ThreadsStats) → M (Unit {0})
set_stats f s = returns tt (record s { stats = f s.stats })

abbrev pub printf : List ℕ → M (Unit {0})
printf text s = returns tt (record s { printed = s.printed ++ text })

-- What a wrapper makes of such a call, with the session after an error and after a success.
abbrev pub after_call : Call → List ℕ → Session → Session → Outcome (Unit {0})
after_call completes message s s' = returns tt s'
after_call errs message s s' = exits message s
after_call hangs message s s' = stuck

-- segel.c: `WaitPid`.
abbrev pub wait_pid : Env → M (Unit {0})
wait_pid env s = after_call env.wait_result (codes "Wait error") s s

-- segel.c: `Rio_writen`. Where it fails, the part of the text that was sent is not recorded.
abbrev pub rio_writen : Env → List ℕ → M (Unit {0})
rio_writen env text s =
    after_call (env.write_result s.sent text) (codes "Rio_writen error") s
      (record s { sent = s.sent ++ text })

-- `Rio_writen` of so many bytes of a buffer, a number that is an `int`: a negative one becomes a `size_t`
-- beyond every `ssize_t`, and `write` refuses it.
abbrev pub write_bytes : Env → List ℕ → ℤ → M (Unit {0})
write_bytes env buf (pos n) s = rio_writen env (take n buf) s
write_bytes env buf (negsuc k) s = exits (codes "Rio_writen error") s
