-- ===== src/Log/Buffer.antt =====
-- log.c: `struct server_log`, `create_log` and the part of `add_to_log` under the write lock.
pub mod Bounds
pub mod Append
use operating_systems_wet.Base.{
  ℕ, zero, suc, ◌+◌, ◌*◌, ◌%◌, ◌^◌, Bool, true, false, if◌then◌else◌, ltb, leb, List, [], ◌∷◌,
  Option, none, some, ◌>>=◌, take, drop, ◌++◌, length, set,
}

-- `size_t` arithmetic.
abbrev pub size_t : ℕ → ℕ
size_t n = n % 2 ^ 64

-- The mutex and the condition variables are `Log.Threads`.
pub record ServerLog : Type 0 where
  pub buffer : List ℕ
  pub size : ℕ
  pub capacity : ℕ
  pub readers : ℕ
  pub writers : ℕ
  pub waiting_writers : ℕ

-- `memcpy(dst + offset, src, length src)`. Bytes past the end of `dst` are dropped here: `Bounds`
-- shows that there are none.
pub memcpy : List ℕ → ℕ → List ℕ → List ℕ
memcpy dst zero [] = dst
memcpy [] zero (b ∷ src) = []
memcpy (a ∷ dst) zero (b ∷ src) = b ∷ memcpy dst zero src
memcpy [] (suc offset) src = []
memcpy (a ∷ dst) (suc offset) src = a ∷ memcpy dst offset src

-- The loop that doubles the capacity. `none` is fuel that ran out.
pub grow : ℕ → ℕ → ℕ → Option ℕ
grow zero new_capacity needed = none
grow (suc fuel) new_capacity needed =
    let rest = grow fuel (size_t (new_capacity * 2)) needed in
    if ltb new_capacity needed then rest else some new_capacity

-- The two writes at the end, and the new size.
pub put : ServerLog → List ℕ → ServerLog
unfolding memcpy
put log entry = record log {
  buffer = set (memcpy log.buffer log.size entry) (size_t (log.size + length entry)) 0;
  size = size_t (log.size + length entry);
}

-- `malloc n` is what memory holds when `Malloc(n)` returns, which it does or the program exits.
module _ (malloc : ℕ → List ℕ) where
  unfoldable pub create_log : ServerLog
  create_log = record {
    buffer = set (malloc 4096) 0 0;
    size = 0;
    capacity = 4096;
    readers = 0;
    writers = 0;
    waiting_writers = 0;
  }

  -- The fuel is the size that is needed: the capacity grows in each round.
  pub reserve : ServerLog → ℕ → Option ServerLog
  unfolding grow memcpy
  reserve log data_len =
      if leb log.capacity (size_t (log.size + data_len + 1))
      then (do
        new_capacity ←
            grow (suc (size_t (log.size + data_len + 1))) (size_t (log.capacity * 2))
              (size_t (log.size + data_len + 1))
        some (record log {
          buffer = memcpy (malloc new_capacity) 0 (take log.size log.buffer);
          capacity = new_capacity;
        }))
      else some log

  -- What `add_to_log` does between `log_start_write` and `log_end_write`.
  unfoldable pub append_entry : ServerLog → List ℕ → ℕ → Option ServerLog
  unfolding reserve put
  append_entry log text data_len = do
    log' ← reserve log data_len
    some (put log' (take data_len text))

-- What `destroy_log` gives back, in its order.
pub data Release : Type 0 where
  lock : Release
  readers_cond : Release
  writers_cond : Release
  buffer_memory : Release
  log_memory : Release

abbrev pub destroy_log : Option ServerLog → List Release
destroy_log none = []
destroy_log (some log) = lock ∷ readers_cond ∷ writers_cond ∷ buffer_memory ∷ log_memory ∷ []
