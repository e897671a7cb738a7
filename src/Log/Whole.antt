-- ===== src/Log/Whole.antt =====
-- log.c: `add_to_log` and `get_log` from call to return, where no other thread is in the log.
use operating_systems_wet.Base.{
  ℕ, zero, suc, ◌+◌, ◌-◌, ◌%◌, ◌^◌, ◌≤◌, ◌<◌, ◌≡◌, refl, sym, ap, ◌∙◌, Bool, true, false, List, [],
  ◌∷◌, ◌++◌, Option, none, some, ◌>>=◌, arith, append-nil, take, length, get_elem?,
}
use operating_systems_wet.Base.Int.{ℤ, pos, negsuc, signed32}
use operating_systems_wet.Log.Buffer.{ServerLog, append_entry, size_t}
use operating_systems_wet.Log.Buffer.Bounds.{content, IsValid, SameLock, AllocatesExactly}
use operating_systems_wet.Log.Buffer.Append.{append_entry_total}
use operating_systems_wet.Log.Guard.{log_start_read, log_end_read, log_start_write, log_end_write}

-- The guard and the writer's section. A null pointer is `none`.
module _ (malloc : ℕ → List ℕ) where
  write_section : ServerLog → List ℕ → ℕ → Option ServerLog
  write_section log text data_len = do
    held ← log_start_write log
    written ← append_entry malloc held text data_len
    some (log_end_write written)

  unfoldable pub add_to_log : Option ServerLog → Option (List ℕ) → ℤ → Option (Option ServerLog)
  unfolding write_section
  add_to_log none _ _ = some none
  add_to_log (some log) none _ = some (some log)
  add_to_log (some log) (some text) (negsuc _) = some (some log)
  add_to_log (some log) (some text) (pos zero) = some (some log)
  add_to_log (some log) (some text) (pos (suc k)) = elim (write_section log text (suc k)) [
    | none ↦ none
    | some log' ↦ some (some log')
  ]

-- The copy that the caller gets, with the zero at its end, and the size, returned as an `int`. A null
-- pointer returns 0 and writes nothing.
unfoldable pub get_log : Option ServerLog → Bool → Option (Option ServerLog × Option (List ℕ) × ℤ)
get_log none _ = some (none, none, pos 0)
get_log (some log) false = some (some log, none, pos 0)
get_log (some log) true = do
  held ← log_start_read log
  let dst = take (size_t (held.size + 1)) held.buffer
  let result_size = signed32 (held.size % 2 ^ 32)
  some (some (log_end_read held), some dst, result_size)

-- Nobody is in the log or waits for it.
pub record IsQuiet (log : ServerLog) : Type 0 where
  pub no_readers : log.readers ≡ 0
  pub no_writers : log.writers ≡ 0
  pub no_waiting : log.waiting_writers ≡ 0

start_write_quiet :
    (log : ServerLog)
    → IsValid log
    → IsQuiet log
    → (held : ServerLog) × (log_start_write log ≡ some held)
      × IsValid held
      × (content held ≡ content log)
      × (held.size ≡ log.size)
      × (held.readers ≡ 0)
      × (held.waiting_writers ≡ 0)
unfolding log_start_write
start_write_quiet log v q = (
  record log { waiting_writers = log.waiting_writers + 1 - 1; writers = 1 },
  ground arith,
  record { storage = v.storage; fits = v.fits; small = v.small; terminated = v.terminated },
  refl,
  refl,
  q.no_readers,
  omega arith,
)

end_write-IsQuiet :
    (held log : ServerLog)
    → IsValid log
    → SameLock held log
    → held.readers ≡ 0
    → held.waiting_writers ≡ 0
    → IsValid (log_end_write log)
      × IsQuiet (log_end_write log)
      × (content (log_end_write log) ≡ content log)
unfolding log_end_write
end_write-IsQuiet held log v s r w = (
  record { storage = v.storage; fits = v.fits; small = v.small; terminated = v.terminated },
  omega arith,
  refl,
)

add_to_log_step :
    (malloc : ℕ → List ℕ) (log held written : ServerLog) (text : List ℕ) (k : ℕ)
    → log_start_write log ≡ some held
    → append_entry malloc held text (suc k) ≡ some written
    → add_to_log malloc (some log) (some text) (pos (suc k)) ≡ some (some (log_end_write written))
unfolding add_to_log
add_to_log_step malloc log held written text k p q = rw (add_to_log, p, q)

-- With memory of the size that is asked for, `add_to_log` on a valid log that nobody else uses,
-- with a text of at least `data_len` bytes and room below 2^62, appends exactly the first
-- `data_len` bytes, and leaves the log valid and unused.
pub add_to_log_total :
    (malloc : ℕ → List ℕ) (log : ServerLog) (text : List ℕ) (data_len : ℕ)
    → AllocatesExactly malloc
    → IsValid log
    → IsQuiet log
    → data_len ≤ length text
    → log.size + data_len + 1 ≤ 2 ^ 62
    → (log' : ServerLog) × (add_to_log malloc (some log) (some text) (pos data_len)
        ≡ some (some log'))
      × IsValid log'
      × IsQuiet log'
      × (content log' ≡ content log ++ take data_len text)
unfolding add_to_log
add_to_log_total malloc log text zero h v q enough small =
    (log, refl, v, q, sym (append-nil (content log)))
add_to_log_total malloc log text (suc k) h v q enough small =
    let (held, started, v₁, c₁, same_size, r, w) = start_write_quiet log v q in
    let (written, e, v₂, c₂, lock) =
      append_entry_total malloc held text (suc k) h v₁ enough (omega arith) in
    let (v₃, quiet, c₃) = end_write-IsQuiet held written v₂ lock r w in
    (
      log_end_write written,
      add_to_log_step malloc log held written text k started e,
      v₃,
      quiet,
      c₃ ∙ c₂ ∙ ap (λ l. l ++ take (suc k) text) c₁,
    )

-- The byte behind a prefix.
take-suc :
    (n : ℕ) (xs : List ℕ) {x : ℕ}
    → get_elem? xs n ≡ some x
    → take (suc n) xs ≡ take n xs ++ (x ∷ [])
take-suc n [] e = absurd (cc)
take-suc zero (y ∷ xs) e = ap (λ z. z ∷ []) (cc)
take-suc (suc n) (y ∷ xs) e = ap (λ l. y ∷ l) (take-suc n xs e)

start_read_quiet :
    (log : ServerLog)
    → IsQuiet log
    → log_start_read log ≡ some (record log { readers = log.readers + 1 })
unfolding log_start_read
start_read_quiet log q = ground arith

end_read_start : (log : ServerLog) → log_end_read (record log { readers = log.readers + 1 }) ≡ log
unfolding log_end_read
end_read_start log = ground arith

signed32_small : (n : ℕ) → n < 2 ^ 31 → signed32 (n % 2 ^ 32) ≡ pos n
signed32_small n h = ground arith

-- `get_log` on a quiet valid log shorter than 2^31 returns its text, terminated, with its size, and
-- leaves the log as it was.
pub get_log_lem :
    (log : ServerLog)
    → IsValid log
    → IsQuiet log
    → log.size < 2 ^ 31
    → get_log (some log) true ≡ some (some log, some (content log ++ (0 ∷ [])), pos log.size)
unfolding get_log
get_log_lem log v q small =
    let whole : take (size_t (log.size + 1)) log.buffer ≡ content log ++ (0 ∷ []) =
      ap (λ n. take n log.buffer) {y = suc log.size} (omega arith)
      ∙ take-suc log.size log.buffer v.terminated in
    let reading : log_start_read log ≡ some (record log { readers = log.readers + 1 }) =
      start_read_quiet log q in
    let size_int : signed32 (log.size % 2 ^ 32) ≡ pos log.size = signed32_small log.size small in
    rw (reading, whole, size_int, end_read_start log)
