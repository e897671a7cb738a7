-- ===== src/Log/Buffer/Append.antt =====
-- `add_to_log` under the write lock, as a whole.
use operating_systems_wet.Base.{
  ℕ, ◌+◌, ◌^◌, ◌≤◌, ◌≡◌, refl, ap, ◌∙◌, List, ◌++◌, some, arith, take, length, min, length-set,
  length-take, get_elem?-set_self,
}
use native.Mathlib.Nat.{mod-eq_of_lt}
use operating_systems_wet.Log.Buffer.{ServerLog, size_t, memcpy, reserve, put, append_entry}
use operating_systems_wet.Log.Buffer.Bounds.{
  content, IsValid, SameLock, AllocatesExactly, reserve_total, take-memcpy, take-set, length-memcpy,
}

put-IsValid :
    (log : ServerLog) (entry : List ℕ)
    → length log.buffer ≡ log.capacity
    → log.size + length entry + 1 ≤ log.capacity
    → log.capacity ≤ 2 ^ 63
    → IsValid (put log entry) × (content (put log entry) ≡ content log ++ entry)
unfolding put
put-IsValid log entry full room small =
    let e : size_t (log.size + length entry) ≡ log.size + length entry =
      mod-eq_of_lt (omega arith) in
    let written : List ℕ = memcpy log.buffer log.size entry in
    let same_length : length written ≡ length log.buffer =
      length-memcpy log.buffer log.size entry in
    rw e (
      record {
        storage = length-set written (log.size + length entry) 0 ∙ same_length ∙ full;
        fits = omega arith;
        small = small;
        terminated = get_elem?-set_self written (log.size + length entry) 0 (omega arith);
      },
      take-set (log.size + length entry) written 0
          ∙ take-memcpy (log.size + length entry) log.buffer log.size entry refl (omega arith),
    )

-- With memory of the size that is asked for, appending the first `data_len` bytes of a text that is
-- at least that long to a valid log that stays below 2^62 bytes always succeeds: the new log is
-- valid, its text is the old one followed by these bytes, and the counters of the lock are the
-- same.
pub append_entry_total :
    (malloc : ℕ → List ℕ) (log : ServerLog) (text : List ℕ) (data_len : ℕ)
    → AllocatesExactly malloc
    → IsValid log
    → data_len ≤ length text
    → log.size + data_len + 1 ≤ 2 ^ 62
    → (log' : ServerLog) × (append_entry malloc log text data_len ≡ some log')
      × IsValid log'
      × (content log' ≡ content log ++ take data_len text)
      × SameLock log log'
unfolding append_entry put
append_entry_total malloc log text data_len h v enough small =
    let (log₁, e, r) = reserve_total malloc h log data_len v small in
    let taken : length (take data_len text) ≡ data_len =
      length-take data_len text ∙ min-eq data_len (length text) enough in
    let (v', c) = put-IsValid log₁ (take data_len text) r.storage (omega arith) r.small in
    (
      put log₁ (take data_len text),
      rw e,
      v',
      c ∙ ap (λ l. l ++ take data_len text) r.same_content,
      put-lock log log₁ (take data_len text) r.same_lock,
    )
  where
    min-eq : (a b : ℕ) → a ≤ b → min a b ≡ a
    min-eq a b le = omega arith

    put-lock :
        (log log₁ : ServerLog) (entry : List ℕ) → SameLock log log₁ → SameLock log (put log₁ entry)
    put-lock log log₁ entry s = record {
      same_readers = s.same_readers;
      same_writers = s.same_writers;
      same_waiting = s.same_waiting;
    }

-- An append that succeeds leaves the lock's counters alone.
pub append_entry-SameLock :
    (malloc : ℕ → List ℕ) (log : ServerLog) (text : List ℕ) (data_len : ℕ) {log' : ServerLog}
    → append_entry malloc log text data_len ≡ some log'
    → SameLock log log'
unfolding append_entry put reserve
append_entry-SameLock malloc log text data_len e = ground arith
