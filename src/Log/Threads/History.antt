-- ===== src/Log/Threads/History.antt =====
-- The log of the threads is a list of whole entries.
use mathlib.Core.Option.{some-injective}
use operating_systems_wet.Base.{
  ℕ, ◌+◌, ◌^◌, ◌≤◌, ◌≡◌, refl, sym, subst, ap, ◌∙◌, List, [], ◌∷◌, ◌++◌, append_assoc, append-nil,
  some, take, length, length-take, length-append, get_elem?, arith,
}
use operating_systems_wet.Log.Buffer.{ServerLog}
use operating_systems_wet.Log.Buffer.Bounds.{content, IsValid, AllocatesExactly}
use operating_systems_wet.Log.Buffer.Append.{append_entry_total}
use operating_systems_wet.Log.Whole.{IsQuiet}
use operating_systems_wet.Log.Guard.{
  enter_read, leave_read, announce_write, enter_write, leave_write,
}
use operating_systems_wet.Log.Threads.{Pc, System, copied, Step, write_appends, Reach, here, later}
use operating_systems_wet.Log.Threads.Safety.{initial}
use operating_systems_wet.Log.Threads.Readers.{reads_current}

-- Entries, one behind the other.
abbrev pub joined : List (List ℕ) → List ℕ
joined [] = []
joined (e ∷ es) = e ++ joined es

pub joined-append : (es es' : List (List ℕ)) → joined (es ++ es') ≡ joined es ++ joined es'
joined-append [] es' = refl
joined-append (e ∷ es) es' =
    ap (λ l. e ++ l) (joined-append es es') ∙ sym (append_assoc e (joined es) (joined es'))

-- A copy that a thread holds.
abbrev pub Holds : List ℕ → Pc → Type 0
Holds text (copied dst) = dst ≡ text
Holds text _ = Unit

length-of_one : (e : List ℕ) → length (e ++ []) ≡ length e
length-of_one e = ap length (append-nil e)

pub length-content : (log : ServerLog) → IsValid log → length (content log) ≡ log.size
length-content log v = omega (arith, length-take log.size log.buffer, v.fits, v.storage)

module _ (malloc : ℕ → List ℕ) where
  -- What a step appends.
  abbrev pub entry_of : {s t : System} → Step malloc s t → List (List ℕ)
  entry_of (write_appends i {text} data_len at enough done) = take data_len text ∷ []
  entry_of _ = []

  -- The entries that a run appends, in the order in which their writers held the lock.
  abbrev pub history : {s t : System} → Reach malloc s t → List (List ℕ)
  history here = []
  history (later r st) = history r ++ entry_of st

  -- What one step does to a valid log.
  step-content :
      (s t : System) (st : Step malloc s t)
      → AllocatesExactly malloc
      → IsValid s.log
      → length (content s.log) + length (joined (entry_of st)) + 1 ≤ 2 ^ 62
      → IsValid t.log × (content t.log ≡ content s.log ++ joined (entry_of st))
  unfolding enter_read leave_read announce_write enter_write leave_write
  step-content s t (write_appends i {text} {log'} data_len at enough done) h v room =
      let fits : s.log.size + data_len + 1 ≤ 2 ^ 62 = omega (
        arith,
        length-content s.log v,
        length-of_one (take data_len text),
        length-take data_len text,
      ) in
      let (log₁, e, v₁, c, lock) = append_entry_total malloc s.log text data_len h v enough fits in
      let same : log₁ ≡ log' = some-injective _ _ (sym e ∙ done) in
      (
        subst IsValid same v₁,
        ap content (sym same)
            ∙ c
            ∙ ap (λ l. content s.log ++ l) (sym (append-nil (take data_len text))),
      )
  step-content s t st h v room = (
    record { storage = v.storage; fits = v.fits; small = v.small; terminated = v.terminated },
    sym (append-nil (content s.log)),
  )

  run-content :
      (log : ServerLog) (n : ℕ) {s : System} (r : Reach malloc (initial log n) s)
      → AllocatesExactly malloc
      → IsValid log
      → length (content log) + length (joined (history r)) + 1 ≤ 2 ^ 62
      → IsValid s.log × (content s.log ≡ content log ++ joined (history r))
  run-content log n here h v room = (v, sym (append-nil (content log)))
  run-content log n (later {t} {u} r st) h v room =
      let split : joined (history r ++ entry_of st) ≡ joined (history r) ++ joined (entry_of st) =
        joined-append (history r) (entry_of st) in
      let sizes : length (joined (history (later r st)))
          ≡ length (joined (history r)) + length (joined (entry_of st)) =
        ap length split ∙ length-append (joined (history r)) (joined (entry_of st)) in
      let (v₁, c₁) = run-content log n r h v (omega arith) in
      let grown : length (content t.log) ≡ length (content log) + length (joined (history r)) =
        ap length c₁ ∙ length-append (content log) (joined (history r)) in
      let (v₂, c₂) = step-content t u st h v₁ (omega arith) in
      (
        v₂,
        c₂
            ∙ ap (λ l. l ++ joined (entry_of st)) c₁
            ∙ append_assoc (content log) (joined (history r)) (joined (entry_of st))
            ∙ ap (λ l. content log ++ l) (sym split),
      )

  -- The log is a list of whole entries: in every state that threads reach from a valid log that nobody uses,
  -- with memory of the size that is asked for and as long as all the text stays below 2^62 bytes, the log is
  -- valid, its text is the old one followed by the entries that have been appended, each whole, in the order
  -- in which their writers held the lock, and a reader that has copied the text holds all of it.
  pub log_history :
      (log : ServerLog) (n : ℕ)
      → AllocatesExactly malloc
      → IsValid log
      → IsQuiet log
      → {s : System} (r : Reach malloc (initial log n) s)
      → length (content log) + length (joined (history r)) + 1 ≤ 2 ^ 62
      → (j : ℕ) (p : Pc) → get_elem? s.threads j ≡ some p
      → IsValid s.log
        × (content s.log ≡ content log ++ joined (history r))
        × Holds (content log ++ joined (history r)) p
  log_history log n h v q {s} r room j p at =
      let (v', c) = run-content log n r h v room in (v', c, subst (λ l. Holds l p) c (holds p at))
    where
      holds : (p : Pc) → get_elem? s.threads j ≡ some p → Holds (content s.log) p
      holds (copied dst) at = reads_current malloc log n q r j dst at
      holds _ at = tt
