-- ===== src/Log/Threads/Readers.antt =====
-- What a reader of the log sees, and when it may begin to read.
use operating_systems_wet.Base.{
  ℕ, zero, suc, ◌<◌, ◌≡◌, refl, sym, subst, ◌∙◌, List, [], ◌∷◌, some, arith, get_elem?, set,
  replicate, ◌⊎◌, inl, inr,
}
use operating_systems_wet.Base.Threads.{get_elem?-set_or}
use operating_systems_wet.Log.Buffer.{ServerLog}
use operating_systems_wet.Log.Buffer.Bounds.{content}
use operating_systems_wet.Log.Whole.{IsQuiet}
use operating_systems_wet.Log.Guard.{
  enter_read, leave_read, announce_write, enter_write, leave_write,
}
use operating_systems_wet.Log.Threads.{
  Pc, outside, read_testing, read_asleep, reading, copied, write_arriving, write_testing,
  write_asleep, writing, written, System, SignalWriter, woke, nobody, wake_reader, wake_readers,
  Step, read_begins, read_blocks, read_enters, read_copies, read_leaves_quietly, read_leaves_last,
  write_begins, write_blocks, write_enters, write_blocks_again, write_enters_woken, write_appends,
  write_leaves_to_writer, write_leaves_to_readers, spurious_reader, spurious_writer, Reach, here,
  later,
}
use operating_systems_wet.Log.Threads.Invariant.{LockInv}
use operating_systems_wet.Log.Threads.Preserve.{read_allowed}
use operating_systems_wet.Log.Threads.Safety.{initial, Reach-LockInv, LockInv-stable}

-- What holds of the log where a step brings a thread into a state.
abbrev Newly : System → Pc → Type 0
Newly s reading = (s.log.waiting_writers ≡ 0) × (s.log.writers ≡ 0)
Newly s (copied dst) = dst ≡ content s.log
Newly s _ = Unit

module _ (s : System) (j : ℕ) {q : Pc} where
  set-Newly :
      (ps : List Pc) (i : ℕ) (p' : Pc)
      → Newly s p'
      → get_elem? (set ps i p') j ≡ some q
      → Newly s q ⊎ (get_elem? ps j ≡ some q)
  set-Newly ps i p' new h = elim (get_elem?-set_or ps i j p' h) [
    | inl e ↦ inl (subst (Newly s) (sym e) new)
    | inr old ↦ inr old
  ]

  signal-Newly :
      {ps ps' : List Pc}
      → SignalWriter ps ps'
      → get_elem? ps' j ≡ some q
      → Newly s q ⊎ (get_elem? ps j ≡ some q)
  signal-Newly {ps} (woke i {text} at e) h =
      set-Newly ps i (write_testing text) tt (subst (λ l. get_elem? l j ≡ some q) e h)
  signal-Newly (nobody none_asleep e) h = inr (subst (λ l. get_elem? l j ≡ some q) e h)

wake-Newly :
    (s : System) (p : Pc) {q : Pc} → some (wake_reader p) ≡ some q → Newly s q ⊎ (some p ≡ some q)
wake-Newly s read_asleep {q} e = inl (subst (Newly s) read_again tt)
  where
    read_again : read_testing ≡ q
    read_again = cc
wake-Newly s outside e = inr e
wake-Newly s read_testing e = inr e
wake-Newly s reading e = inr e
wake-Newly s (copied dst) e = inr e
wake-Newly s (write_arriving text) e = inr e
wake-Newly s (write_testing text) e = inr e
wake-Newly s (write_asleep text) e = inr e
wake-Newly s (writing text) e = inr e
wake-Newly s written e = inr e

broadcast-Newly :
    (s : System) (ps : List Pc) (j : ℕ) {q : Pc}
    → get_elem? (wake_readers ps) j ≡ some q
    → Newly s q ⊎ (get_elem? ps j ≡ some q)
broadcast-Newly s [] j h = inr h
broadcast-Newly s (p ∷ ps) zero h = wake-Newly s p h
broadcast-Newly s (p ∷ ps) (suc j) h = broadcast-Newly s ps j h

after : {A B C : Type 0} → A ⊎ B → (B → A ⊎ C) → A ⊎ C
after (inl a) f = inl a
after (inr b) f = f b

step-Newly :
    (malloc : ℕ → List ℕ) (s t : System)
    → Step malloc s t
    → (j : ℕ) {q : Pc} → get_elem? t.threads j ≡ some q
    → Newly s q ⊎ (get_elem? s.threads j ≡ some q)
step-Newly malloc s t (read_begins i at) j h = set-Newly s j s.threads i read_testing tt h
step-Newly malloc s t (read_blocks i at free must) j h = set-Newly s j s.threads i read_asleep tt h
step-Newly malloc s t (read_enters i at free may) j h =
    set-Newly s j s.threads i reading (read_allowed s.log may) h
step-Newly malloc s t (read_copies i at) j h =
    set-Newly s j s.threads i (copied (content s.log)) refl h
step-Newly malloc s t (read_leaves_quietly i at free more) j h =
    set-Newly s j s.threads i outside tt h
step-Newly malloc s t (read_leaves_last i at free last signal) j h =
    after (signal-Newly s j signal h) (set-Newly s j s.threads i outside tt)
step-Newly malloc s t (write_begins i at text) j h =
    set-Newly s j s.threads i (write_arriving text) tt h
step-Newly malloc s t (write_blocks i {text} at free must) j h =
    set-Newly s j s.threads i (write_asleep text) tt h
step-Newly malloc s t (write_enters i {text} at free may) j h =
    set-Newly s j s.threads i (writing text) tt h
step-Newly malloc s t (write_blocks_again i {text} at free must) j h =
    set-Newly s j s.threads i (write_asleep text) tt h
step-Newly malloc s t (write_enters_woken i {text} at free may) j h =
    set-Newly s j s.threads i (writing text) tt h
step-Newly malloc s t (write_appends i data_len at enough done) j h =
    set-Newly s j s.threads i written tt h
step-Newly malloc s t (write_leaves_to_writer i at prefers signal) j h =
    after (signal-Newly s j signal h) (set-Newly s j s.threads i outside tt)
step-Newly malloc s t (write_leaves_to_readers i at none_left) j h =
    after (broadcast-Newly s (set s.threads i outside) j h) (set-Newly s j s.threads i outside tt)
step-Newly malloc s t (spurious_reader i at) j h = set-Newly s j s.threads i read_testing tt h
step-Newly malloc s t (spurious_writer i {text} at) j h =
    set-Newly s j s.threads i (write_testing text) tt h

-- While the lock counts a waiting writer, no step lets a thread begin to read.
pub writers_first :
    (malloc : ℕ → List ℕ) (s t : System)
    → Step malloc s t
    → 0 < s.log.waiting_writers
    → (j : ℕ) → get_elem? t.threads j ≡ some reading
    → get_elem? s.threads j ≡ some reading
writers_first malloc s t st w j h = elim (step-Newly malloc s t st j h) [
  | inl new ↦ absurd (omega arith)
  | inr old ↦ old
]

-- What a reader has copied is the text of the log, whole, for as long as it stays in the log.
abbrev CopiesCurrent : System → Type 0
CopiesCurrent s =
    (j : ℕ) (dst : List ℕ) → get_elem? s.threads j ≡ some (copied dst) → dst ≡ content s.log

-- A step that leaves a thread with a copy leaves the text alone.
copy_keeps :
    (malloc : ℕ → List ℕ) (s t : System)
    → LockInv s
    → Step malloc s t
    → (j : ℕ) {dst : List ℕ} → get_elem? t.threads j ≡ some (copied dst)
    → content t.log ≡ content s.log
unfolding enter_read leave_read announce_write enter_write leave_write
copy_keeps malloc s t inv (write_appends i data_len at enough done) j h =
    elim (get_elem?-set_or s.threads i j written h) [
      | inl e ↦ absurd (cc)
      | inr old ↦
          LockInv-stable malloc s t inv (write_appends i data_len at enough done) j old
            (omega arith)
    ]
copy_keeps malloc s t inv st j h = refl

Step-CopiesCurrent :
    (malloc : ℕ → List ℕ) (s t : System)
    → LockInv s
    → Step malloc s t
    → CopiesCurrent s
    → CopiesCurrent t
Step-CopiesCurrent malloc s t inv st c j dst h = elim (step-Newly malloc s t st j h) [
  | inr old ↦ c j dst old ∙ sym (copy_keeps malloc s t inv st j h)
  | inl new ↦ new ∙ sym (copy_keeps malloc s t inv st j h)
]

get_elem?-outside :
    (n j : ℕ) {dst : List ℕ} → get_elem? (replicate n outside) j ≡ some (copied dst) → ⊥
get_elem?-outside zero j h = cc
get_elem?-outside (suc n) zero h = cc
get_elem?-outside (suc n) (suc j) h = get_elem?-outside n j h

Reach-CopiesCurrent :
    (malloc : ℕ → List ℕ) (log : ServerLog) (n : ℕ)
    → IsQuiet log
    → {s : System} → Reach malloc (initial log n) s
    → CopiesCurrent s
Reach-CopiesCurrent malloc log n q here = λ j dst h. absurd (get_elem?-outside n j h)
Reach-CopiesCurrent malloc log n q (later {t} {u} r st) =
    Step-CopiesCurrent malloc t u (Reach-LockInv malloc log n q r) st
      (Reach-CopiesCurrent malloc log n q r)

-- In every state that threads reach from a log that nobody uses, what a reader has copied and not yet
-- taken out of the log is the whole current text of the log.
pub reads_current :
    (malloc : ℕ → List ℕ) (log : ServerLog) (n : ℕ)
    → IsQuiet log
    → {s : System} → Reach malloc (initial log n) s
    → (j : ℕ) (dst : List ℕ) → get_elem? s.threads j ≡ some (copied dst)
    → dst ≡ content s.log
reads_current malloc log n q r j dst at = Reach-CopiesCurrent malloc log n q r j dst at
