-- ===== src/Log/Buffer/Bounds.antt =====
-- The log's text: appending adds exactly the entry, inside the buffer, with no wrap-around.
use operating_systems_wet.Base.{
  ℕ, zero, suc, ◌+◌, ◌-◌, ◌*◌, ◌^◌, ◌≤◌, ◌<◌, ◌≡◌, refl, ap, ◌∙◌, ltb, leb, Bool-cases, inl, inr,
  List, [], ◌∷◌, ◌++◌, some, arith, take, length, set, get_elem?, length-set, length-take,
  get_elem?-set_self,
}
use operating_systems_wet.Log.Buffer.{ServerLog, size_t, memcpy, create_log, grow, reserve}

-- What `get_log` copies, without the zero at its end.
abbrev pub content : ServerLog → List ℕ
content log = take log.size log.buffer

pub record IsValid (log : ServerLog) : Type 0 where
  pub storage : length log.buffer ≡ log.capacity
  pub fits : log.size < log.capacity
  pub small : log.capacity ≤ 2 ^ 63
  pub terminated : get_elem? log.buffer log.size ≡ some 0

-- The doubling loop ends with a capacity that is large enough and not twice too large.
pub grow_total :
    (fuel c needed : ℕ)
    → 0 < c
    → c ≤ 2 * needed
    → needed ≤ 2 ^ 62
    → needed - c < fuel
    → (r : ℕ) × (grow fuel c needed ≡ some r) × (needed ≤ r) × (r ≤ 2 * needed)
unfolding grow
grow_total zero c needed pos le small lt = absurd (omega arith)
grow_total (suc fuel) c needed pos le small lt = elim (Bool-cases (ltb c needed)) [
  | inl less ↦
      let (r, e, enough, tight) =
        grow_total fuel (size_t (c * 2)) needed (ground arith) (ground arith) small
          (ground arith) in
      (r, rw less e, enough, tight)
  | inr done ↦ (c, rw done, ground arith, le)
]

pub length-memcpy : (dst : List ℕ) (k : ℕ) (src : List ℕ) → length (memcpy dst k src) ≡ length dst
unfolding memcpy
length-memcpy [] zero [] = refl
length-memcpy (a ∷ dst) zero [] = refl
length-memcpy [] zero (b ∷ src) = refl
length-memcpy (a ∷ dst) zero (b ∷ src) = ap suc (length-memcpy dst zero src)
length-memcpy [] (suc k) src = refl
length-memcpy (a ∷ dst) (suc k) src = ap suc (length-memcpy dst k src)

-- A copy inside the buffer is a prefix of the old bytes, then the new ones.
pub take-memcpy :
    (n : ℕ) (dst : List ℕ) (k : ℕ) (src : List ℕ)
    → n ≡ k + length src
    → n ≤ length dst
    → take n (memcpy dst k src) ≡ take k dst ++ src
unfolding memcpy
take-memcpy zero dst zero [] e h = refl
take-memcpy (suc n) dst zero [] e h = absurd (omega arith)
take-memcpy zero dst zero (b ∷ src) e h = absurd (omega arith)
take-memcpy (suc n) [] zero (b ∷ src) e h = absurd (omega arith)
take-memcpy (suc n) (a ∷ dst) zero (b ∷ src) e h =
    ap (λ l. b ∷ l) (take-memcpy n dst zero src (omega arith) (omega arith))
take-memcpy zero dst (suc k) src e h = absurd (omega arith)
take-memcpy (suc n) [] (suc k) src e h = absurd (omega arith)
take-memcpy (suc n) (a ∷ dst) (suc k) src e h =
    ap (λ l. a ∷ l) (take-memcpy n dst k src (omega arith) (omega arith))

pub take-set : (n : ℕ) (xs : List ℕ) (v : ℕ) → take n (set xs n v) ≡ take n xs
take-set zero xs v = refl
take-set (suc n) [] v = refl
take-set (suc n) (x ∷ xs) v = ap (λ l. x ∷ l) (take-set n xs v)

-- The parts of a log that an append leaves alone.
pub record SameLock (log log' : ServerLog) : Type 0 where
  pub same_readers : log'.readers ≡ log.readers
  pub same_writers : log'.writers ≡ log.writers
  pub same_waiting : log'.waiting_writers ≡ log.waiting_writers

abbrev pub AllocatesExactly : (ℕ → List ℕ) → Type 0
AllocatesExactly malloc = (n : ℕ) → length (malloc n) ≡ n

pub create_log-IsValid :
    (malloc : ℕ → List ℕ)
    → AllocatesExactly malloc
    → IsValid (create_log malloc) × (content (create_log malloc) ≡ [])
unfolding create_log
create_log-IsValid malloc h = (
  record {
    storage = length-set (malloc 4096) 0 0 ∙ h 4096;
    fits = omega arith;
    small = omega arith;
    terminated = get_elem?-set_self (malloc 4096) 0 0 (omega (arith, h 4096));
  },
  refl,
)

-- Room for `data_len` more bytes and the zero.
pub record Reserved (log : ServerLog) (data_len : ℕ) (log' : ServerLog) : Type 0 where
  pub storage : length log'.buffer ≡ log'.capacity
  pub room : log.size + data_len + 1 ≤ log'.capacity
  pub small : log'.capacity ≤ 2 ^ 63
  pub same_size : log'.size ≡ log.size
  pub same_content : content log' ≡ content log
  pub same_lock : SameLock log log'

pub reserve_total :
    (malloc : ℕ → List ℕ)
    → AllocatesExactly malloc
    → (log : ServerLog) (data_len : ℕ) → IsValid log
    → log.size + data_len + 1 ≤ 2 ^ 62
    → (log' : ServerLog) × (reserve malloc log data_len ≡ some log') × Reserved log data_len log'
unfolding reserve
reserve_total malloc h log data_len v small =
    elim (Bool-cases (leb log.capacity (size_t (log.size + data_len + 1)))) [
      | inr roomy ↦ (
        log,
        rw roomy,
        record {
          storage = v.storage;
          room = ground arith;
          small = v.small;
          same_size = refl;
          same_content = refl;
          same_lock = record { same_readers = refl; same_writers = refl; same_waiting = refl };
        },
      )
      | inl tight ↦
          let needed : ℕ = size_t (log.size + data_len + 1) in
          let (r, e, enough, twice) =
            grow_total (suc needed) (size_t (log.capacity * 2)) needed (ground arith) (ground arith)
              (omega arith) (omega arith) in
          (
            record log { buffer = memcpy (malloc r) 0 (take log.size log.buffer); capacity = r },
            rw (tight, e),
            record {
              storage = length-memcpy (malloc r) 0 (take log.size log.buffer) ∙ h r;
              room = omega arith;
              small = omega arith;
              same_size = refl;
              same_content =
                  take-memcpy log.size (malloc r) 0 (take log.size log.buffer)
                    (omega (arith, length-take log.size log.buffer, v.fits, v.storage))
                    (omega (arith, h r));
              same_lock = record { same_readers = refl; same_writers = refl; same_waiting = refl };
            },
          )
    ]
