-- ===== src/Server/Queue/Refine.antt =====
-- The circular buffer of `RequestQueue` is a first-in first-out queue of connections.
use native.Mathlib.Nat.{mod-add-mod, mod-eq_of_lt, mod-eq-sub-mod, mod-mod}
use native.Mathlib.Numerals.{add-one}
use operating_systems_wet.Server.Queue.Bounds.{IsValid}
use operating_systems_wet.Base.{
  ℕ, zero, suc, ◌+◌, ◌-◌, ◌%◌, ◌<◌, ◌≡◌, ◌≢◌, refl, sym, ap, ap₂, ◌∙◌, List, [], ◌∷◌, ◌++◌, Option,
  none, some, arith, length, get_elem?, dec_lt,
}
use operating_systems_wet.Server.Queue.{Timeval, Request, RequestQueue, store_at, enqueue, dequeue}

-- What `enqueue` is given of a connection.
pub record Arrival : Type 0 where
  pub connfd : ℕ
  pub arrival_time : Timeval

abbrev pub arrival_of : Request → Arrival
arrival_of r = record { connfd = r.connfd; arrival_time = r.arrival_time }

abbrev pub seen : Option Request → Option Arrival
seen none = none
seen (some r) = some (arrival_of r)

module _ (cap : ℕ) where
  -- `n` slots from index `h` on, round the end of the buffer.
  abbrev pub slots : List Request → ℕ → ℕ → List (Option Arrival)
  slots b h zero = []
  slots b h (suc n) = seen (get_elem? b (h % cap)) ∷ slots b (h + 1) n

  slots-mod : (b : List Request) (h g n : ℕ) → h % cap ≡ g % cap → slots b h n ≡ slots b g n
  slots-mod b h g zero e = refl
  slots-mod b h g (suc n) e =
      ap₂ ◌∷◌ (ap (λ k. seen (get_elem? b k)) e) (slots-mod b (h + 1) (g + 1) n next)
    where
      next : (h + 1) % cap ≡ (g + 1) % cap
      next = sym (mod-add-mod h cap 1) ∙ ap (λ k. (k + 1) % cap) e ∙ mod-add-mod g cap 1

  slots-suc :
      (b : List Request) (h n : ℕ)
      → slots b h (suc n) ≡ slots b h n ++ (seen (get_elem? b ((h + n) % cap)) ∷ [])
  slots-suc b h zero = ap (λ k. seen (get_elem? b (k % cap)) ∷ []) (omega arith)
  slots-suc b h (suc n) =
      ap (λ l. seen (get_elem? b (h % cap)) ∷ l)
        (slots-suc b (h + 1) n
          ∙ ap (λ k. slots b (h + 1) n ++ (seen (get_elem? b (k % cap)) ∷ [])) (omega arith))

  -- Slots that a write does not touch.
  slots-of_agree :
      (b b' : List Request) (h n : ℕ)
      → ((k : ℕ) → k < n → get_elem? b' ((h + k) % cap) ≡ get_elem? b ((h + k) % cap))
      → slots b' h n ≡ slots b h n
  slots-of_agree b b' h zero same = refl
  slots-of_agree b b' h (suc n) same =
      ap₂ ◌∷◌ (ap seen (rw here at (same 0 (omega arith))))
        (slots-of_agree b b' (h + 1) n (λ k lt. rw (shift k) (same (suc k) (omega arith))))
    where
      here : h + 0 ≡ h
      here = omega arith

      shift : (k : ℕ) → h + 1 + k ≡ h + suc k
      shift k = omega arith

-- The requests that wait for a worker, the oldest first.
abbrev pub contents : RequestQueue → List (Option Arrival)
contents q = slots q.capacity q.buffer q.front q.dequeueing_size

-- Two places fewer than `cap` apart are different slots.
mod-ne : (cap h k n : ℕ) → h < cap → k < n → n < cap → (h + n) % cap ≢ (h + k) % cap
mod-ne cap h k n hh hk hn = elim (dec_lt (h + n) cap) [
  | yes p ↦ omega (arith, mod-eq_of_lt p, mod-eq_of_lt {n = h + k} {m = cap} (omega arith))
  | no p ↦ elim (dec_lt (h + k) cap) [
    | yes p' ↦ omega (
      arith,
      mod-eq_of_lt p',
      mod-eq-sub-mod {n = h + n} {m = cap} (omega arith),
      mod-eq_of_lt {n = h + n - cap} {m = cap} (omega arith),
    )
    | no p' ↦ omega (
      arith,
      mod-eq-sub-mod {n = h + n} {m = cap} (omega arith),
      mod-eq_of_lt {n = h + n - cap} {m = cap} (omega arith),
      mod-eq-sub-mod {n = h + k} {m = cap} (omega arith),
      mod-eq_of_lt {n = h + k - cap} {m = cap} (omega arith),
    )
  ]
]

seen-store_at_self :
    (b : List Request) (i c : ℕ) (t : Timeval)
    → i < length b
    → seen (get_elem? (store_at b i c t) i) ≡ some (record { connfd = c; arrival_time = t })
unfolding store_at
seen-store_at_self [] i c t h = absurd (omega arith)
seen-store_at_self (r ∷ b) zero c t h = refl
seen-store_at_self (r ∷ b) (suc i) c t h = seen-store_at_self b i c t (omega arith)

get_elem?-store_at_ne :
    (b : List Request) (i j c : ℕ) (t : Timeval)
    → i ≢ j
    → get_elem? (store_at b i c t) j ≡ get_elem? b j
unfolding store_at
get_elem?-store_at_ne [] i j c t h = refl
get_elem?-store_at_ne (r ∷ b) zero zero c t h = absurd (h refl)
get_elem?-store_at_ne (r ∷ b) zero (suc j) c t h = refl
get_elem?-store_at_ne (r ∷ b) (suc i) zero c t h = refl
get_elem?-store_at_ne (r ∷ b) (suc i) (suc j) c t h =
    get_elem?-store_at_ne b i j c t (λ e. h (ap suc e))

-- On a valid queue that has room, `enqueue` puts the connection with its arrival time behind the
-- requests that wait, and leaves those as they are.
pub enqueue_refines :
    (q q' : RequestQueue) (c : ℕ) (t : Timeval)
    → IsValid q
    → enqueue q c t ≡ some q'
    → contents q' ≡ contents q ++ (some (record { connfd = c; arrival_time = t }) ∷ [])
unfolding enqueue
enqueue_refines q q' c t v h = rw (← taken) added
  where
    open q use {capacity, buffer, front, rear, dequeueing_size}

    room : dequeueing_size < capacity
    room = ground arith

    b' : List Request
    b' = store_at buffer rear c t

    taken :
        record q {
          buffer = b';
          rear = (rear + 1) % capacity;
          size = q.size + 1;
          dequeueing_size = dequeueing_size + 1;
        }
        ≡ q'
    taken = ground arith

    old : slots capacity b' front dequeueing_size ≡ contents q
    old = slots-of_agree capacity buffer b' front dequeueing_size λ k lt.
        get_elem?-store_at_ne buffer rear ((front + k) % capacity) c t
          (rw v.rear_at (mod-ne capacity front k dequeueing_size v.front_in lt room))

    new :
        seen (get_elem? b' ((front + dequeueing_size) % capacity))
        ≡ some (record { connfd = c; arrival_time = t })
    new = rw (← v.rear_at) (seen-store_at_self buffer rear c t (omega arith))

    added :
        slots capacity b' front (dequeueing_size + 1)
        ≡ contents q ++ (some (record { connfd = c; arrival_time = t }) ∷ [])
    added =
        ap (slots capacity b' front) (add-one dequeueing_size)
        ∙ slots-suc capacity b' front dequeueing_size
        ∙ ap₂ (λ l x. l ++ (x ∷ [])) old new

mod_idem : (a n : ℕ) → a % n ≡ a % n % n
mod_idem a n = sym (mod-mod a n)

-- On a valid queue that is not empty, `dequeue` hands out the request that has waited longest, and
-- leaves the others in their order.
pub dequeue_refines :
    (q q' : RequestQueue) (r : Option Request)
    → IsValid q
    → dequeue q ≡ some (r, q')
    → contents q ≡ seen r ∷ contents q'
unfolding dequeue
dequeue_refines q q' r v h =
    rw (← left) (ap (slots capacity buffer front) one_less ∙ ap₂ ◌∷◌ (ap seen first) rest)
  where
    open q use {capacity, buffer, front, dequeueing_size}

    left : record q { front = (front + 1) % capacity; dequeueing_size = dequeueing_size - 1 } ≡ q'
    left = ground arith

    one_less : dequeueing_size ≡ suc (dequeueing_size - 1)
    one_less = ground arith

    first : get_elem? buffer (front % capacity) ≡ r
    first = rw (mod-eq_of_lt v.front_in) (ground arith)

    rest :
        slots capacity buffer (front + 1) (dequeueing_size - 1)
        ≡ slots capacity buffer ((front + 1) % capacity) (dequeueing_size - 1)
    rest =
        slots-mod capacity buffer (front + 1) ((front + 1) % capacity) (dequeueing_size - 1)
          (mod_idem (front + 1) capacity)
