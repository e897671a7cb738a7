-- ===== src/Server/Pool/Preserve.antt =====
-- Every step of the server's threads keeps `PoolInv`.
use operating_systems_wet.Base.{
  ℕ, ◌+◌, ◌≤◌, ◌<◌, ◌≡◌, refl, sym, subst, ap, ◌∙◌, true, false, List, [], ◌∷◌, ◌++◌, Option, none,
  some, map, arith, get_elem?, set, length, append_assoc, append-nil, map-append,
}
use operating_systems_wet.Base.Threads.{weigh, weigh_pos}
use operating_systems_wet.Server.Queue.{
  Timeval, Request, RequestQueue, is_full, enqueue, dequeue, finish_handling,
}
use operating_systems_wet.Server.Queue.Bounds.{
  IsValid, enqueue-IsValid, dequeue-IsValid, finish_handling-IsValid,
}
use operating_systems_wet.Server.Queue.Refine.{
  Arrival, arrival_of, contents, enqueue_refines, dequeue_refines,
}
use operating_systems_wet.Server.Pool.{
  MainPc, accepting, checking, check_waiting, enqueuing, enqueue_waiting, WorkerPc, dequeuing,
  waiting, handling, finishing, Server, is_waiting, signal_not_full, SignalNotEmpty, woke, nobody,
  Step, accept, check_full, check_room, enqueue_full, enqueue_done, dequeue_empty, dequeue_done,
  handled, finish, spurious_main, spurious_worker,
}
use operating_systems_wet.Server.Pool.Invariant.{
  is_busy, is_looking, MainKnows, in_hand, connfd_of, PoolInv, Moved, moved,
}

-- A signal wakes a worker if one is asleep, and changes nothing else.
record Signalled (ws ws' : List WorkerPc) : Type 0 where
  busy : weigh is_busy ws' ≡ weigh is_busy ws
  same_crew : length ws' ≡ length ws
  one_looks : 0 < weigh is_waiting ws' → weigh is_looking ws' ≡ weigh is_looking ws + 1
  asleep : weigh is_waiting ws' ≤ weigh is_waiting ws

signalled : {ws ws' : List WorkerPc} → SignalNotEmpty ws ws' → Signalled ws ws'
signalled {ws} (woke i at e) =
    let m : Moved ws i dequeuing at = moved ws i dequeuing at in
    rw e (record {
      busy = omega arith;
      same_crew = m.same_crew;
      one_looks = λ h. omega arith;
      asleep = omega arith;
    })
signalled (nobody none_asleep e) =
    rw e
      (record { busy = refl; same_crew = refl; one_looks = λ h. omega arith; asleep = omega arith })

-- The queue's own counters.
record Enqueued (q q' : RequestQueue) : Type 0 where
  more : q'.size ≡ q.size + 1
  waiting_more : q'.dequeueing_size ≡ q.dequeueing_size + 1
  same_capacity : q'.capacity ≡ q.capacity

enqueued :
    (q : RequestQueue) {q' : RequestQueue} (c : ℕ) (t : Timeval)
    → enqueue q c t ≡ some q'
    → Enqueued q q'
unfolding enqueue
enqueued q c t h = ground arith

pub record Dequeued (q q' : RequestQueue) : Type 0 where
  pub same_size : q'.size ≡ q.size
  pub waiting_less : q'.dequeueing_size + 1 ≡ q.dequeueing_size
  pub same_capacity : q'.capacity ≡ q.capacity

pub dequeued :
    (q : RequestQueue) {q' : RequestQueue} (r : Option Request)
    → dequeue q ≡ some (r, q')
    → Dequeued q q'
unfolding dequeue
dequeued q r h = ground arith

dequeue_empty_lem : (q : RequestQueue) → dequeue q ≡ none → q.dequeueing_size ≡ 0
unfolding dequeue
dequeue_empty_lem q h = ground arith

never_full :
    (q : RequestQueue) (c : ℕ) (t : Timeval) → q.size < q.capacity → enqueue q c t ≡ none → ⊥
unfolding enqueue
never_full q c t lt h = ground arith

is_full-true : (q : RequestQueue) → is_full q ≡ true → q.size ≡ q.capacity
unfolding is_full
is_full-true q h = ground arith

is_full-false : (q : RequestQueue) → IsValid q → is_full q ≡ false → q.size < q.capacity
unfolding is_full
is_full-false q v h = ground arith

fifo_enqueue :
    (a d : List Arrival) (x : Arrival) (l l' : List (Option Arrival))
    → map some a ≡ map some d ++ l
    → l' ≡ l ++ (some x ∷ [])
    → map some (a ++ (x ∷ [])) ≡ map some d ++ l'
fifo_enqueue a d x l l' h e = simp (map-append, e, h, append_assoc)

order_enqueue :
    (a : List Arrival) (x : Arrival) {l : List ℕ}
    → l ≡ map connfd_of a ++ (x.connfd ∷ [])
    → l ≡ map connfd_of (a ++ (x ∷ [])) ++ []
order_enqueue a x e = e ∙ simp (map-append, append-nil)

fifo_dequeue :
    (a d : List Arrival) (x : Arrival) (l l' : List (Option Arrival))
    → map some a ≡ map some d ++ l
    → l ≡ some x ∷ l'
    → map some a ≡ map some (d ++ (x ∷ [])) ++ l'
fifo_dequeue a d x l l' h e = simp (map-append, h, e, append_assoc)

in_hand-signal : (m : MainPc) → in_hand (signal_not_full m) ≡ in_hand m
in_hand-signal accepting = refl
in_hand-signal (checking c) = refl
in_hand-signal (check_waiting c) = refl
in_hand-signal (enqueuing c t) = refl
in_hand-signal (enqueue_waiting c t) = refl

MainKnows-signal :
    (q : RequestQueue) (m : MainPc)
    → IsValid q
    → 0 < q.size
    → MainKnows q m
    → MainKnows (finish_handling q) (signal_not_full m)
unfolding finish_handling
MainKnows-signal q accepting v h k = tt
MainKnows-signal q (checking c) v h k = tt
MainKnows-signal q (check_waiting c) v h k = tt
MainKnows-signal q (enqueuing c t) v h k = omega arith
MainKnows-signal q (enqueue_waiting c t) v h k = absurd k

MainKnows-spurious :
    (q : RequestQueue) (m : MainPc) → MainKnows q m → MainKnows q (signal_not_full m)
MainKnows-spurious q accepting k = tt
MainKnows-spurious q (checking c) k = tt
MainKnows-spurious q (check_waiting c) k = tt
MainKnows-spurious q (enqueuing c t) k = k
MainKnows-spurious q (enqueue_waiting c t) k = absurd k

MainKnows-dequeue :
    (q q' : RequestQueue) (m : MainPc) → Dequeued q q' → MainKnows q m → MainKnows q' m
MainKnows-dequeue q q' (check_waiting c) d k = omega arith
MainKnows-dequeue q q' (enqueuing c t) d k = omega arith
MainKnows-dequeue q q' (enqueue_waiting c t) d k = k
MainKnows-dequeue q q' accepting d k = tt
MainKnows-dequeue q q' (checking c) d k = tt

module _ {n : ℕ} {s : Server} (inv : PoolInv n s) where
  open inv use {valid, crew, held, heard, knows, in_order, fifo}

  -- Only `main` moves.
  main-PoolInv :
      (m : MainPc)
      → MainKnows s.queue m
      → in_hand m ≡ in_hand s.main
      → PoolInv n (record s { main = m })
  main-PoolInv m k same = record {
    valid = valid;
    crew = crew;
    held = held;
    heard = heard;
    knows = k;
    in_order = in_order ∙ ap (λ l. map connfd_of s.enqueued ++ l) (sym same);
    fifo = fifo;
  }

  -- Only worker `i` moves, and holds a request before and after or neither.
  worker-PoolInv :
      (i : ℕ) {p : WorkerPc} (p' : WorkerPc)
      → get_elem? s.workers i ≡ some p
      → is_busy p' ≡ is_busy p
      → (0 < weigh is_waiting (set s.workers i p')
          → s.queue.dequeueing_size ≤ weigh is_looking (set s.workers i p'))
      → PoolInv n (record s { workers = set s.workers i p' })
  worker-PoolInv i p' at same heard' =
      let m : Moved s.workers i p' at = moved s.workers i p' at in
      record {
        valid = valid;
        crew = m.same_crew ∙ crew;
        held = omega arith;
        heard = heard';
        knows = knows;
        in_order = in_order;
        fifo = fifo;
      }

  finish-PoolInv :
      (i : ℕ)
      → get_elem? s.workers i ≡ some finishing
      → s.queue.dequeueing_size < s.queue.size
      → PoolInv n (record s {
        queue = finish_handling s.queue;
        main = signal_not_full s.main;
        workers = set s.workers i dequeuing;
      })
  unfolding finish_handling
  finish-PoolInv i at out =
      let m : Moved s.workers i dequeuing at = moved s.workers i dequeuing at in
      record {
        valid = finish_handling-IsValid s.queue valid out;
        crew = m.same_crew ∙ crew;
        held = omega arith;
        heard = λ h. omega arith;
        knows = MainKnows-signal s.queue s.main valid (omega arith) knows;
        in_order = in_order ∙ ap (λ l. map connfd_of s.enqueued ++ l) (sym (in_hand-signal s.main));
        fifo = fifo;
      }

  pub Step-PoolInv : {t : Server} → Step s t → PoolInv n t
  Step-PoolInv (accept at c) = record {
    valid = valid;
    crew = crew;
    held = held;
    heard = heard;
    knows = tt;
    in_order =
        ap (λ l. l ++ (c ∷ []))
          (in_order
            ∙ ap (λ m. map connfd_of s.enqueued ++ in_hand m) at
            ∙ append-nil (map connfd_of s.enqueued));
    fifo = fifo;
  }
  Step-PoolInv (check_full {c} at full) =
      main-PoolInv (check_waiting c) (is_full-true s.queue full) (ap in_hand (sym at))
  Step-PoolInv (check_room {c} at room t) =
      main-PoolInv (enqueuing c t) (is_full-false s.queue valid room) (ap in_hand (sym at))
  Step-PoolInv (enqueue_full {c} {t} at full) =
      absurd (never_full s.queue c t (subst (MainKnows s.queue) at knows) full)
  Step-PoolInv (enqueue_done {c} {t} {q} {ws} at done signal) =
      let e : Enqueued s.queue q = enqueued s.queue c t done in
      let g : Signalled s.workers ws = signalled signal in
      record {
        valid = (enqueue-IsValid s.queue q c t valid done).0;
        crew = g.same_crew ∙ crew;
        held = omega arith;
        heard = λ h. omega arith;
        knows = tt;
        in_order =
            order_enqueue s.enqueued (record { connfd = c; arrival_time = t })
              (in_order ∙ ap (λ m. map connfd_of s.enqueued ++ in_hand m) at);
        fifo =
            fifo_enqueue s.enqueued s.dispatched (record { connfd = c; arrival_time = t })
              (contents s.queue) (contents q) fifo (enqueue_refines s.queue q c t valid done);
      }
  Step-PoolInv (dequeue_empty i at empty) =
      worker-PoolInv i waiting at refl (λ h. omega (arith, dequeue_empty_lem s.queue empty))
  Step-PoolInv (dequeue_done i {r} {q} at done now) =
      let e : Dequeued s.queue q = dequeued s.queue (some r) done in
      let m : Moved s.workers i (handling r now) at = moved s.workers i (handling r now) at in
      record {
        valid = (dequeue-IsValid s.queue q (some r) valid done).0;
        crew = m.same_crew ∙ crew;
        held = omega arith;
        heard = λ h. omega arith;
        knows = MainKnows-dequeue s.queue q s.main e knows;
        in_order = in_order;
        fifo =
            fifo_dequeue s.enqueued s.dispatched (arrival_of r) (contents s.queue) (contents q) fifo
              (dequeue_refines s.queue q (some r) valid done);
      }
  Step-PoolInv (handled i {r} {now} at) =
      let m : Moved s.workers i finishing at = moved s.workers i finishing at in
      worker-PoolInv i finishing at refl (λ h. omega arith)
  Step-PoolInv (finish i at) =
      let m : Moved s.workers i dequeuing at = moved s.workers i dequeuing at in
      let out : s.queue.dequeueing_size < s.queue.size =
        omega (arith, weigh_pos is_busy s.workers i at) in
      finish-PoolInv i at out
  Step-PoolInv spurious_main =
      main-PoolInv (signal_not_full s.main) (MainKnows-spurious s.queue s.main knows)
        (in_hand-signal s.main)
  Step-PoolInv (spurious_worker i at) =
      let m : Moved s.workers i dequeuing at = moved s.workers i dequeuing at in
      worker-PoolInv i dequeuing at refl (λ h. omega arith)
