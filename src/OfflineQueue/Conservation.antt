-- ===== src/OfflineQueue/Conservation.antt =====
-- No operation is lost: each one that was accepted waits, runs, or has left for good.
use sorostream_sdk.Base.{
  ℕ, ◌+◌, ◌≡◌, refl, String, Bool, false, not, ◌||◌, Option, none, some, List, [], ◌∷◌, nat_eq,
  true, ◌++◌, ltb, sum_of, sum_of-append, ◌==◌, leb, if◌then◌else◌, length, inl, inr, ap, if_elim,
  Bool-cases, arith,
}
use sorostream_sdk.OfflineQueue.{
  before, insert_sorted, QueuedOperation, OfflineWriteQueue, enqueue, replay_next, drain,
  is_draining, is_empty, requeues, settle_current, mark_online, clear, checked, Event, write,
  settled, go_offline, go_online, drain_now, clear_now, start_polls, stop_polls, tick, answered,
  step,
}

abbrev pub run : List Event → OfflineWriteQueue → OfflineWriteQueue
run [] q = q
run (e ∷ es) q = run es (step e q)

-- An operation that failed while offline comes back if there is room for it.
abbrev comes_back : Bool → OfflineWriteQueue → Bool
comes_back true q = false
comes_back false q = if q.is_online then false else ltb (length q.queue) q.max_queue_size

requeues-eq : (success : Bool) (q : OfflineWriteQueue) → requeues success q ≡ comes_back success q
requeues-eq success q = ground arith

-- The operation that runs, if any.
abbrev pub running : Option QueuedOperation → List QueuedOperation
running none = []
running (some op) = op ∷ []

-- The operations that an event brings in: a write that `enqueue` accepts.
abbrev accepted : Event → OfflineWriteQueue → List QueuedOperation
accepted (write name p) q =
    if (enqueue name p q).1
    then record { operation = name; priority = p; sequence = q.next_sequence } ∷ []
    else []
accepted (settled b) q = []
accepted go_offline q = []
accepted go_online q = []
accepted drain_now q = []
accepted clear_now q = []
accepted start_polls q = []
accepted stop_polls q = []
accepted tick q = []
accepted (answered b) q = []

-- The operations that leave at an event: the one that settles and does not come back, or all that wait
-- when the queue is cleared.
abbrev left : Event → OfflineWriteQueue → List QueuedOperation
left (write name p) q = []
left (settled success) q = if comes_back success q then [] else running q.current
left go_offline q = []
left go_online q = []
left drain_now q = []
left clear_now q = q.queue
left start_polls q = []
left stop_polls q = []
left tick q = []
left (answered b) q = []

abbrev pub accepted_all : List Event → OfflineWriteQueue → List QueuedOperation
accepted_all [] q = []
accepted_all (e ∷ es) q = accepted e q ++ accepted_all es (step e q)

abbrev pub left_all : List Event → OfflineWriteQueue → List QueuedOperation
left_all [] q = []
left_all (e ∷ es) q = left e q ++ left_all es (step e q)

module _ (w : QueuedOperation → ℕ) where
  -- The operations that wait or run, each with its weight.
  abbrev pub held : OfflineWriteQueue → ℕ
  held q = sum_of w q.queue + sum_of w (running q.current)

  held-replay_next :
      (ops : List QueuedOperation) (q : OfflineWriteQueue) → held (replay_next ops q) ≡ sum_of w ops
  unfolding replay_next
  held-replay_next [] q = refl
  held-replay_next (op ∷ ops) q = omega arith

  sum_of-insert_sorted :
      (op : QueuedOperation) (ops : List QueuedOperation)
      → sum_of w (insert_sorted op ops) ≡ w op + sum_of w ops
  unfolding insert_sorted
  sum_of-insert_sorted op [] = refl
  sum_of-insert_sorted op (o ∷ ops) =
      if_elim (λ l. sum_of w l ≡ w op + sum_of w (o ∷ ops)) (before op o) (λ first. refl)
        (λ later. omega (arith, sum_of-insert_sorted op ops))

  idle-running : (c : Option QueuedOperation) → is_draining c ≡ false → sum_of w (running c) ≡ 0
  idle-running none h = refl
  idle-running (some op) h = absurd (ground arith)

  held-drain : (q : OfflineWriteQueue) → held (drain q) ≡ held q
  unfolding drain
  held-drain q =
      if_elim (λ r. held r ≡ held q) (is_draining q.current || is_empty q.queue) (λ idle. refl)
        (λ go. ground (arith, held-replay_next q.queue q, idle-running q.current))

  held-settle_current :
      (success : Bool) (c : Option QueuedOperation) (q : OfflineWriteQueue)
      → q.current ≡ c
      → held (settle_current c success q)
          + sum_of w (if comes_back success q then [] else running c)
        ≡ sum_of w q.queue + sum_of w (running c)
  unfolding replay_next
  held-settle_current success none q e =
      if_elim (λ l. held q + sum_of w l ≡ sum_of w q.queue + 0) (comes_back success q)
        (λ back. omega (arith, ap (λ o. sum_of w (running o)) e))
        (λ gone. omega (arith, ap (λ o. sum_of w (running o)) e))
  held-settle_current success (some op) q e = elim (Bool-cases (comes_back success q)) [
    | inl back ↦ rw (requeues-eq success q, back) (omega (arith, sum_of-insert_sorted op q.queue))
    | inr on ↦
        rw (requeues-eq success q, on) (ap (λ n. n + (w op + 0)) (held-replay_next q.queue _))
  ]

  held-enqueue :
      (name : String) (p : ℕ) (q : OfflineWriteQueue)
      → held (enqueue name p q).0 ≡ held q + sum_of w (accepted (write name p) q)
  unfolding enqueue
  held-enqueue name p q =
      let new : QueuedOperation = record {
        operation = name;
        priority = p;
        sequence = q.next_sequence;
      } in
      if_elim
        (λ (r : OfflineWriteQueue × Bool).
          held r.0 ≡ held q + sum_of w (if r.1 then new ∷ [] else []))
        (not q.enabled || leb q.max_queue_size (length q.queue)) (λ refused. omega arith)
        (λ room. omega (arith, sum_of-insert_sorted new q.queue))

  held-checked : (healthy : Bool) (q : OfflineWriteQueue) → held (checked healthy q) ≡ held q
  unfolding checked mark_online
  held-checked healthy q =
      if_elim (λ r. held r ≡ held q) (q.pending_checks == 0) (λ idle. refl)
        (λ waits. if_elim (λ r. held r ≡ held q) healthy (λ up. held-drain _) (λ down. refl))

  held-step :
      (e : Event) (q : OfflineWriteQueue)
      → held (step e q) + sum_of w (left e q) ≡ held q + sum_of w (accepted e q)
  unfolding step clear
  held-step (write name p) q = omega (arith, held-enqueue name p q)
  held-step (settled success) q = omega (arith, held-settle_current success q.current q refl)
  held-step go_offline q = refl
  held-step go_online q = omega (arith, held-drain _)
  held-step drain_now q = omega (arith, held-drain q)
  held-step clear_now q = omega arith
  held-step start_polls q =
      if_elim (λ r. held r + 0 ≡ held q + 0) q.enabled (λ on. refl) (λ off. refl)
  held-step stop_polls q = refl
  held-step tick q =
      if_elim (λ r. held r + 0 ≡ held q + 0) (not q.polls || (q.is_online || is_empty q.queue))
        (λ idle. refl) (λ asks. refl)
  held-step (answered healthy) q = omega (arith, held-checked healthy q)

  -- Whatever happens to a queue, the operations it holds and those that left for good are those it
  -- held at first and those that were accepted: with any weights of the operations, they weigh the
  -- same. An operation leaves when it settles, unless it failed offline and there is room for it, or
  -- when the queue is cleared.
  pub run-held :
      (es : List Event) (q : OfflineWriteQueue)
      → held (run es q) + sum_of w (left_all es q) ≡ held q + sum_of w (accepted_all es q)
  run-held [] q = refl
  run-held (e ∷ es) q = omega (
    arith,
    held-step e q,
    run-held es (step e q),
    sum_of-append w (left e q) (left_all es (step e q)),
    sum_of-append w (accepted e q) (accepted_all es (step e q)),
  )
