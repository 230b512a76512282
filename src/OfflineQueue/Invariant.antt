-- ===== src/OfflineQueue/Invariant.antt =====
-- What holds of the queue after any sequence of events, and that no operation is lost on the way.
use sorostream_sdk.Base.{
  ℕ, ◌+◌, ◌-◌, ◌≤◌, ◌<◌, ◌≢◌, inl, inr, String, Bool, not, ◌||◌, Option, none, some, List, [], ◌∷◌,
  nat_eq, ◌==◌, leb, length, All, Bool-cases, if_elim, arith,
}
use sorostream_sdk.OfflineQueue.{
  QueuedOperation, OfflineWriteQueue, insert_sorted, enqueue, replay_next, drain, is_draining,
  is_empty, requeues, settle, settle_current, mark_online, start_health_check, poll, checked, Event,
  write, settled, go_offline, go_online, drain_now, clear_now, start_polls, stop_polls, tick,
  answered, step,
}
use sorostream_sdk.OfflineQueue.Order.{
  IsOrdered, Apart, insert_sorted-All, insert_sorted-IsOrdered, length-insert_sorted,
}

abbrev pub IsDistinct : List QueuedOperation → Type 0
IsDistinct [] = Unit
IsDistinct (a ∷ ops) = Apart a ops × IsDistinct ops

abbrev IsOlder : ℕ → QueuedOperation → Type 0
IsOlder next op = op.sequence < next

-- The operations are in order, and their sequence numbers differ and were given out before `next`.
pub record IsKept (next : ℕ) (ops : List QueuedOperation) : Type 0 where
  pub ordered : IsOrdered ops
  pub distinct : IsDistinct ops
  pub older : All (IsOlder next) ops

-- The operation that is being replayed is older than `next`, and not in the queue.
abbrev pub IsRunning : ℕ → Option QueuedOperation → List QueuedOperation → Type 0
IsRunning next none ops = Unit
IsRunning next (some op) ops = IsOlder next op × Apart op ops

pub record IsOrderly (q : OfflineWriteQueue) : Type 0 where
  pub kept : IsKept q.next_sequence q.queue
  pub running : IsRunning q.next_sequence q.current q.queue
  pub bounded : length q.queue ≤ q.max_queue_size

Apart-sym : (a b : QueuedOperation) → a.sequence ≢ b.sequence → b.sequence ≢ a.sequence
Apart-sym a b h e = omega arith

insert_sorted-IsDistinct :
    (new : QueuedOperation) (ops : List QueuedOperation)
    → Apart new ops
    → IsDistinct ops
    → IsDistinct (insert_sorted new ops)
unfolding insert_sorted
insert_sorted-IsDistinct new [] a h = (tt, tt)
insert_sorted-IsDistinct new (op ∷ ops) (a, apart) (h, hs) = ground (
  arith,
  insert_sorted-IsDistinct new ops apart hs,
  insert_sorted-All (λ b. b.sequence ≢ op.sequence) new ops (Apart-sym op new a) h,
)

insert_sorted-IsKept :
    (next : ℕ) (new : QueuedOperation) (ops : List QueuedOperation)
    → IsOlder next new
    → Apart new ops
    → IsKept next ops
    → IsKept next (insert_sorted new ops)
insert_sorted-IsKept next new ops o a k = record {
  ordered = insert_sorted-IsOrdered new ops a k.ordered;
  distinct = insert_sorted-IsDistinct new ops a k.distinct;
  older = insert_sorted-All (IsOlder next) new ops o k.older;
}

IsOlder-suc : (n : ℕ) (ops : List QueuedOperation) → All (IsOlder n) ops → All (IsOlder (n + 1)) ops
IsOlder-suc n [] h = tt
IsOlder-suc n (op ∷ ops) (p, h) = (omega arith, IsOlder-suc n ops h)

IsOlder-Apart :
    (new : QueuedOperation) (ops : List QueuedOperation)
    → All (IsOlder new.sequence) ops
    → Apart new ops
IsOlder-Apart new [] h = tt
IsOlder-Apart new (op ∷ ops) (p, h) = ((λ e. omega arith), IsOlder-Apart new ops h)

IsKept-suc : (n : ℕ) (ops : List QueuedOperation) → IsKept n ops → IsKept (n + 1) ops
IsKept-suc n ops k = record {
  ordered = k.ordered;
  distinct = k.distinct;
  older = IsOlder-suc n ops k.older;
}

IsRunning-insert_sorted :
    (n p : ℕ) (name : String) (current : Option QueuedOperation) (ops : List QueuedOperation)
    → IsRunning n current ops
    → IsRunning
        (n + 1)
        current
        (insert_sorted (record { operation = name; priority = p; sequence = n }) ops)
IsRunning-insert_sorted n p name none ops h = tt
IsRunning-insert_sorted n p name (some op) ops (o, a) =
    (omega arith, insert_sorted-All (λ b. b.sequence ≢ op.sequence) _ ops (λ e. omega arith) a)

-- Starting the next operation keeps the queue sound.
replay_next-IsOrderly :
    (ops : List QueuedOperation) (q : OfflineWriteQueue)
    → IsKept q.next_sequence ops
    → length ops ≤ q.max_queue_size
    → IsOrderly (replay_next ops q)
unfolding replay_next
replay_next-IsOrderly [] q k b = record { kept = k; running = tt; bounded = b }
replay_next-IsOrderly (op ∷ ops) q k b = record {
  kept = record { ordered = k.ordered.1; distinct = k.distinct.1; older = k.older.1 };
  running = (k.older.0, k.distinct.0);
  bounded = omega arith;
}

drain-IsOrderly : (q : OfflineWriteQueue) → IsOrderly q → IsOrderly (drain q)
unfolding drain
drain-IsOrderly q h =
    if_elim IsOrderly (is_draining q.current || is_empty q.queue) (λ idle. h)
      (λ go. replay_next-IsOrderly q.queue q h.kept h.bounded)

enqueue-IsOrderly :
    (name : String) (p : ℕ) (q : OfflineWriteQueue) → IsOrderly q → IsOrderly (enqueue name p q).0
unfolding enqueue
enqueue-IsOrderly name p q h =
    elim (Bool-cases (not q.enabled || leb q.max_queue_size (length q.queue))) [
      | inl refused ↦ rw refused h
      | inr room ↦
          let new : QueuedOperation = record {
            operation = name;
            priority = p;
            sequence = q.next_sequence;
          } in
          rw room (record {
            kept =
                insert_sorted-IsKept (q.next_sequence + 1) new q.queue (omega arith)
                  (IsOlder-Apart new q.queue h.kept.older)
                  (IsKept-suc q.next_sequence q.queue h.kept);
            running = IsRunning-insert_sorted q.next_sequence p name q.current q.queue h.running;
            bounded = ground (arith, length-insert_sorted new q.queue);
          })
    ]

settle_current-IsOrderly :
    (success : Bool) (c : Option QueuedOperation) (q : OfflineWriteQueue)
    → IsRunning q.next_sequence c q.queue
    → IsOrderly q
    → IsOrderly (settle_current c success q)
unfolding replay_next
settle_current-IsOrderly success none q r h = h
settle_current-IsOrderly success (some op) q r h =
    if_elim IsOrderly (requeues success q)
      (λ back. record {
        kept = insert_sorted-IsKept q.next_sequence op q.queue r.0 r.1 h.kept;
        running = tt;
        bounded = ground (arith, back, length-insert_sorted op q.queue);
      })
      (λ on. replay_next-IsOrderly q.queue _ h.kept h.bounded)

settle-IsOrderly :
    (success : Bool) (q : OfflineWriteQueue) → IsOrderly q → IsOrderly (settle success q)
unfolding settle
settle-IsOrderly success q h = settle_current-IsOrderly success q.current q h.running h

mark_online-IsOrderly : (q : OfflineWriteQueue) → IsOrderly q → IsOrderly (mark_online q)
unfolding mark_online
mark_online-IsOrderly q h =
    drain-IsOrderly _ (record { kept = h.kept; running = h.running; bounded = h.bounded })

checked-IsOrderly :
    (healthy : Bool) (q : OfflineWriteQueue) → IsOrderly q → IsOrderly (checked healthy q)
unfolding checked
checked-IsOrderly healthy q h =
    if_elim IsOrderly (q.pending_checks == 0) (λ idle. h)
      (λ waits.
        let waited : OfflineWriteQueue = record q { pending_checks = q.pending_checks - 1 } in
        let sound : IsOrderly waited = record {
          kept = h.kept;
          running = h.running;
          bounded = h.bounded;
        } in
        if_elim IsOrderly healthy (λ up. mark_online-IsOrderly waited sound) (λ down. sound))

start_polls-IsOrderly : (q : OfflineWriteQueue) → IsOrderly q → IsOrderly (start_health_check q)
unfolding start_health_check
start_polls-IsOrderly q h =
    if_elim IsOrderly q.enabled
      (λ on. record { kept = h.kept; running = h.running; bounded = h.bounded }) (λ off. h)

poll-IsOrderly : (q : OfflineWriteQueue) → IsOrderly q → IsOrderly (poll q)
unfolding poll
poll-IsOrderly q h =
    if_elim IsOrderly (not q.polls || (q.is_online || is_empty q.queue)) (λ idle. h)
      (λ asks. record { kept = h.kept; running = h.running; bounded = h.bounded })

-- The queue stays in replay order without duplicates, within its size, and apart from the operation
-- being replayed, whatever happens to it.
pub step-IsOrderly : (e : Event) (q : OfflineWriteQueue) → IsOrderly q → IsOrderly (step e q)
unfolding step
step-IsOrderly (write name p) q h = enqueue-IsOrderly name p q h
step-IsOrderly (settled success) q h = settle-IsOrderly success q h
step-IsOrderly go_offline q h = record { kept = h.kept; running = h.running; bounded = h.bounded }
step-IsOrderly go_online q h = mark_online-IsOrderly q h
step-IsOrderly drain_now q h = drain-IsOrderly q h
step-IsOrderly clear_now q h = record {
  kept = record { ordered = tt; distinct = tt; older = tt };
  running = nothing q.current h.running;
  bounded = omega arith;
}
  where
    nothing :
        (c : Option QueuedOperation)
        → IsRunning q.next_sequence c q.queue
        → IsRunning q.next_sequence c []
    nothing none r = tt
    nothing (some op) r = (r.0, tt)
step-IsOrderly start_polls q h = start_polls-IsOrderly q h
step-IsOrderly stop_polls q h = record { kept = h.kept; running = h.running; bounded = h.bounded }
step-IsOrderly tick q h = poll-IsOrderly q h
step-IsOrderly (answered healthy) q h = checked-IsOrderly healthy q h
