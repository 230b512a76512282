-- ===== src/OfflineQueue/Replay.antt =====
-- What a replay comes to: all operations in the queue's order while online, and the queue as it was
-- when the connection fails again at once.
use sorostream_sdk.Base.{
  ◌≤◌, ◌≡◌, refl, sym, ap, ◌∙◌, All, Bool, true, false, ◌||◌, none, some, List, [], ◌∷◌, ◌++◌,
  nat_eq, if◌then◌else◌, length, arith,
}
use mathlib.Core.List.{append_assoc, append-nil}
use sorostream_sdk.OfflineQueue.{
  QueuedOperation, QueueReplayResult, OfflineWriteQueue, before, insert_sorted, replay_next, drain,
  is_draining, is_empty, settle, settle_current, requeues,
}
use sorostream_sdk.OfflineQueue.Order.{Precedes, IsOrdered}
use sorostream_sdk.OfflineQueue.Invariant.{IsOrderly}

-- The operations of the queue with the outcomes that they had, in order.
abbrev pub outcomes : List QueuedOperation → List Bool → List QueueReplayResult
outcomes [] bs = []
outcomes (op ∷ ops) [] = []
outcomes (op ∷ ops) (b ∷ bs) = record { operation = op; success = b } ∷ outcomes ops bs

abbrev pub settle_all : List Bool → OfflineWriteQueue → OfflineWriteQueue
settle_all [] q = q
settle_all (b ∷ bs) q = settle_all bs (settle b q)

online-requeues : (b : Bool) (q : OfflineWriteQueue) → q.is_online ≡ true → requeues b q ≡ false
online-requeues b q e = ground arith

-- The queue with nothing left to replay, when the results of a replay are emitted.
abbrev pub emitted : List QueueReplayResult → OfflineWriteQueue → OfflineWriteQueue
emitted rs q = record q { queue = []; current = none; results = []; drained = q.drained ++ rs ∷ [] }

replay_all :
    (ops : List QueuedOperation) (bs : List Bool) (q : OfflineWriteQueue)
    → q.is_online ≡ true
    → length bs ≡ length ops
    → settle_all bs (replay_next ops q) ≡ emitted (q.results ++ outcomes ops bs) q
unfolding replay_next settle
replay_all [] [] q on e = ap (λ r. emitted r q) (sym (append-nil q.results))
replay_all [] (b ∷ bs) q on e = absurd (ground arith)
replay_all (op ∷ ops) [] q on e = absurd (ground arith)
replay_all (op ∷ ops) (b ∷ bs) q on e =
    let called : OfflineWriteQueue = record q { queue = ops; current = some op } in
    let result : QueueReplayResult = record { operation = op; success = b } in
    let noted : OfflineWriteQueue = record called { results = q.results ++ result ∷ [] } in
    let rest = replay_all ops bs noted on (omega arith) in
    rw (online-requeues b called on)
      (rest ∙ ap (λ r. emitted r q) (append_assoc q.results (result ∷ []) (outcomes ops bs)))

nonempty : (ops : List QueuedOperation) → 1 ≤ length ops → is_empty ops ≡ false
nonempty [] h = absurd (omega arith)
nonempty (op ∷ ops) h = refl

drain-idle :
    (q : OfflineWriteQueue) (ops : List QueuedOperation)
    → q.current ≡ none
    → q.queue ≡ ops
    → drain q ≡ (if is_empty ops then q else replay_next ops q)
unfolding drain
drain-idle q ops idle e =
    ap (λ c. if is_draining c || is_empty q.queue then q else replay_next q.queue q) idle
    ∙ ap (λ l. if is_empty l then q else replay_next l q) e

-- While online, a drain of an idle queue that is not empty replays its operations one by one: once as many have settled
-- as were waiting, the queue is empty and idle again, and one event has been emitted that lists the
-- operations in the queue's order with their outcomes, failed ones included.
pub drain-settle_all :
    (bs : List Bool) (q : OfflineWriteQueue)
    → q.is_online ≡ true
    → q.current ≡ none
    → q.results ≡ []
    → 1 ≤ length q.queue
    → length bs ≡ length q.queue
    → settle_all bs (drain q) ≡ emitted (outcomes q.queue bs) q
drain-settle_all bs q on idle fresh some_left e =
    ap (settle_all bs) (
      drain-idle q q.queue idle refl
      ∙ ap (λ b. if b then q else replay_next q.queue q) (nonempty q.queue some_left))
    ∙ replay_all q.queue bs q on e
    ∙ ap (λ r. emitted (r ++ outcomes q.queue bs) q) fresh

first-back :
    (op : QueuedOperation) (ops : List QueuedOperation)
    → All (Precedes op) ops
    → insert_sorted op ops ≡ op ∷ ops
unfolding insert_sorted
first-back op [] h = refl
first-back op (o ∷ ops) (p, h) = let b : before op o ≡ true = ground arith in rw b refl

-- The first operation fails while offline, and there is room for it.
cut_off :
    (ops : List QueuedOperation) (q : OfflineWriteQueue)
    → q.current ≡ none
    → q.is_online ≡ false
    → IsOrdered ops
    → length ops ≤ q.max_queue_size
    → (settle false (if is_empty ops then q else replay_next ops q)).queue
      ≡ (if is_empty ops then q.queue else ops)
unfolding settle replay_next
cut_off [] q idle off o b = ap (λ c. (settle_current c false q).queue) idle
cut_off (op ∷ ops) q idle off o b =
    let called : OfflineWriteQueue = record q { queue = ops; current = some op } in
    let back : requeues false called ≡ true = ground (arith, off, b) in
    rw back (first-back op ops o.0)

-- A drain that is cut off at its first operation, since the connection is lost again, puts that
-- operation back where it was: the queue is as before, and the failed attempt is reported.
pub drain-settle_offline :
    (q : OfflineWriteQueue)
    → IsOrderly q
    → q.is_online ≡ false
    → q.current ≡ none
    → (settle false (drain q)).queue ≡ q.queue
drain-settle_offline q h off idle =
    ap (λ r. (settle false r).queue) (drain-idle q q.queue idle refl)
    ∙ cut_off q.queue q idle off h.kept.ordered h.bounded
    ∙ same (is_empty q.queue)
  where
    same : (b : Bool) → (if b then q.queue else q.queue) ≡ q.queue
    same true = refl
    same false = refl
