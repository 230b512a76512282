-- ===== src/OfflineQueue.antt =====
-- offlineQueue.ts: `OfflineWriteQueue`. `drain` awaits each operation, so it is split there: `drain` up
-- to the first `await`, and `settle` from an operation's outcome to the next one. What else happens in
-- between are further events. An operation is known by its name; ids and times of queuing are left
-- out. A priority is a natural number. `drained` lists the results of each `queueDrained` event.
pub mod Order
pub mod Invariant
pub mod Replay
pub mod Conservation
mod Tests
use sorostream_sdk.Base.{
  ℕ, zero, suc, ◌+◌, ◌-◌, String, Bool, true, false, ◌&&◌, ◌||◌, not, Option, none, some, List, [],
  ◌∷◌, ◌++◌, nat_eq, ◌==◌, ltb, leb, if◌then◌else◌, length,
}

pub record QueuedOperation : Type 0 where
  pub operation : String
  pub priority : ℕ
  pub sequence : ℕ

pub record QueueReplayResult : Type 0 where
  pub operation : QueuedOperation
  pub success : Bool

pub record OfflineWriteQueue : Type 0 where
  pub enabled : Bool
  pub max_queue_size : ℕ
  pub queue : List QueuedOperation
  pub is_online : Bool
  pub next_sequence : ℕ
  pub polls : Bool
  pub pending_checks : ℕ
  pub current : Option QueuedOperation
  pub results : List QueueReplayResult
  pub drained : List (List QueueReplayResult)

unfoldable pub create : Bool → ℕ → OfflineWriteQueue
create enabled max_queue_size = record {
  enabled = enabled;
  max_queue_size = max_queue_size;
  queue = [];
  is_online = true;
  next_sequence = 0;
  polls = false;
  pending_checks = 0;
  current = none;
  results = [];
  drained = [];
}

-- The test of `findIndex`: the new operation goes in front of the queued one.
abbrev pub before : QueuedOperation → QueuedOperation → Bool
before new op =
    ltb op.priority new.priority || (op.priority == new.priority && ltb new.sequence op.sequence)

unfoldable pub insert_sorted : QueuedOperation → List QueuedOperation → List QueuedOperation
insert_sorted new [] = new ∷ []
insert_sorted new (op ∷ ops) =
    let later = op ∷ insert_sorted new ops in if before new op then new ∷ op ∷ ops else later

-- `enqueue`, and whether it returns true.
unfoldable pub enqueue : String → ℕ → OfflineWriteQueue → OfflineWriteQueue × Bool
unfolding insert_sorted
enqueue operation priority q =
    if not q.enabled || leb q.max_queue_size (length q.queue) then (q, false) else (
      record q {
        queue =
            insert_sorted
              (record { operation = operation; priority = priority; sequence = q.next_sequence })
              q.queue;
        next_sequence = q.next_sequence + 1;
      },
      true,
    )

-- The head of the loop of `drain`: the next operation is called, or the results are emitted.
unfoldable pub replay_next : List QueuedOperation → OfflineWriteQueue → OfflineWriteQueue
replay_next [] q = record q {
  queue = [];
  current = none;
  results = [];
  drained = q.drained ++ q.results ∷ [];
}
replay_next (op ∷ ops) q = record q { queue = ops; current = some op }

-- `isDraining` is that an operation is being replayed.
abbrev pub is_draining : Option QueuedOperation → Bool
is_draining none = false
is_draining (some op) = true

abbrev pub is_empty : List QueuedOperation → Bool
is_empty [] = true
is_empty (op ∷ ops) = false

unfoldable pub drain : OfflineWriteQueue → OfflineWriteQueue
unfolding replay_next
drain q = if is_draining q.current || is_empty q.queue then q else replay_next q.queue q

-- The `catch` puts the operation back and ends the loop, while offline and if there is room.
abbrev pub requeues : Bool → OfflineWriteQueue → Bool
requeues success q = not success && (not q.is_online && ltb (length q.queue) q.max_queue_size)

abbrev pub settle_current : Option QueuedOperation → Bool → OfflineWriteQueue → OfflineWriteQueue
settle_current none success q = q
settle_current (some op) success q =
    let noted = record q {
      results = q.results ++ record { operation = op; success = success } ∷ [];
    } in
    if requeues success q
    then record (replay_next [] noted) { queue = insert_sorted op q.queue }
    else replay_next q.queue noted

unfoldable pub settle : Bool → OfflineWriteQueue → OfflineWriteQueue
unfolding replay_next insert_sorted
settle success q = settle_current q.current success q

unfoldable pub mark_offline : OfflineWriteQueue → OfflineWriteQueue
mark_offline q = record q { is_online = false }

unfoldable pub mark_online : OfflineWriteQueue → OfflineWriteQueue
unfolding drain
mark_online q = drain (record q { is_online = true })

unfoldable pub clear : OfflineWriteQueue → OfflineWriteQueue
clear q = record q { queue = [] }

unfoldable pub start_health_check : OfflineWriteQueue → OfflineWriteQueue
start_health_check q = if q.enabled then record q { polls = true } else q

unfoldable pub stop_health_check : OfflineWriteQueue → OfflineWriteQueue
stop_health_check q = record q { polls = false }

-- A round of the timer, up to the `await` of the health check.
unfoldable pub poll : OfflineWriteQueue → OfflineWriteQueue
poll q =
    if not q.polls || (q.is_online || is_empty q.queue)
    then q
    else record q { pending_checks = q.pending_checks + 1 }

-- The outcome of a health check; one that throws is not healthy.
unfoldable pub checked : Bool → OfflineWriteQueue → OfflineWriteQueue
unfolding mark_online drain
checked healthy q =
    if q.pending_checks == 0
    then q
    else let waited = record q { pending_checks = q.pending_checks - 1 } in
      if healthy then mark_online waited else waited

-- What can happen to a queue, in any order.
pub data Event : Type 0 where
  write : String → ℕ → Event
  settled : Bool → Event
  go_offline go_online drain_now clear_now start_polls stop_polls tick : Event
  answered : Bool → Event

unfoldable pub step : Event → OfflineWriteQueue → OfflineWriteQueue
unfolding enqueue settle mark_offline mark_online drain clear start_health_check stop_health_check
    poll checked
step (write operation priority) q = (enqueue operation priority q).0
step (settled success) q = settle success q
step go_offline q = mark_offline q
step go_online q = mark_online q
step drain_now q = drain q
step clear_now q = clear q
step start_polls q = start_health_check q
step stop_polls q = stop_health_check q
step tick q = poll q
step (answered healthy) q = checked healthy q
