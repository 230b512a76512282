-- ===== src/OfflineQueue/Tests.antt =====
-- Queues at concrete operations.
use sorostream_sdk.Base.{◌+◌, ◌≡◌, refl, true, false, none, List, [], ◌∷◌, sum_of, arith}
use sorostream_sdk.OfflineQueue.{
  QueuedOperation, OfflineWriteQueue, create, insert_sorted, enqueue, drain, mark_offline, poll,
  start_health_check, Event, write, settled, go_offline, go_online, clear_now, start_polls, tick,
  answered, step,
}
use sorostream_sdk.OfflineQueue.Invariant.{IsOrderly, step-IsOrderly}
use sorostream_sdk.OfflineQueue.Conservation.{run, held, left_all, accepted_all, run-held}
use sorostream_sdk.OfflineQueue.Replay.{outcomes, settle_all, emitted, drain-settle_all}

abbrev writes : List Event
writes = write "withdraw" 0 ∷ write "cancelStream" 5 ∷ write "topUp" 0 ∷ []

abbrev filled : OfflineWriteQueue
filled = record {
  enabled = true;
  max_queue_size = 3;
  queue =
      record { operation = "cancelStream"; priority = 5; sequence = 1 }
      ∷ record { operation = "withdraw"; priority = 0; sequence = 0 }
      ∷ record { operation = "topUp"; priority = 0; sequence = 2 }
      ∷ [];
  is_online = false;
  next_sequence = 3;
  polls = false;
  pending_checks = 1;
  current = none;
  results = [];
  drained = [];
}

-- Three writes are kept in replay order, a fourth finds the queue full.
run-create :
    run (go_offline ∷ start_polls ∷ tick ∷ writes) (create true 3)
    ≡ record filled { polls = true; pending_checks = 0 }
unfolding create step enqueue insert_sorted mark_offline start_health_check poll
run-create = refl

filled_refuses : (enqueue "pause" 9 filled).1 ≡ false
unfolding enqueue
filled_refuses = refl

filled-IsOrderly : IsOrderly filled
filled-IsOrderly = record {
  kept = record { ordered = ground arith; distinct = ground arith; older = ground arith };
  running = tt;
  bounded = omega arith;
}

step-IsOrderly_example : IsOrderly (step (answered true) filled)
step-IsOrderly_example = step-IsOrderly (answered true) filled filled-IsOrderly

abbrev history : List Event
history = write "pause" 0 ∷ go_online ∷ settled true ∷ clear_now ∷ settled false ∷ []

run-held_example :
    held (λ op. op.sequence) (run history filled)
      + sum_of (λ (op : QueuedOperation). op.sequence) (left_all history filled)
    ≡ held (λ op. op.sequence) filled
      + sum_of (λ (op : QueuedOperation). op.sequence) (accepted_all history filled)
run-held_example = run-held (λ op. op.sequence) history filled

abbrev online : OfflineWriteQueue
online = record filled { is_online = true }

drain-settle_all_example :
    settle_all (true ∷ false ∷ true ∷ []) (drain online)
    ≡ emitted (outcomes online.queue (true ∷ false ∷ true ∷ [])) online
drain-settle_all_example =
    drain-settle_all (true ∷ false ∷ true ∷ []) online refl refl refl (omega arith) refl
