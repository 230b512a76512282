-- ===== src/RequestQueue/Tests.antt =====
-- Request queues at concrete tasks, which are numbers.
use sorostream_sdk.Base.{ℕ, ◌+◌, ◌≡◌, refl, Option, none, some, [], ◌∷◌, string_eq, All}
use sorostream_sdk.Base.Dict
use sorostream_sdk.RequestQueue.{
  QueuedItem, PriorityRequestQueue, high, normal, low, create, queue_of, dequeue_next, scan_lanes,
  scan_queue, remove_at, total_queued, submit, step,
}
use sorostream_sdk.RequestQueue.Choice.{Leads}
use sorostream_sdk.RequestQueue.Place.{dequeue_next-Leads}
use sorostream_sdk.RequestQueue.Invariant.{Stepped, step-Stepped}
use sorostream_sdk.RequestQueue.Start.{create-IsSound}

abbrev waiting : PriorityRequestQueue ℕ
waiting = record {
  max_concurrent = 1;
  priority_lanes = "write" ∷ "read" ∷ [];
  queues =
      ("write", record { lane = "write"; task = 2; enqueued_at = 5; priority = low } ∷ [])
      ∷ (
        "read",
        record { lane = "read"; task = 3; enqueued_at = 6; priority = normal }
            ∷ record { lane = "read"; task = 4; enqueued_at = 7; priority = high }
            ∷ [],
      )
      ∷ [];
  in_flight_per_lane = ("write", 1) ∷ ("read", 0) ∷ [];
  total_in_flight = 1;
  recent_durations = [];
  started = ("write", 1) ∷ [];
  delayed = [];
}

-- A late request of high priority is taken before the earlier ones.
abbrev task_of : Option (QueuedItem ℕ × PriorityRequestQueue ℕ) → ℕ
task_of none = 0
task_of (some (item, q)) = item.task

waiting_next : task_of (dequeue_next waiting) ≡ 4
unfolding dequeue_next scan_lanes scan_queue Dict.get
waiting_next = refl

step-Stepped_example :
    Stepped {T = ℕ}
      (("read", 7) ∷ [])
      (create none [])
      (step (submit "read" 7 none 3) (create none []))
step-Stepped_example =
    step-Stepped (submit "read" 7 none 3) (create none []) (create-IsSound none [])

abbrev taken : PriorityRequestQueue ℕ
taken = record waiting {
  queues =
      ("write", record { lane = "write"; task = 2; enqueued_at = 5; priority = low } ∷ [])
      ∷ ("read", record { lane = "read"; task = 3; enqueued_at = 6; priority = normal } ∷ [])
      ∷ [];
}

abbrev urgent : QueuedItem ℕ
urgent = record { lane = "read"; task = 4; enqueued_at = 7; priority = high }

dequeue_next-Leads_example :
    All (λ lane. All (Leads urgent) (queue_of lane waiting.queues)) waiting.priority_lanes
    × (total_queued taken + 1 ≡ total_queued waiting)
unfolding dequeue_next scan_lanes scan_queue Dict.get Dict.set remove_at
dequeue_next-Leads_example =
    dequeue_next-Leads waiting taken urgent ((refl, tt), ((refl, (refl, tt)), tt)) refl
