-- ===== src/RequestQueue.antt =====
-- request-queue.ts: `PriorityRequestQueue`. A task is started by calling it; what it does then is not
-- looked at, and `settled` is its outcome, either way. `started` lists the tasks that were called, in
-- order, and `delayed` the calls of `onDelayed`. The time is an argument. An average is a quotient of
-- numbers, not a double.
pub mod Choice
pub mod Place
pub mod Drain
pub mod Register
pub mod Invariant
pub mod Start
mod Tests
use sorostream_sdk.Base.{
  ℕ, zero, suc, ◌+◌, ◌-◌, ◌*◌, ◌/◌, max, String, Bool, true, false, ◌&&◌, ◌||◌, Option, none, some,
  List, [], ◌∷◌, ◌++◌, nat_eq, string_eq, ◌==◌, ltb, leb, if◌then◌else◌, length,
}
use sorostream_sdk.Base.Dict
use sorostream_sdk.Base.Dict.{Dict}

pub data RequestPriority : Type 0 where
  high normal low : RequestPriority

abbrev pub priority_rank : RequestPriority → ℕ
priority_rank high = 0
priority_rank normal = 1
priority_rank low = 2

pub record LaneStats : Type 0 where
  pub queued : ℕ
  pub in_flight : ℕ

pub record RateLimitDelayedPayload : Type 0 where
  pub lane : String
  pub estimated_wait_ms : ℕ
  pub queue_depth : ℕ

pub record QueuedItem (T : Type 0) : Type 0 where
  pub lane : String
  pub task : T
  pub enqueued_at : ℕ
  pub priority : RequestPriority

pub record PriorityRequestQueue (T : Type 0) : Type 0 where
  pub max_concurrent : ℕ
  pub priority_lanes : List String
  pub queues : Dict String (List (QueuedItem T))
  pub in_flight_per_lane : Dict String ℕ
  pub total_in_flight : ℕ
  pub recent_durations : List ℕ
  pub started : List (String × T)
  pub delayed : List RateLimitDelayedPayload

abbrev pub max_duration_samples : ℕ
max_duration_samples = 20

abbrev pub default {ℓ} : {A : Type ℓ} → A → Option A → A
default a none = a
default a (some b) = b

abbrev pub configured : List String → List String
configured [] = "write" ∷ "read" ∷ []
configured (lane ∷ lanes) = lane ∷ lanes

abbrev pub each_lane : {V : Type 0} → V → List String → Dict String V → Dict String V
each_lane v [] m = m
each_lane v (lane ∷ lanes) m = each_lane v lanes (Dict.set lane v m)

abbrev pub sum : List ℕ → ℕ
sum [] = 0
sum (d ∷ ds) = d + sum ds

-- The best item so far: its lane's number, and its place in that lane's queue.
pub record Best (T : Type 0) : Type 0 where
  pub item : QueuedItem T
  pub lane_index : ℕ
  pub position : ℕ

module _ {T : Type 0} where
  -- No lanes is as an absent list.
  unfoldable pub create : Option ℕ → List String → PriorityRequestQueue T
  create max_concurrent lanes = record {
    max_concurrent = max 1 (default 10 max_concurrent);
    priority_lanes = configured lanes;
    queues = each_lane [] (configured lanes) [];
    in_flight_per_lane = each_lane 0 (configured lanes) [];
    total_in_flight = 0;
    recent_durations = [];
    started = [];
    delayed = [];
  }

  abbrev pub queue_of : String → Dict String (List (QueuedItem T)) → List (QueuedItem T)
  queue_of lane queues = default [] (Dict.get lane queues)

  -- The test of `dequeueNext`; any item is better than none.
  abbrev pub beats : QueuedItem T → ℕ → Option (Best T) → Bool
  beats item li none = true
  beats item li (some best) =
      ltb (priority_rank item.priority) (priority_rank best.item.priority)
      || (priority_rank item.priority == priority_rank best.item.priority
          && (ltb item.enqueued_at best.item.enqueued_at
              || (item.enqueued_at == best.item.enqueued_at && ltb li best.lane_index)))

  unfoldable pub scan_queue : List (QueuedItem T) → ℕ → ℕ → Option (Best T) → Option (Best T)
  scan_queue [] li qi best = best
  scan_queue (item ∷ items) li qi best = scan_queue items li (qi + 1) (
      if beats item li best
      then some (record { item = item; lane_index = li; position = qi })
      else best)

  unfoldable pub scan_lanes :
      List String → ℕ → Dict String (List (QueuedItem T)) → Option (Best T) → Option (Best T)
  unfolding scan_queue
  scan_lanes [] li queues best = best
  scan_lanes (lane ∷ lanes) li queues best =
      scan_lanes lanes (li + 1) queues (scan_queue (queue_of lane queues) li 0 best)

  -- `splice(i, 1)`
  unfoldable pub remove_at : ℕ → List (QueuedItem T) → List (QueuedItem T)
  remove_at i [] = []
  remove_at zero (item ∷ items) = items
  remove_at (suc i) (item ∷ items) = item ∷ remove_at i items

  -- `indexOf` finds the item where the scan found it, since it stands in its own lane.
  abbrev pub take_best :
      Option (Best T) → PriorityRequestQueue T → Option (QueuedItem T × PriorityRequestQueue T)
  take_best none q = none
  take_best (some best) q =
      let lane = best.item.lane in
      some (
        best.item,
        record q {
          queues = Dict.set lane (remove_at best.position (queue_of lane q.queues)) q.queues;
        },
      )

  unfoldable pub dequeue_next :
      PriorityRequestQueue T → Option (QueuedItem T × PriorityRequestQueue T)
  unfolding scan_lanes remove_at
  dequeue_next q = take_best (scan_lanes q.priority_lanes 0 q.queues none) q

  -- `run`, up to the outcome of the task.
  unfoldable pub run : String → T → PriorityRequestQueue T → PriorityRequestQueue T
  run lane task q = record q {
    total_in_flight = q.total_in_flight + 1;
    in_flight_per_lane =
        Dict.set lane (default 0 (Dict.get lane q.in_flight_per_lane) + 1) q.in_flight_per_lane;
    started = q.started ++ (lane, task) ∷ [];
  }

  -- The loop of `drain`: each round takes a free slot, so that as many rounds are enough.
  unfoldable pub drain_rounds : ℕ → PriorityRequestQueue T → PriorityRequestQueue T
  unfolding dequeue_next run
  drain_rounds zero q = q
  drain_rounds (suc n) q = elim (dequeue_next q) [
    | none ↦ q
    | some (item, q') ↦ drain_rounds n (run item.lane item.task q')
  ]

  unfoldable pub drain : PriorityRequestQueue T → PriorityRequestQueue T
  unfolding drain_rounds
  drain q = drain_rounds (q.max_concurrent - q.total_in_flight) q

  unfoldable pub record_duration : ℕ → PriorityRequestQueue T → PriorityRequestQueue T
  record_duration ms q =
      let durations = q.recent_durations ++ ms ∷ [] in
      record q {
        recent_durations =
            if ltb max_duration_samples (length durations) then rest_of durations else durations;
      }
    where
      rest_of : List ℕ → List ℕ
      rest_of [] = []
      rest_of (d ∷ ds) = ds

  unfoldable pub release : String → PriorityRequestQueue T → PriorityRequestQueue T
  unfolding drain
  release lane q = drain (record q {
    total_in_flight = q.total_in_flight - 1;
    in_flight_per_lane =
        Dict.set lane (default 1 (Dict.get lane q.in_flight_per_lane) - 1) q.in_flight_per_lane;
  })

  -- `Math.round` of the average times the number of rounds, rounded up.
  unfoldable pub estimate_wait : ℕ → PriorityRequestQueue T → ℕ
  estimate_wait queue_depth q =
      let samples = length q.recent_durations in
      let rounds = (queue_depth + 1 + (q.max_concurrent - 1)) / q.max_concurrent in
      if samples == 0 then 0 else (2 * (sum q.recent_durations * rounds) + samples) / (2 * samples)

  -- A lane that is not known is added last.
  unfoldable pub register : String → PriorityRequestQueue T → PriorityRequestQueue T
  register lane q = if Dict.has lane q.queues then q else record q {
    queues = Dict.set lane [] q.queues;
    in_flight_per_lane = Dict.set lane 0 q.in_flight_per_lane;
    priority_lanes = q.priority_lanes ++ lane ∷ [];
  }

  -- `enqueue` of a task that has to wait.
  unfoldable pub hold :
      String → T → RequestPriority → ℕ → PriorityRequestQueue T → PriorityRequestQueue T
  unfolding estimate_wait
  hold lane task priority now q =
      let waiting = queue_of lane q.queues in
      let item : QueuedItem T = record {
        lane = lane;
        task = task;
        enqueued_at = now;
        priority = priority;
      } in
      record q {
        queues = Dict.set lane (waiting ++ item ∷ []) q.queues;
        delayed =
            q.delayed
            ++ record {
              lane = lane;
              estimated_wait_ms = estimate_wait (length waiting) q;
              queue_depth = length waiting;
            }
              ∷ [];
      }

  unfoldable pub enqueue :
      String → T → Option RequestPriority → ℕ → PriorityRequestQueue T → PriorityRequestQueue T
  unfolding register run hold
  enqueue lane task priority now q =
      let known = register lane q in
      if ltb known.total_in_flight known.max_concurrent
      then run lane task known
      else hold lane task (default normal priority) now known

  unfoldable pub total_queued : PriorityRequestQueue T → ℕ
  total_queued q = Dict.total length q.queues

  -- The test of `waitForDrain`.
  unfoldable pub is_drained : PriorityRequestQueue T → Bool
  unfolding total_queued
  is_drained q = total_queued q == 0 && q.total_in_flight == 0

  abbrev stats_of :
      List String → PriorityRequestQueue T → Dict String LaneStats → Dict String LaneStats
  stats_of [] q stats = stats
  stats_of (lane ∷ lanes) q stats = stats_of lanes q (
      Dict.set lane
        (record {
          queued = length (queue_of lane q.queues);
          in_flight = default 0 (Dict.get lane q.in_flight_per_lane);
        })
        stats)

  unfoldable pub get_stats : PriorityRequestQueue T → Dict String LaneStats
  get_stats q = stats_of q.priority_lanes q []

-- What can happen to a queue: a task is submitted, or one of those that run settles after some time.
pub data Event (T : Type 0) : Type 0 where
  submit : String → T → Option RequestPriority → ℕ → Event T
  settled : String → ℕ → Event T

module _ {T : Type 0} where
  unfoldable pub step : Event T → PriorityRequestQueue T → PriorityRequestQueue T
  unfolding enqueue release record_duration
  step (submit lane task priority now) q = enqueue lane task priority now q
  step (settled lane ms) q =
      if default 0 (Dict.get lane q.in_flight_per_lane) == 0
      then q
      else release lane (record_duration ms q)
