-- ===== src/RequestQueue/Invariant.antt =====
-- What holds of the request queue whatever is submitted and settles.
use sorostream_sdk.Base.{
  ℕ, ◌+◌, ◌-◌, ◌≤◌, ◌<◌, ◌≡◌, ◌≢◌, inl, inr, refl, ap, ◌∙◌, subst, String, Option, none, some, [],
  ◌∷◌, ◌++◌, nat_eq, string_eq, ◌==◌, ltb, List, sum_of, sum_of-append, All-append, if_elim, arith,
}
use sorostream_sdk.Base.Dict
use sorostream_sdk.Base.Dict.{Dict}
use sorostream_sdk.RequestQueue.{
  QueuedItem, PriorityRequestQueue, RequestPriority, queue_of, default, run, drain, total_queued,
  register, hold, enqueue, release, record_duration, Event, submit, settled, step, normal,
}
use sorostream_sdk.RequestQueue.Register.{IsSound, Registered, register-Registered}
use sorostream_sdk.RequestQueue.Place.{InLane, queue_of-InLane, weigh, sum-queue_of}
use sorostream_sdk.RequestQueue.Drain.{
  IsReady, waiting, accepted, Drained, run-IsReady, drain-Drained, itself, measure-default,
}

default-one : (o : Option ℕ) → 1 ≤ default 0 o → default 1 o ≡ default 0 o
default-one none h = absurd (omega arith)
default-one (some n) h = refl

module _ {T : Type 0} where
  -- What an event leaves that brings in the tasks `tasks`: with any weights of the tasks, those that
  -- were called and those that wait weigh as much as before, and `tasks` besides.
  pub record Stepped (tasks : List (String × T)) (q q' : PriorityRequestQueue T) : Type 0 where
    pub sound : IsSound q'
    pub accepts : (w : String × T → ℕ) → accepted w q' ≡ accepted w q + sum_of w tasks

  hold-Stepped :
      (lane : String) (task : T) (priority : RequestPriority) (now : ℕ) (q : PriorityRequestQueue T)
      → IsReady q
      → Dict.get lane q.queues ≢ none
      → q.max_concurrent ≤ q.total_in_flight
      → Stepped ((lane, task) ∷ []) q (hold lane task priority now q)
  unfolding hold waiting
  hold-Stepped lane task priority now q h there full =
      let items = queue_of lane q.queues in
      record {
        sound = record {
          ready = record {
            positive = h.positive;
            within = h.within;
            in_lanes =
                Dict.set-All InLane lane _ q.queues
                  (All-append (λ (i : QueuedItem T). i.lane ≡ lane) items (_ ∷ [])
                    (queue_of-InLane lane q.queues h.in_lanes) (refl, tt))
                  h.in_lanes;
            keyed = Dict.set-IsKeyed lane _ q.queues h.keyed;
            known = λ l u. Dict.get-set-known lane l _ q.queues there (h.known l u);
            counted_lanes = λ l u. h.counted_lanes l (Dict.get-set-none lane l _ q.queues u);
            counted = h.counted;
          };
          busy = inl (omega (arith, h.within));
        };
        accepts = λ w.
            let item : QueuedItem T = record {
              lane = lane;
              task = task;
              enqueued_at = now;
              priority = priority;
            } in
            omega (
              arith,
              Dict.total-set (sum_of (weigh w)) lane (items ++ item ∷ []) q.queues,
              sum-queue_of (weigh w) (Dict.get lane q.queues),
              sum_of-append (weigh w) items (item ∷ []),
            );
      }

  run-Stepped :
      (lane : String) (task : T) (q : PriorityRequestQueue T)
      → IsSound q
      → Dict.get lane q.queues ≢ none
      → q.total_in_flight < q.max_concurrent
      → Stepped ((lane, task) ∷ []) q (run lane task q)
  unfolding run waiting total_queued
  run-Stepped lane task q h there free = record {
    sound = record {
      ready = run-IsReady lane task q h.ready there free;
      busy = elim h.busy [ inl full ↦ absurd (omega arith) | inr idle ↦ inr idle ];
    };
    accepts = λ w. omega (arith, sum_of-append w q.started ((lane, task) ∷ []));
  }

  enqueue-Stepped :
      (lane : String) (task : T) (priority : Option RequestPriority) (now : ℕ)
      (q : PriorityRequestQueue T)
      → IsSound q
      → Stepped ((lane, task) ∷ []) q (enqueue lane task priority now q)
  unfolding enqueue
  enqueue-Stepped lane task priority now q h =
      let known : PriorityRequestQueue T = register lane q in
      let r : Registered lane q known = register-Registered lane q h in
      let s : Stepped ((lane, task) ∷ []) known (enqueue lane task priority now q) =
        if_elim (Stepped ((lane, task) ∷ []) known) (ltb known.total_in_flight known.max_concurrent)
          (λ free. run-Stepped lane task known r.sound r.there (ground (arith, free)))
          (λ full.
            hold-Stepped lane task (default normal priority) now known r.sound.ready r.there
              (ground (arith, full))) in
      record {
        sound = s.sound;
        accepts = λ w. s.accepts w ∙ ap (λ n. n + sum_of w ((lane, task) ∷ [])) (r.same w);
      }

  release-Stepped :
      (lane : String) (q : PriorityRequestQueue T)
      → IsReady q
      → 1 ≤ default 0 (Dict.get lane q.in_flight_per_lane)
      → Stepped [] q (release lane q)
  unfolding release waiting
  release-Stepped lane q h some_runs =
      let runs : ℕ = default 1 (Dict.get lane q.in_flight_per_lane) - 1 in
      let total = Dict.total-set itself lane runs q.in_flight_per_lane in
      let settled_one : PriorityRequestQueue T = record q {
        total_in_flight = q.total_in_flight - 1;
        in_flight_per_lane = Dict.set lane runs q.in_flight_per_lane;
      } in
      let ready : IsReady settled_one = record {
        positive = h.positive;
        within = omega (arith, h.within);
        in_lanes = h.in_lanes;
        keyed = h.keyed;
        known = h.known;
        counted_lanes = λ l gone.
            ap (Dict.measure itself) (
              Dict.get-set_ne lane l runs q.in_flight_per_lane (λ same. absurd (
                omega (
                  arith,
                  some_runs,
                  measure-default (Dict.get lane q.in_flight_per_lane),
                  subst (λ x. Dict.measure itself (Dict.get x q.in_flight_per_lane) ≡ 0) same
                      (h.counted_lanes l gone),
                ))))
            ∙ h.counted_lanes l gone;
        counted = omega (
          arith,
          h.counted,
          total,
          measure-default (Dict.get lane q.in_flight_per_lane),
          default-one (Dict.get lane q.in_flight_per_lane) some_runs,
        );
      } in
      let d : Drained settled_one (drain settled_one) = drain-Drained settled_one ready in
      record {
        sound = record { ready = d.ready; busy = d.busy };
        accepts = λ w. omega (arith, d.conserved w);
      }

  timed-IsReady : (ms : ℕ) (q : PriorityRequestQueue T) → IsReady q → IsReady (record_duration ms q)
  unfolding record_duration
  timed-IsReady ms q h = record {
    positive = h.positive;
    within = h.within;
    in_lanes = h.in_lanes;
    keyed = h.keyed;
    known = h.known;
    counted_lanes = h.counted_lanes;
    counted = h.counted;
  }

  abbrev pub submissions : Event T → List (String × T)
  submissions (submit lane task priority now) = (lane, task) ∷ []
  submissions (settled lane ms) = []

  -- Whatever is submitted and settles: the limit is kept, a task waits only while all slots are taken,
  -- the lanes' counts add up to the tasks in flight, and each submitted task has been called once or
  -- still waits: with any weights of the tasks, those that were called and those that wait weigh as
  -- much as before and those that were submitted.
  pub step-Stepped :
      (e : Event T) (q : PriorityRequestQueue T) → IsSound q → Stepped (submissions e) q (step e q)
  unfolding step record_duration waiting
  step-Stepped (submit lane task priority now) q h = enqueue-Stepped lane task priority now q h
  step-Stepped (settled lane ms) q h =
      if_elim (Stepped [] q) (default 0 (Dict.get lane q.in_flight_per_lane) == 0)
        (λ none_runs. record { sound = h; accepts = λ w. omega arith })
        (λ some_runs.
          let timed : PriorityRequestQueue T = record_duration ms q in
          let r : Stepped [] timed (release lane timed) =
            release-Stepped lane timed (timed-IsReady ms q h.ready) (ground (arith, some_runs)) in
          record { sound = r.sound; accepts = r.accepts })
