-- ===== src/RequestQueue/Drain.antt =====
-- What a drain comes to: no slot is left free while a task waits, and no task is lost.
use sorostream_sdk.Base.{
  ℕ, zero, suc, ◌+◌, ◌-◌, ◌≤◌, ◌<◌, ◌≡◌, ◌≢◌, ◌⊎◌, inl, inr, refl, ap, ◌∙◌, subst, String, true,
  false, Option, none, some, List, [], ◌∷◌, nat_eq, string_eq, ◌==◌, length, sum_of, sum_of-append,
  contains, All, Bool-cases, arith,
}
use sorostream_sdk.Base.Dict
use sorostream_sdk.Base.Dict.{Dict}
use sorostream_sdk.RequestQueue.{
  QueuedItem, PriorityRequestQueue, queue_of, default, run, drain_rounds, drain, total_queued,
}
use sorostream_sdk.RequestQueue.Place.{
  InLane, IsEmpty, Taken, weigh, dequeue_next-cases, measure-queue_of,
}

abbrev pub itself : ℕ → ℕ
itself n = n

pub measure-default : (o : Option ℕ) → Dict.measure itself o ≡ default 0 o
measure-default none = refl
measure-default (some n) = refl

All-contains :
    (P : String → Type 0) (lanes : List String) (lane : String)
    → All P lanes
    → contains lanes lane ≡ true
    → P lane
unfolding contains
All-contains P [] lane h c = absurd (ground (arith, c))
All-contains P (l ∷ lanes) lane (p, h) c = elim (Bool-cases (l == lane)) [
  | inl same ↦ subst P ((string_eq.beq_iff l lane).0 same) p
  | inr other ↦ All-contains P lanes lane h (ground (arith, c, other))
]

module _ {T : Type 0} where
  -- The limit is kept; each item stands in its lane's queue, each queue in a lane that is known; and the
  -- lanes' counts add up to the total.
  pub record IsReady (q : PriorityRequestQueue T) : Type 0 where
    pub positive : 1 ≤ q.max_concurrent
    pub within : q.total_in_flight ≤ q.max_concurrent
    pub in_lanes : All InLane q.queues
    pub keyed : Dict.IsKeyed q.queues
    pub known :
        (lane : String) → contains q.priority_lanes lane ≡ false → Dict.get lane q.queues ≡ none
    pub counted_lanes :
        (lane : String)
        → Dict.get lane q.queues ≡ none
        → Dict.measure itself (Dict.get lane q.in_flight_per_lane) ≡ 0
    pub counted : Dict.total itself q.in_flight_per_lane ≡ q.total_in_flight

  -- A task waits only while all slots are taken.
  abbrev pub IsBusy : PriorityRequestQueue T → Type 0
  IsBusy q = (q.total_in_flight ≡ q.max_concurrent) ⊎ (total_queued q ≡ 0)

  -- The tasks that wait, each with its weight.
  unfoldable pub waiting : (String × T → ℕ) → PriorityRequestQueue T → ℕ
  waiting w q = Dict.total (sum_of (weigh w)) q.queues

  -- The tasks that were accepted, those that were called and those that wait, each with its weight.
  abbrev pub accepted : (String × T → ℕ) → PriorityRequestQueue T → ℕ
  accepted w q = sum_of w q.started + waiting w q

  abbrev pub lane_length : String → Dict String (List (QueuedItem T)) → ℕ
  lane_length lane queues = Dict.measure length (Dict.get lane queues)

  total-zero :
      (queues : Dict String (List (QueuedItem T)))
      → Dict.IsKeyed queues
      → ((lane : String) → lane_length lane queues ≡ 0)
      → Dict.total length queues ≡ 0
  unfolding Dict.get
  total-zero [] k h = refl
  total-zero ((lane, items) ∷ queues) (apart, k) h =
      let first : length items ≡ 0 = ground (arith, h lane, string_eq.beq_iff lane lane) in
      let rest : Dict.total length queues ≡ 0 = total-zero queues k (λ l.
        elim (Bool-cases (lane == l)) [
          | inl same ↦ ap (Dict.measure length) (
              Dict.get-Absent l queues
                (subst (λ x. Dict.Absent x queues) ((string_eq.beq_iff lane l).0 same) apart))
          | inr other ↦ ground (arith, h l, other)
        ]) in
      omega (arith, first, rest)

  IsEmpty-total_queued : (q : PriorityRequestQueue T) → IsReady q → IsEmpty q → total_queued q ≡ 0
  unfolding total_queued
  IsEmpty-total_queued q h e = total-zero q.queues h.keyed (λ lane.
      elim (Bool-cases (contains q.priority_lanes lane)) [
        | inl there ↦
            measure-queue_of (Dict.get lane q.queues)
            ∙ ap length (All-contains (λ l. queue_of l q.queues ≡ []) q.priority_lanes lane e there)
        | inr unknown ↦ ap (Dict.measure length) (h.known lane unknown)
      ])

  pub run-IsReady :
      (lane : String) (task : T) (q : PriorityRequestQueue T)
      → IsReady q
      → Dict.get lane q.queues ≢ none
      → q.total_in_flight < q.max_concurrent
      → IsReady (run lane task q)
  unfolding run
  run-IsReady lane task q h there free = record {
    positive = h.positive;
    within = omega arith;
    in_lanes = h.in_lanes;
    keyed = h.keyed;
    known = h.known;
    counted_lanes = λ l gone.
        ap (Dict.measure itself) (
          Dict.get-set_ne lane l _ q.in_flight_per_lane
            (λ same. there (subst (λ x. Dict.get x q.queues ≡ none) same gone)))
        ∙ h.counted_lanes l gone;
    counted = omega (
      arith,
      h.counted,
      Dict.total-set itself lane (default 0 (Dict.get lane q.in_flight_per_lane) + 1)
          q.in_flight_per_lane,
      measure-default (Dict.get lane q.in_flight_per_lane),
    );
  }

  Taken-IsReady :
      (q : PriorityRequestQueue T) (t : Taken q)
      → IsReady q
      → IsReady (record q { queues = t.queues })
  Taken-IsReady q t h = record {
    positive = h.positive;
    within = h.within;
    in_lanes = t.in_lanes;
    keyed = t.keyed h.keyed;
    known = λ lane u. t.same_lanes lane (h.known lane u);
    counted_lanes = λ lane gone. h.counted_lanes lane (t.kept_lanes lane gone);
    counted = h.counted;
  }

  pub record Drained (q q' : PriorityRequestQueue T) : Type 0 where
    pub ready : IsReady q'
    pub busy : IsBusy q'
    pub conserved : (w : String × T → ℕ) → accepted w q' ≡ accepted w q

  after :
      (q : PriorityRequestQueue T) (t : Taken q) (n : ℕ)
      → suc n + q.total_in_flight ≡ q.max_concurrent
      → n + (run t.item.lane t.item.task (record q { queues = t.queues })).total_in_flight
        ≡ q.max_concurrent
  unfolding run
  after q t n e = omega arith

  started_one :
      (q : PriorityRequestQueue T) (t : Taken q) (w : String × T → ℕ)
      → accepted w (run t.item.lane t.item.task (record q { queues = t.queues })) ≡ accepted w q
  unfolding run waiting
  started_one q t w =
      omega (arith, t.moved w, sum_of-append w q.started ((t.item.lane, t.item.task) ∷ []))

  drain_rounds-Drained :
      (n : ℕ) (q : PriorityRequestQueue T)
      → IsReady q
      → n + q.total_in_flight ≡ q.max_concurrent
      → Drained q (drain_rounds n q)
  unfolding drain_rounds
  drain_rounds-Drained zero q h e = record {
    ready = h;
    busy = inl (omega arith);
    conserved = λ w. refl;
  }
  drain_rounds-Drained (suc n) q h e = elim (dequeue_next-cases q h.in_lanes) [
    | inl (stop, idle) ↦
        rw (stop, drain_rounds)
          (record { ready = h; busy = inr (IsEmpty-total_queued q h idle); conserved = λ w. refl })
    | inr t ↦
        let next : PriorityRequestQueue T =
          run t.item.lane t.item.task (record q { queues = t.queues }) in
        let d : Drained next (drain_rounds n next) =
          drain_rounds-Drained n next
            (run-IsReady t.item.lane t.item.task _ (Taken-IsReady q t h) t.there (omega arith))
            (after q t n e) in
        rw (t.result, drain_rounds)
          (record {
            ready = d.ready;
            busy = d.busy;
            conserved = λ w. d.conserved w ∙ started_one q t w;
          })
  ]

  pub drain-Drained : (q : PriorityRequestQueue T) → IsReady q → Drained q (drain q)
  unfolding drain
  drain-Drained q h =
      drain_rounds-Drained (q.max_concurrent - q.total_in_flight) q h (omega (arith, h.within))
