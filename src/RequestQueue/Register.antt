-- ===== src/RequestQueue/Register.antt =====
-- Lanes that are added on first use.
use sorostream_sdk.Base.{
  ℕ, ◌+◌, ◌≡◌, ◌≢◌, refl, ap, ◌∙◌, subst, String, true, false, none, List, [], ◌∷◌, ◌++◌, nat_eq,
  string_eq, length, sum_of, contains, contains-append, if_elim, arith,
}
use sorostream_sdk.Base.Dict
use sorostream_sdk.Base.Dict.{Dict}
use sorostream_sdk.RequestQueue.{QueuedItem, PriorityRequestQueue, total_queued, register}
use sorostream_sdk.RequestQueue.Place.{InLane, weigh}
use sorostream_sdk.RequestQueue.Drain.{IsReady, IsBusy, waiting, accepted, itself}

total-fresh :
    {V : Type 0} (f : V → ℕ) (lane : String) (v : V) (m : Dict String V)
    → f v ≡ 0
    → Dict.measure f (Dict.get lane m) ≡ 0
    → Dict.total f (Dict.set lane v m) ≡ Dict.total f m
total-fresh f lane v m z old = omega (arith, Dict.total-set f lane v m)

-- A lane that is unknown after one is added is another, and was unknown.
apart :
    (lane l : String) (lanes : List String)
    → contains (lanes ++ lane ∷ []) l ≡ false
    → (l ≢ lane) × (contains lanes l ≡ false)
apart lane l lanes u = ground (arith, u, contains-append lanes lane l, string_eq.beq_iff lane l)

module _ {T : Type 0} where
  -- A queue, and that no task waits while a slot is free.
  pub record IsSound (q : PriorityRequestQueue T) : Type 0 where
    pub ready : IsReady q
    pub busy : IsBusy q

  -- The same tasks wait and were called, and the lane is there.
  pub record Registered (lane : String) (q q' : PriorityRequestQueue T) : Type 0 where
    pub sound : IsSound q'
    pub same : (w : String × T → ℕ) → accepted w q' ≡ accepted w q
    pub there : Dict.get lane q'.queues ≢ none

  has-there :
      (lane : String) (q : PriorityRequestQueue T)
      → Dict.has lane q.queues ≡ true
      → Dict.get lane q.queues ≢ none
  has-there lane q h gone = absurd (ground (arith, h, Dict.has-none lane q.queues gone))

  register_new :
      (lane : String) (q : PriorityRequestQueue T)
      → IsSound q
      → Dict.get lane q.queues ≡ none
      → Registered lane q (record q {
        priority_lanes = q.priority_lanes ++ lane ∷ [];
        queues = Dict.set lane [] q.queues;
        in_flight_per_lane = Dict.set lane 0 q.in_flight_per_lane;
      })
  unfolding total_queued waiting
  register_new lane q h gone =
      let queues' : Dict String (List (QueuedItem T)) = Dict.set lane [] q.queues in
      let same_total : Dict.total length queues' ≡ Dict.total length q.queues =
        total-fresh length lane [] q.queues refl (ap (Dict.measure length) gone) in
      record {
        sound = record {
          ready = record {
            positive = h.ready.positive;
            within = h.ready.within;
            in_lanes = Dict.set-All InLane lane [] q.queues tt h.ready.in_lanes;
            keyed = Dict.set-IsKeyed lane [] q.queues h.ready.keyed;
            known = λ l u.
                let (other, unknown) = apart lane l q.priority_lanes u in
                Dict.get-set_ne lane l [] q.queues other ∙ h.ready.known l unknown;
            counted_lanes = λ l u.
                let other : l ≢ lane = λ e.
                  Dict.get-set_there lane [] q.queues
                    (subst (λ x. Dict.get x queues' ≡ none) e u) in
                ap (Dict.measure itself) (Dict.get-set_ne lane l 0 q.in_flight_per_lane other)
                ∙ h.ready.counted_lanes l (Dict.get-set-none lane l [] q.queues u);
            counted =
                total-fresh itself lane 0 q.in_flight_per_lane refl
                  (h.ready.counted_lanes lane gone)
                ∙ h.ready.counted;
          };
          busy = ground (arith, h.busy, same_total);
        };
        same = λ w.
            ap (λ n. sum_of w q.started + n)
              (total-fresh (sum_of (weigh w)) lane [] q.queues refl
                (ap (Dict.measure (sum_of (weigh w))) gone));
        there = Dict.get-set_there lane [] q.queues;
      }

  pub register-Registered :
      (lane : String) (q : PriorityRequestQueue T) → IsSound q → Registered lane q (register lane q)
  unfolding register
  register-Registered lane q h =
      if_elim (Registered lane q) (Dict.has lane q.queues)
        (λ there. record { sound = h; same = λ w. refl; there = has-there lane q there })
        (λ new.
          register_new lane q h
            (Dict.get-Absent lane q.queues (Dict.has-eq-false lane q.queues new)))
