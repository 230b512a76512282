-- ===== src/RequestQueue/Place.antt =====
-- Where the chosen item stands, and what taking it leaves.
use sorostream_sdk.Base.{
  ℕ, zero, suc, ◌+◌, ◌≡◌, ◌≢◌, ◌⊎◌, inl, inr, refl, sym, ap, subst, String, Option, none, some,
  List, [], ◌∷◌, nat_eq, string_eq, ◌==◌, length, sum_of, if_elim, All, All-weaken, Bool-cases,
  Option-cases, arith,
}
use sorostream_sdk.Base.Dict
use sorostream_sdk.Base.Dict.{Dict}
use sorostream_sdk.RequestQueue.{
  QueuedItem, Best, PriorityRequestQueue, queue_of, beats, scan_queue, scan_lanes, remove_at,
  take_best, dequeue_next, default, total_queued,
}
use sorostream_sdk.RequestQueue.Choice.{Leads, LeadsOver, picked, scan_lanes-LeadsOver}

module _ {T : Type 0} where
  -- The item that the scan found stands in its own lane's queue, at the place that it found.
  abbrev nth : ℕ → List (QueuedItem T) → Option (QueuedItem T)
  nth n [] = none
  nth zero (item ∷ items) = some item
  nth (suc n) (item ∷ items) = nth n items

  abbrev IsFound : Dict String (List (QueuedItem T)) → Option (Best T) → Type 0
  IsFound queues none = Unit
  IsFound queues (some best) = nth best.position (queue_of best.item.lane queues) ≡ some best.item

  -- The items are those of their lanes' queues from a place on.
  abbrev AreAt : Dict String (List (QueuedItem T)) → ℕ → List (QueuedItem T) → Type 0
  AreAt queues qi items =
      (j : ℕ) (x : QueuedItem T)
      → nth j items ≡ some x
      → nth (qi + j) (queue_of x.lane queues) ≡ some x

  scan_queue-IsFound :
      (queues : Dict String (List (QueuedItem T))) (items : List (QueuedItem T)) (li qi : ℕ)
      (best : Option (Best T))
      → AreAt queues qi items
      → IsFound queues best
      → IsFound queues (scan_queue items li qi best)
  unfolding scan_queue
  scan_queue-IsFound queues [] li qi best at h = h
  scan_queue-IsFound queues (item ∷ items) li qi best at h =
      let at_head : nth qi (queue_of item.lane queues) ≡ some item =
        subst (λ n. nth n (queue_of item.lane queues) ≡ some item) (omega arith) (at 0 item refl) in
      let at_rest : AreAt queues (qi + 1) items = λ j x e.
        subst (λ n. nth n (queue_of x.lane queues) ≡ some x) (omega arith) (at (suc j) x e) in
      scan_queue-IsFound queues items li (qi + 1) (picked item li qi best) at_rest
        (if_elim (IsFound queues) (beats item li best) (λ wins. at_head) (λ stays. h))

  -- Each item stands in the queue of its own lane.
  abbrev pub InLane : String × List (QueuedItem T) → Type 0
  InLane (lane, items) = All (λ (item : QueuedItem T). item.lane ≡ lane) items

  All-nth :
      (P : QueuedItem T → Type 0) (items : List (QueuedItem T)) (j : ℕ) (x : QueuedItem T)
      → All P items
      → nth j items ≡ some x
      → P x
  All-nth P [] j x h e = absurd (ground arith)
  All-nth P (item ∷ items) zero x (p, h) e =
      subst P (let same : item ≡ x = ground (arith, e) in same) p
  All-nth P (item ∷ items) (suc j) x (p, h) e = All-nth P items j x h e

  pub queue_of-InLane :
      (lane : String) (queues : Dict String (List (QueuedItem T)))
      → All InLane queues
      → InLane (lane, queue_of lane queues)
  unfolding Dict.get
  queue_of-InLane lane [] h = tt
  queue_of-InLane lane ((k, items) ∷ queues) (p, h) = elim (Bool-cases (k == lane)) [
    | inl same ↦ rw same (subst (λ l. InLane (l, items)) ((string_eq.beq_iff k lane).0 same) p)
    | inr other ↦ rw other (queue_of-InLane lane queues h)
  ]

  scan_lanes-IsFound :
      (lanes : List String) (li : ℕ) (queues : Dict String (List (QueuedItem T)))
      (best : Option (Best T))
      → All InLane queues
      → IsFound queues best
      → IsFound queues (scan_lanes lanes li queues best)
  unfolding scan_lanes
  scan_lanes-IsFound [] li queues best placed h = h
  scan_lanes-IsFound (lane ∷ lanes) li queues best placed h =
      let items = queue_of lane queues in
      let at : AreAt queues 0 items = λ j x e.
        let own : x.lane ≡ lane =
          All-nth (λ i. i.lane ≡ lane) items j x (queue_of-InLane lane queues placed) e in
        subst (λ l. nth (0 + j) (queue_of l queues) ≡ some x) (sym own)
          (subst (λ n. nth n items ≡ some x) (omega arith) e) in
      scan_lanes-IsFound lanes (li + 1) queues (scan_queue items li 0 best) placed
        (scan_queue-IsFound queues items li 0 best at h)

  length-remove_at :
      (i : ℕ) (items : List (QueuedItem T)) (x : QueuedItem T)
      → nth i items ≡ some x
      → length (remove_at i items) + 1 ≡ length items
  unfolding remove_at
  length-remove_at i [] x e = absurd (ground arith)
  length-remove_at zero (item ∷ items) x e = omega arith
  length-remove_at (suc i) (item ∷ items) x e = omega (arith, length-remove_at i items x e)

  -- The weight of an item, by its lane and task.
  abbrev pub weigh : (String × T → ℕ) → QueuedItem T → ℕ
  weigh w item = w (item.lane, item.task)

  sum_of-remove_at :
      (f : QueuedItem T → ℕ) (i : ℕ) (items : List (QueuedItem T)) (x : QueuedItem T)
      → nth i items ≡ some x
      → sum_of f (remove_at i items) + f x ≡ sum_of f items
  unfolding remove_at
  sum_of-remove_at f i [] x e = absurd (ground arith)
  sum_of-remove_at f zero (item ∷ items) x e =
      let same : item ≡ x = ground (arith, e) in omega (arith, ap f same)
  sum_of-remove_at f (suc i) (item ∷ items) x e = omega (arith, sum_of-remove_at f i items x e)

  pub sum-queue_of :
      (f : QueuedItem T → ℕ) (o : Option (List (QueuedItem T)))
      → Dict.measure (sum_of f) o ≡ sum_of f (default [] o)
  sum-queue_of f none = refl
  sum-queue_of f (some items) = refl

  remove_at-All :
      (P : QueuedItem T → Type 0) (i : ℕ) (items : List (QueuedItem T))
      → All P items
      → All P (remove_at i items)
  unfolding remove_at
  remove_at-All P i [] h = tt
  remove_at-All P zero (item ∷ items) (p, h) = h
  remove_at-All P (suc i) (item ∷ items) (p, h) = (p, remove_at-All P i items h)

  -- What taking the next item comes to: it leads all that wait, and leaves its lane's queue.
  pub record Taken (q : PriorityRequestQueue T) : Type 0 where
    pub item : QueuedItem T
    pub queues : Dict String (List (QueuedItem T))
    pub result : dequeue_next q ≡ some (item, record q { queues = queues })
    pub shrinks : Dict.total length queues + 1 ≡ Dict.total length q.queues
    pub moved :
        (w : String × T → ℕ)
        → Dict.total (sum_of (weigh w)) queues + weigh w item
          ≡ Dict.total (sum_of (weigh w)) q.queues
    pub in_lanes : All InLane queues
    pub keyed : Dict.IsKeyed q.queues → Dict.IsKeyed queues
    pub there : Dict.get item.lane queues ≢ none
    pub same_lanes : (lane : String) → Dict.get lane q.queues ≡ none → Dict.get lane queues ≡ none
    pub kept_lanes : (lane : String) → Dict.get lane queues ≡ none → Dict.get lane q.queues ≡ none
    pub leads : All (λ lane. All (Leads item) (queue_of lane q.queues)) q.priority_lanes

  -- Nothing waits in any lane.
  abbrev pub IsEmpty : PriorityRequestQueue T → Type 0
  IsEmpty q = All (λ lane. queue_of lane q.queues ≡ []) q.priority_lanes

  All-absurd : (items : List (QueuedItem T)) → All (LeadsOver none) items → items ≡ []
  All-absurd [] h = refl
  All-absurd (item ∷ items) h = absurd h.0

  pub measure-queue_of :
      (o : Option (List (QueuedItem T))) → Dict.measure length o ≡ length (default [] o)
  measure-queue_of none = refl
  measure-queue_of (some items) = refl

  module _ (q : PriorityRequestQueue T) (placed : All InLane q.queues) where
    leading :
        (o : Option (Best T))
        → scan_lanes q.priority_lanes 0 q.queues none ≡ o
        → All (λ lane. All (LeadsOver o) (queue_of lane q.queues)) q.priority_lanes
    leading o e =
        subst (λ r. All (λ lane. All (LeadsOver r) (queue_of lane q.queues)) q.priority_lanes) e
          (scan_lanes-LeadsOver q.priority_lanes 0 q.queues none).0

    taking : (best : Best T) → scan_lanes q.priority_lanes 0 q.queues none ≡ some best → Taken q
    unfolding dequeue_next
    taking best e =
        let lane = best.item.lane in
        let items = queue_of lane q.queues in
        let there : nth best.position items ≡ some best.item =
          subst (IsFound q.queues) e
            (scan_lanes-IsFound q.priority_lanes 0 q.queues none placed tt) in
        record {
          item = best.item;
          queues = Dict.set lane (remove_at best.position items) q.queues;
          result = ap (λ o. take_best o q) e;
          shrinks = omega (
            arith,
            Dict.total-set length lane (remove_at best.position items) q.queues,
            measure-queue_of (Dict.get lane q.queues),
            length-remove_at best.position items best.item there,
          );
          moved = λ w. omega (
            arith,
            Dict.total-set (sum_of (weigh w)) lane (remove_at best.position items) q.queues,
            sum-queue_of (weigh w) (Dict.get lane q.queues),
            sum_of-remove_at (weigh w) best.position items best.item there,
          );
          in_lanes =
              Dict.set-All InLane lane _ q.queues
                (remove_at-All (λ i. i.lane ≡ lane) best.position items
                  (queue_of-InLane lane q.queues placed))
                placed;
          keyed = λ k. Dict.set-IsKeyed lane _ q.queues k;
          there = Dict.get-set_there lane _ q.queues;
          same_lanes = λ l h.
              Dict.get-set-known lane l _ q.queues
                (λ gone.
                  absurd (ground (arith, ap (λ o. nth best.position (default [] o)) gone, there)))
                h;
          kept_lanes = λ l h. Dict.get-set-none lane l _ q.queues h;
          leads = leading (some best) e;
        }

    pub dequeue_next-cases : ((dequeue_next q ≡ none) × IsEmpty q) ⊎ Taken q
    unfolding dequeue_next
    dequeue_next-cases = elim (Option-cases (scan_lanes q.priority_lanes 0 q.queues none)) [
      | inl e ↦ inl (
        ap (λ o. take_best o q) e,
        All-weaken _ _ (λ lane h. All-absurd (queue_of lane q.queues) h) q.priority_lanes
            (leading none e),
      )
      | inr (best, e) ↦ inr (taking best e)
    ]

-- The item that is taken has, of all that wait in the known lanes, the highest priority and among
-- those the earliest time of arrival, in whichever lane, and one item less waits after it.
pub dequeue_next-Leads :
    {T : Type 0} (q q' : PriorityRequestQueue T) (item : QueuedItem T)
    → All InLane q.queues
    → dequeue_next q ≡ some (item, q')
    → All (λ lane. All (Leads item) (queue_of lane q.queues)) q.priority_lanes
      × (total_queued q' + 1 ≡ total_queued q)
unfolding total_queued
dequeue_next-Leads {T} q q' item placed e = elim (dequeue_next-cases q placed) [
  | inl (stop, idle) ↦ absurd (ground (arith, stop, e))
  | inr t ↦
      let same : (t.item, record q { queues = t.queues }) ≡ (item, q') =
        ground (arith, t.result, e) in
      (
        subst
            (λ (i : QueuedItem T).
              All (λ lane. All (Leads i) (queue_of lane q.queues)) q.priority_lanes)
            (ap (λ (p : QueuedItem T × PriorityRequestQueue T). p.0) same) t.leads,
        subst
            (λ (r : PriorityRequestQueue T).
              Dict.total length r.queues + 1 ≡ Dict.total length q.queues)
            (ap (λ (p : QueuedItem T × PriorityRequestQueue T). p.1) same) t.shrinks,
      )
]
