-- ===== src/RequestQueue/Choice.antt =====
-- Which item is taken from the queues.
use sorostream_sdk.Base.{
  ℕ, ◌+◌, ◌≤◌, ◌<◌, ◌≡◌, ◌⊎◌, inl, inr, refl, String, Option, none, some, List, [], ◌∷◌, nat_eq,
  string_eq, if◌then◌else◌, All, All-weaken, Bool-cases, arith,
}
use sorostream_sdk.Base.Dict.{Dict}
use sorostream_sdk.RequestQueue.{
  QueuedItem, Best, priority_rank, queue_of, beats, scan_queue, scan_lanes,
}

module _ {T : Type 0} where
  -- `a` may be taken before `b`: its priority is higher, or equal and it did not come later.
  abbrev pub Leads : QueuedItem T → QueuedItem T → Type 0
  Leads a b =
      (priority_rank a.priority < priority_rank b.priority)
      ⊎ ((priority_rank a.priority ≡ priority_rank b.priority) × (a.enqueued_at ≤ b.enqueued_at))

  -- The best item so far leads an item that was scanned.
  abbrev pub LeadsOver : Option (Best T) → QueuedItem T → Type 0
  LeadsOver none x = ⊥
  LeadsOver (some best) x = Leads best.item x

  abbrev pub picked : QueuedItem T → ℕ → ℕ → Option (Best T) → Option (Best T)
  picked item li qi best =
      if beats item li best
      then some (record { item = item; lane_index = li; position = qi })
      else best

  picked-LeadsOver :
      (item : QueuedItem T) (li qi : ℕ) (best : Option (Best T))
      → LeadsOver (picked item li qi best) item
        × ((x : QueuedItem T) → LeadsOver best x → LeadsOver (picked item li qi best) x)
  picked-LeadsOver item li qi none = (inr (refl, omega arith), (λ x h. absurd h))
  picked-LeadsOver item li qi (some best) = elim (Bool-cases (beats item li (some best))) [
    | inl wins ↦ rw wins (inr (refl, omega arith), (λ x h. ground (arith, wins, h)))
    | inr stays ↦ rw stays (ground (arith, stays), (λ x h. h))
  ]

  scan_queue-LeadsOver :
      (items : List (QueuedItem T)) (li qi : ℕ) (best : Option (Best T))
      → All (LeadsOver (scan_queue items li qi best)) items
        × ((x : QueuedItem T) → LeadsOver best x → LeadsOver (scan_queue items li qi best) x)
  unfolding scan_queue
  scan_queue-LeadsOver [] li qi best = (tt, (λ x h. h))
  scan_queue-LeadsOver (item ∷ items) li qi best =
      let (self, keeps) = picked-LeadsOver item li qi best in
      let (others, later) = scan_queue-LeadsOver items li (qi + 1) (picked item li qi best) in
      ((later item self, others), (λ x h. later x (keeps x h)))

  pub scan_lanes-LeadsOver :
      (lanes : List String) (li : ℕ) (queues : Dict String (List (QueuedItem T)))
      (best : Option (Best T))
      → All (λ lane. All (LeadsOver (scan_lanes lanes li queues best)) (queue_of lane queues)) lanes
        × ((x : QueuedItem T) → LeadsOver best x → LeadsOver (scan_lanes lanes li queues best) x)
  unfolding scan_lanes
  scan_lanes-LeadsOver [] li queues best = (tt, (λ x h. h))
  scan_lanes-LeadsOver (lane ∷ lanes) li queues best =
      let scanned = scan_queue (queue_of lane queues) li 0 best in
      let (self, keeps) = scan_queue-LeadsOver (queue_of lane queues) li 0 best in
      let (others, later) = scan_lanes-LeadsOver lanes (li + 1) queues scanned in
      (
        (
          All-weaken (LeadsOver scanned) (LeadsOver (scan_lanes lanes (li + 1) queues scanned))
              later (queue_of lane queues) self,
          others,
        ),
        (λ x h. later x (keeps x h)),
      )
