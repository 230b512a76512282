-- ===== src/RateLimiter/Order.antt =====
-- The order in which the limiter starts tasks, and how many run at a time.
use sorostream_sdk.Base.{
  ℕ, ◌-◌, ◌≤◌, ◌≡◌, refl, sym, ap, ◌∙◌, inl, inr, List, [], ◌∷◌, ◌++◌, nat_eq, ◌==◌, ltb,
  Bool-cases, All, if_elim, length, length-append, ◌+◌, arith,
}
use mathlib.Core.List.{append_assoc, append-nil}
use sorostream_sdk.RateLimiter.{Limiter, start, drain, run, Event, submit, settle, limit, step}
use sorostream_sdk.RateLimiter.Fairness.{Drained, IsBusy, drain-Drained}

module _ {T : Type 0} where
  abbrev pub submitted : List (Event T) → List T
  submitted [] = []
  submitted (submit t ∷ es) = t ∷ submitted es
  submitted (settle ∷ es) = submitted es
  submitted (limit n ∷ es) = submitted es

  abbrev pub run_all : List (Event T) → Limiter T → Limiter T
  run_all [] l = l
  run_all (e ∷ es) l = run_all es (step e l)

  -- All that was submitted so far, in the limiter's order.
  abbrev pub line : Limiter T → List T
  line l = l.started ++ l.queue

  run-line :
      (t : T) (l : Limiter T) → IsBusy l → (line (run t l) ≡ line l ++ t ∷ []) × IsBusy (run t l)
  unfolding run start
  run-line t l b = elim (Bool-cases (ltb l.in_flight l.max_concurrent)) [
    | inl free ↦ rw free (elim b [
      | inl empty ↦ (simp (empty, append-nil), inl empty)
      | inr full ↦ absurd (ground arith)
    ])
    | inr full ↦ rw full (sym (append_assoc l.started l.queue (t ∷ [])), inr (ground arith))
  ]

  drain-line : (l : Limiter T) → (line (drain l) ≡ line l) × IsBusy (drain l)
  drain-line l = let d = drain-Drained l in (d.order, d.busy)

  limit-line :
      (n : ℕ) (l : Limiter T)
      → IsBusy l
      → (line (step (limit n) l) ≡ line l) × IsBusy (step (limit n) l)
  unfolding step
  limit-line n l b = elim (Bool-cases (n == 0)) [
    | inl none_left ↦ rw none_left (refl, b)
    | inr fine ↦ rw fine (drain-line (record l { max_concurrent = n }))
  ]

  settle-line : (l : Limiter T) → (line (step settle l) ≡ line l) × IsBusy (step settle l)
  unfolding step
  settle-line l = drain-line (record l { in_flight = l.in_flight - 1 })

  submit-line :
      (t : T) (l : Limiter T)
      → IsBusy l
      → (line (step (submit t) l) ≡ line l ++ t ∷ []) × IsBusy (step (submit t) l)
  unfolding step
  submit-line t l b = run-line t l b

  -- Tasks are started in the order of their submission, and wait only while the limit is reached,
  -- whatever settles in between and however the limit is moved.
  pub run_all-fifo :
      (es : List (Event T)) (l : Limiter T)
      → IsBusy l
      → (line (run_all es l) ≡ line l ++ submitted es) × IsBusy (run_all es l)
  run_all-fifo [] l b = (sym (append-nil _), b)
  run_all-fifo (submit t ∷ es) l b =
      let (order, busy) = submit-line t l b in
      let (rest, last) = run_all-fifo es (step (submit t) l) busy in
      (
        rest ∙ ap (λ x. x ++ submitted es) order ∙ append_assoc (line l) (t ∷ []) (submitted es),
        last,
      )
  run_all-fifo (settle ∷ es) l b =
      let (order, busy) = settle-line l in
      let (rest, last) = run_all-fifo es (step settle l) busy in
      (rest ∙ ap (λ x. x ++ submitted es) order, last)
  run_all-fifo (limit n ∷ es) l b =
      let (order, busy) = limit-line n l b in
      let (rest, last) = run_all-fifo es (step (limit n) l) busy in
      (rest ∙ ap (λ x. x ++ submitted es) order, last)

  -- The limit is respected: with `settled` tasks that have settled, at most as many more were started as
  -- the code counts, and that is at most `n`.
  pub record IsWithin (n settled : ℕ) (l : Limiter T) : Type 0 where
    pub counted : length l.started ≤ l.in_flight + settled
    pub within : l.in_flight ≤ n
    pub limited : l.max_concurrent ≤ n

  Drained-count :
      (l d : Limiter T)
      → Drained l d
      → length d.started + l.in_flight ≡ length l.started + d.in_flight
  Drained-count l d h = omega (
    arith,
    h.counted,
    ap length h.order,
    length-append d.started d.queue,
    length-append l.started l.queue,
  )

  drain-IsWithin :
      (n settled : ℕ) (l : Limiter T) → IsWithin n settled l → IsWithin n settled (drain l)
  drain-IsWithin n settled l h =
      let d = drain-Drained l in
      record {
        counted = omega (arith, h.counted, Drained-count l (drain l) d);
        within = omega (arith, d.bounded, h.within, h.limited);
        limited = omega (arith, d.same_limit, h.limited);
      }

  -- How many tasks have settled after an event, `n` before it.
  abbrev settled_by : Event T → ℕ → ℕ
  settled_by (submit t) n = n
  settled_by settle n = n + 1
  settled_by (limit m) n = n

  abbrev pub settled_in : List (Event T) → ℕ → ℕ
  settled_in [] n = n
  settled_in (e ∷ es) n = settled_in es (settled_by e n)

  run-IsWithin :
      (n settled : ℕ) (t : T) (l : Limiter T) → IsWithin n settled l → IsWithin n settled (run t l)
  unfolding run start
  run-IsWithin n settled t l h =
      if_elim (IsWithin n settled) (ltb l.in_flight l.max_concurrent)
        (λ free. record {
          counted = omega (arith, h.counted, length-append l.started (t ∷ []));
          within = ground (arith, h.limited, free);
          limited = h.limited;
        })
        (λ full. record { counted = h.counted; within = h.within; limited = h.limited })

  step-IsWithin :
      (n settled : ℕ) (e : Event T) (l : Limiter T)
      → ((m : ℕ) → e ≡ limit m → m ≤ n)
      → IsWithin n settled l
      → IsWithin n (settled_by e settled) (step e l)
  unfolding step
  step-IsWithin n settled (submit t) l small h = run-IsWithin n settled t l h
  step-IsWithin n settled settle l small h =
      drain-IsWithin n (settled + 1) (record l { in_flight = l.in_flight - 1 })
        (record {
          counted = omega (arith, h.counted);
          within = omega (arith, h.within);
          limited = h.limited;
        })
  step-IsWithin n settled (limit m) l small h = elim (Bool-cases (m == 0)) [
    | inl nil ↦ rw nil h
    | inr fine ↦ rw fine (
        drain-IsWithin n settled (record l { max_concurrent = m })
          (record { counted = h.counted; within = h.within; limited = small m refl }))
  ]

  run_all-kept :
      (n settled : ℕ) (es : List (Event T)) (l : Limiter T)
      → All (λ e. (m : ℕ) → e ≡ limit m → m ≤ n) es
      → IsWithin n settled l
      → IsWithin n (settled_in es settled) (run_all es l)
  run_all-kept n settled [] l small h = h
  run_all-kept n settled (e ∷ es) l (s, small) h =
      run_all-kept n (settled_by e settled) es (step e l) small (step-IsWithin n settled e l s h)

  -- If the limit at first and every limit that is ever set are at most `n`, then at every moment at
  -- most `n` tasks run that the limiter started: of all tasks started so far, all but `n` have
  -- settled. At first, when `settled` have
  -- settled, no more tasks run than the limiter counts, and no more than `n`.
  pub run_all-IsWithin :
      (n settled : ℕ) (es : List (Event T)) (l : Limiter T)
      → All (λ e. (m : ℕ) → e ≡ limit m → m ≤ n) es
      → IsWithin n settled l
      → length (run_all es l).started ≤ n + settled_in es settled
  run_all-IsWithin n settled es l small h =
      let w = run_all-kept n settled es l small h in omega (arith, w.counted, w.within)
