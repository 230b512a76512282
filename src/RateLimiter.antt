-- ===== src/RateLimiter.antt =====
-- rate-limiter.ts. A task is started by calling it; what it does then is not looked at. `started`
-- lists the tasks that were called, in order. `execute` is `start` here, up to the `await`, and
-- `finish`, its `finally`, when the task settles.
pub mod Fairness
pub mod Order
mod Tests
use sorostream_sdk.Base.{
  ℕ, ◌+◌, ◌-◌, Bool, true, false, Option, none, some, List, [], ◌∷◌, ◌++◌, nat_eq, ◌==◌, ltb,
  if◌then◌else◌,
}

pub record Limiter (T : Type 0) : Type 0 where
  pub queue : List T
  pub in_flight : ℕ
  pub max_concurrent : ℕ
  pub started : List T

module _ {T : Type 0} where
  -- The constructor, and `setMaxConcurrent`, throw at a limit below 1.
  unfoldable pub create : ℕ → Option (Limiter T)
  create limit =
      if limit == 0
      then none
      else some (record { queue = []; in_flight = 0; max_concurrent = limit; started = [] })

  unfoldable pub start : T → Limiter T → Limiter T
  start task l = record l { in_flight = l.in_flight + 1; started = l.started ++ task ∷ [] }

  -- The loop of `drain`, on the queue.
  unfoldable pub drain_from : List T → Limiter T → Limiter T
  unfolding start
  drain_from [] l = record l { queue = [] }
  drain_from (task ∷ rest) l =
      let drained = drain_from rest (start task l) in
      if ltb l.in_flight l.max_concurrent then drained else record l { queue = task ∷ rest }

  unfoldable pub drain : Limiter T → Limiter T
  drain l = drain_from l.queue l

  unfoldable pub run : T → Limiter T → Limiter T
  unfolding start
  run task l =
      if ltb l.in_flight l.max_concurrent
      then start task l
      else record l { queue = l.queue ++ task ∷ [] }

  unfoldable pub finish : Limiter T → Limiter T
  finish l = drain (record l { in_flight = l.in_flight - 1 })

  unfoldable pub set_max_concurrent : ℕ → Limiter T → Option (Limiter T)
  set_max_concurrent limit l =
      if limit == 0 then none else some (drain (record l { max_concurrent = limit }))

-- What can happen to a limiter: a task is submitted, one settles, or the limit is changed, which a
-- limit below 1 refuses.
pub data Event (T : Type 0) : Type 0 where
  submit : T → Event T
  settle : Event T
  limit : ℕ → Event T

module _ {T : Type 0} where
  abbrev changed : Limiter T → Option (Limiter T) → Limiter T
  changed l none = l
  changed l (some l') = l'

  unfoldable pub step : Event T → Limiter T → Limiter T
  unfolding run finish set_max_concurrent
  step (submit t) l = run t l
  step settle l = finish l
  step (limit n) l = changed l (set_max_concurrent n l)
