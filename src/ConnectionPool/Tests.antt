-- ===== src/ConnectionPool/Tests.antt =====
-- Pools at concrete calls.
use sorostream_sdk.Base.{◌≡◌, refl, inr, [], ◌∷◌, arith}
use sorostream_sdk.ConnectionPool.{
  Waiter, ConnectionPool, released, step, next_waiter, best_waiter, remove_waiter, grant, release,
  least_loaded_slot, least_from, change_at, emit_if_drained, all_idle,
}
use sorostream_sdk.ConnectionPool.Grants.{Served, step-Served}

abbrev ada : Waiter
ada = record { caller = "ada"; rank = 2; seq = 0 }

abbrev ben : Waiter
ben = record { caller = "ben"; rank = 0; seq = 1 }

abbrev full : ConnectionPool
full = record {
  slots =
      record { subscriptions = 1; last_active = 5 }
      ∷ record { subscriptions = 0; last_active = 0 }
      ∷ [];
  max_subs = 1;
  idle_timeout_ms = 30000;
  max_connections = 1;
  active_connections = 1;
  waiters = ada ∷ ben ∷ [];
  waiter_seq = 2;
  granted = ("eve", 0) ∷ [];
  events = [];
}

-- The caller of high priority is granted first, with the idle slot of the lower place.
ben_granted : (step (released 0 9) full).granted ≡ ("eve", 0) ∷ ("ben", 0) ∷ []
unfolding step release next_waiter best_waiter remove_waiter grant least_loaded_slot least_from
    change_at emit_if_drained all_idle
ben_granted = refl

step-Served_example : Served full (step (released 0 9) full) [] []
step-Served_example = step-Served (released 0 9) full (record {
  within = omega arith;
  busy = inr refl;
  numbered = (omega arith, ((omega arith, tt), (omega arith, (tt, tt))));
})
