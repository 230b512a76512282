-- ===== src/ConnectionPool.antt =====
-- connectionPool.ts: `ConnectionPool`. A slot is its number of subscriptions and the time it was last
-- used; the servers and pollers that it holds are other programs', named by its place. Callers of
-- `acquire` are known by a name. `granted` lists the callers in the order they were granted, each with
-- its slot, and `events` what the listeners were sent. A handle that was given out may be released
-- once; a release after the first does nothing. The time is an argument.
pub mod Slots
pub mod Waiting
pub mod Grants
mod Tests
use sorostream_sdk.Base.{
  ℕ, zero, suc, ◌+◌, ◌-◌, String, Bool, true, false, ◌&&◌, ◌||◌, Option, none, some, List, [], ◌∷◌,
  ◌++◌, nat_eq, string_eq, ◌==◌, ltb, leb, if◌then◌else◌, length,
}

pub data ConnectionPriority : Type 0 where
  high normal low : ConnectionPriority

abbrev pub priority_rank : ConnectionPriority → ℕ
priority_rank high = 0
priority_rank normal = 1
priority_rank low = 2

pub data PoolEventType : Type 0 where
  pool_full pool_drain : PoolEventType

pub record PoolSlot : Type 0 where
  pub subscriptions : ℕ
  pub last_active : ℕ

pub record Waiter : Type 0 where
  pub caller : String
  pub rank : ℕ
  pub seq : ℕ

pub record ConnectionPool : Type 0 where
  pub slots : List PoolSlot
  pub max_subs : ℕ
  pub idle_timeout_ms : ℕ
  pub max_connections : ℕ
  pub active_connections : ℕ
  pub waiters : List Waiter
  pub waiter_seq : ℕ
  pub granted : List (String × ℕ)
  pub events : List PoolEventType

abbrev pub or_else : ℕ → Option ℕ → ℕ
or_else d none = d
or_else d (some n) = n

abbrev pub fresh_slots : ℕ → ℕ → List PoolSlot
fresh_slots zero now = []
fresh_slots (suc n) now = record { subscriptions = 0; last_active = now } ∷ fresh_slots n now

unfoldable pub create : ℕ → Option ℕ → Option ℕ → Option ℕ → ℕ → ConnectionPool
create pool_size max_connections max_subs idle_timeout_ms now = record {
  slots = fresh_slots pool_size now;
  max_subs = or_else 10 max_subs;
  idle_timeout_ms = or_else 30000 idle_timeout_ms;
  max_connections = or_else pool_size max_connections;
  active_connections = 0;
  waiters = [];
  waiter_seq = 0;
  granted = [];
  events = [];
}

-- `_leastLoadedSlot`: the place of the best slot so far, its load, and the place that is looked at.
unfoldable pub least_from : List PoolSlot → ℕ → ℕ → ℕ → ℕ
least_from [] best load i = best
least_from (slot ∷ slots) best load i =
    let lower = ltb slot.subscriptions load in
    least_from slots (if lower then i else best) (if lower then slot.subscriptions else load)
      (i + 1)

unfoldable pub least_loaded_slot : List PoolSlot → ℕ
unfolding least_from
least_loaded_slot [] = 0
least_loaded_slot (slot ∷ slots) = least_from slots 0 slot.subscriptions 1

-- `slots[i]` is changed.
unfoldable pub change_at : ℕ → (PoolSlot → PoolSlot) → List PoolSlot → List PoolSlot
change_at i f [] = []
change_at zero f (slot ∷ slots) = f slot ∷ slots
change_at (suc i) f (slot ∷ slots) = slot ∷ change_at i f slots

abbrev pub subscribe : ℕ → PoolSlot → PoolSlot
subscribe now slot = record { subscriptions = slot.subscriptions + 1; last_active = now }

abbrev pub unsubscribe : PoolSlot → PoolSlot
unsubscribe slot = record slot { subscriptions = slot.subscriptions - 1 }

abbrev pub load_at : ℕ → List PoolSlot → ℕ
load_at i [] = 0
load_at zero (slot ∷ slots) = slot.subscriptions
load_at (suc i) (slot ∷ slots) = load_at i slots

unfoldable pub all_idle : List PoolSlot → Bool
all_idle [] = true
all_idle (slot ∷ slots) = slot.subscriptions == 0 && all_idle slots

unfoldable pub emit_if_drained : ConnectionPool → ConnectionPool
unfolding all_idle
emit_if_drained p =
    if all_idle p.slots then record p { events = p.events ++ pool_drain ∷ [] } else p

-- `acquirePoller`: the slot that is taken, or none if all are full, when it throws.
unfoldable pub acquire_poller : ℕ → ConnectionPool → ConnectionPool × Option ℕ
unfolding least_loaded_slot change_at
acquire_poller now p =
    let best = least_loaded_slot p.slots in
    if leb p.max_subs (load_at best p.slots)
    then (record p { events = p.events ++ pool_full ∷ [] }, none)
    else (record p { slots = change_at best (subscribe now) p.slots }, some best)

-- `acquireServer`, which has no limit.
unfoldable pub acquire_server : ℕ → ConnectionPool → ConnectionPool × ℕ
unfolding least_loaded_slot change_at
acquire_server now p =
    let best = least_loaded_slot p.slots in
    (record p { slots = change_at best (subscribe now) p.slots }, best)

-- The first release of a poller or a server.
unfoldable pub release_slot : ℕ → ConnectionPool → ConnectionPool
unfolding change_at emit_if_drained
release_slot i p = emit_if_drained (record p { slots = change_at i unsubscribe p.slots })

unfoldable pub grant : String → ℕ → ConnectionPool → ConnectionPool
unfolding least_loaded_slot change_at
grant caller now p =
    let best = least_loaded_slot p.slots in
    record p {
      slots = change_at best (subscribe now) p.slots;
      active_connections = p.active_connections + 1;
      granted = p.granted ++ (caller, best) ∷ [];
    }

-- `acquire`, with a signal that has not fired.
unfoldable pub acquire : String → Option ConnectionPriority → ℕ → ConnectionPool → ConnectionPool
unfolding grant
acquire caller priority now p =
    if ltb p.active_connections p.max_connections then grant caller now p else record p {
      waiters =
          p.waiters ++ record { caller = caller; rank = rank_of priority; seq = p.waiter_seq } ∷ [];
      waiter_seq = p.waiter_seq + 1;
    }
  where
    rank_of : Option ConnectionPriority → ℕ
    rank_of none = priority_rank normal
    rank_of (some given) = priority_rank given

-- `_nextWaiter` keeps the first of the best waiters; what it removes is known by its `seq`.
abbrev pub better : Waiter → Waiter → Bool
better candidate best =
    ltb candidate.rank best.rank || (candidate.rank == best.rank && ltb candidate.seq best.seq)

unfoldable pub best_waiter : List Waiter → Waiter → Waiter
best_waiter [] best = best
best_waiter (w ∷ ws) best = best_waiter ws (if better w best then w else best)

unfoldable pub remove_waiter : ℕ → List Waiter → List Waiter
remove_waiter seq [] = []
remove_waiter seq (w ∷ ws) =
    let rest = remove_waiter seq ws in if w.seq == seq then ws else w ∷ rest

unfoldable pub next_waiter : List Waiter → Option (Waiter × List Waiter)
unfolding best_waiter remove_waiter
next_waiter [] = none
next_waiter (w ∷ ws) = let best = best_waiter ws w in some (best, remove_waiter best.seq (w ∷ ws))

abbrev pub hand_over : Option (Waiter × List Waiter) → ℕ → ConnectionPool → ConnectionPool
hand_over none now p = p
hand_over (some (w, ws)) now p = grant w.caller now (record p { waiters = ws })

abbrev pub freed : ℕ → ConnectionPool → ConnectionPool
freed i p = record p {
  slots = change_at i unsubscribe p.slots;
  active_connections = p.active_connections - 1;
}

-- The first release of a connection: its slot goes to the next waiter.
unfoldable pub release : ℕ → ℕ → ConnectionPool → ConnectionPool
unfolding next_waiter grant change_at emit_if_drained
release i now p = emit_if_drained (hand_over (next_waiter p.waiters) now (freed i p))

-- The signal of a waiter fires.
unfoldable pub abort : ℕ → ConnectionPool → ConnectionPool
unfolding remove_waiter
abort seq p = record p { waiters = remove_waiter seq p.waiters }

unfoldable pub sweep_idle : ℕ → ConnectionPool → ConnectionPool
sweep_idle now p = record p { slots = swept p.slots }
  where
    swept : List PoolSlot → List PoolSlot
    swept [] = []
    swept (slot ∷ slots) =
        (if slot.subscriptions == 0 && ltb p.idle_timeout_ms (now - slot.last_active)
          then record slot { last_active = now }
          else slot)
        ∷ swept slots

pub record PoolStats : Type 0 where
  pub total : ℕ
  pub active : ℕ
  pub idle : ℕ

abbrev pub count_active : List PoolSlot → ℕ
count_active [] = 0
count_active (slot ∷ slots) = (if ltb 0 slot.subscriptions then 1 else 0) + count_active slots

unfoldable pub get_stats : ConnectionPool → PoolStats
get_stats p = record {
  total = length p.slots;
  active = count_active p.slots;
  idle = length p.slots - count_active p.slots;
}

-- What can happen to the connections of a pool: one is asked for, one that is held is released, or the
-- signal of a waiter fires.
pub data Event : Type 0 where
  asked : String → Option ConnectionPriority → ℕ → Event
  released : ℕ → ℕ → Event
  aborted : ℕ → Event

unfoldable pub step : Event → ConnectionPool → ConnectionPool
unfolding acquire release abort
step (asked caller priority now) p = acquire caller priority now p
step (released i now) p = if p.active_connections == 0 then p else release i now p
step (aborted seq) p = abort seq p
