-- ===== src/RequestDeduplicator.antt =====
-- requestDeduplicator.ts: `RequestDeduplicator`, on keys that are texts already. A request is known by
-- its number, and `answers` lists, for each caller that was given a promise, the request that it is
-- of. `dedupe` may put its decision off by a microtask: `deferred` holds those calls, and `decide` is
-- the microtask. The end of the turn in which an entry was made and the settling of its request are
-- further events. No maximal age is infinity, and a log of requests is left out.
pub mod Counts
pub mod Coalescing
mod Tests
use sorostream_sdk.Base.{
  ℕ, ◌+◌, ◌-◌, ◌≤◌, max, String, Bool, true, false, ◌&&◌, not, Option, none, some, List, [], ◌∷◌,
  ◌++◌, nat_eq, string_eq, ◌==◌, ltb, leb, if◌then◌else◌, length,
}
use sorostream_sdk.Base.Dict
use sorostream_sdk.Base.Dict.{Dict}

pub record DedupeCallOptions : Type 0 where
  pub max_age_ms : Option ℕ
  pub fresh : Bool

pub record InFlightEntry : Type 0 where
  pub request : ℕ
  pub creation_tick : Bool

pub record Deferred : Type 0 where
  pub key : String
  pub max_age : Option ℕ

pub record RequestDeduplicator : Type 0 where
  pub enabled : Bool
  pub max_age_ms : Option ℕ
  pub in_flight : Dict String InFlightEntry
  pub started_at : Dict String ℕ
  pub requests : ℕ
  pub started : ℕ
  pub deduplicated : ℕ
  pub peak_in_flight : ℕ
  pub next_request : ℕ
  pub deferred : List Deferred
  pub answers : List ℕ

unfoldable pub create : Bool → Option ℕ → RequestDeduplicator
create enabled max_age_ms = record {
  enabled = enabled;
  max_age_ms = max_age_ms;
  in_flight = [];
  started_at = [];
  requests = 0;
  started = 0;
  deduplicated = 0;
  peak_in_flight = 0;
  next_request = 0;
  deferred = [];
  answers = [];
}

abbrev pub within : ℕ → Option ℕ → Bool
within age none = true
within age (some most) = leb age most

abbrev pub or_own : Option ℕ → Option ℕ → Option ℕ
or_own own none = own
or_own own (some n) = some n

abbrev pub since : ℕ → Option ℕ → ℕ
since now none = now - now
since now (some t) = now - t

abbrev pub age_of : String → ℕ → RequestDeduplicator → ℕ
age_of key now d = since now (Dict.get key d.started_at)

unfoldable pub start : String → ℕ → RequestDeduplicator → RequestDeduplicator
start key now d =
    let entries =
      Dict.set key (record { request = d.next_request; creation_tick = true }) d.in_flight in
    record d {
      started = d.started + 1;
      in_flight = entries;
      started_at = Dict.set key now d.started_at;
      peak_in_flight =
          if ltb d.peak_in_flight (length entries) then length entries else d.peak_in_flight;
      next_request = d.next_request + 1;
      answers = d.answers ++ d.next_request ∷ [];
    }

unfoldable pub join : InFlightEntry → RequestDeduplicator → RequestDeduplicator
join entry d = record d {
  deduplicated = d.deduplicated + 1;
  answers = d.answers ++ entry.request ∷ [];
}

-- What `dedupe` does with the entry that it found, for the age that it may have.
abbrev pub dedupe_found :
    Option InFlightEntry → String → Bool → Option ℕ → ℕ → RequestDeduplicator → RequestDeduplicator
dedupe_found none key fresh max_age now d = start key now d
dedupe_found (some entry) key fresh max_age now d =
    if not fresh && within (age_of key now d) max_age
    then (if entry.creation_tick
        then join entry d
        else record d { deferred = d.deferred ++ record { key = key; max_age = max_age } ∷ [] })
    else start key now d

unfoldable pub dedupe : String → DedupeCallOptions → ℕ → RequestDeduplicator → RequestDeduplicator
unfolding start join
dedupe key options now d =
    let asked = record d { requests = d.requests + 1 } in
    if not d.enabled
    then record asked {
      started = d.started + 1;
      next_request = d.next_request + 1;
      answers = d.answers ++ d.next_request ∷ [];
    }
    else dedupe_found (Dict.get key d.in_flight) key options.fresh
        (or_own d.max_age_ms options.max_age_ms) now asked

abbrev pub decide_found :
    Option InFlightEntry → Deferred → ℕ → RequestDeduplicator → RequestDeduplicator
decide_found none call now d = start call.key now d
decide_found (some entry) call now d =
    if within (age_of call.key now d) call.max_age then join entry d else start call.key now d

abbrev pub decide_first : List Deferred → ℕ → RequestDeduplicator → RequestDeduplicator
decide_first [] now d = d
decide_first (call ∷ calls) now d =
    decide_found (Dict.get call.key d.in_flight) call now (record d { deferred = calls })

-- The microtask of the call that has waited longest.
unfoldable pub decide : ℕ → RequestDeduplicator → RequestDeduplicator
unfolding start join
decide now d = decide_first d.deferred now d

abbrev pub leave_entry : ℕ → String × InFlightEntry → String × InFlightEntry
leave_entry request (key, entry) =
    (key, if entry.request == request then record entry { creation_tick = false } else entry)

abbrev pub leave_entries : ℕ → Dict String InFlightEntry → Dict String InFlightEntry
leave_entries request [] = []
leave_entries request (e ∷ es) = leave_entry request e ∷ leave_entries request es

-- The turn in which an entry was made is over.
unfoldable pub leave_turn : ℕ → RequestDeduplicator → RequestDeduplicator
leave_turn request d = record d { in_flight = leave_entries request d.in_flight }

abbrev pub is_of : ℕ → Option InFlightEntry → Bool
is_of request none = false
is_of request (some entry) = entry.request == request

-- The request that was made under a key settles, either way.
unfoldable pub settle : String → ℕ → RequestDeduplicator → RequestDeduplicator
settle key request d =
    if is_of request (Dict.get key d.in_flight)
    then record d {
      in_flight = Dict.delete key d.in_flight;
      started_at = Dict.delete key d.started_at;
    }
    else d

unfoldable pub clear : RequestDeduplicator → RequestDeduplicator
clear d = record d { in_flight = []; started_at = [] }

unfoldable pub reset_stats : RequestDeduplicator → RequestDeduplicator
reset_stats d = record d {
  requests = 0;
  started = 0;
  deduplicated = 0;
  peak_in_flight = length d.in_flight;
}

pub data Event : Type 0 where
  asked : String → DedupeCallOptions → ℕ → Event
  decided : ℕ → Event
  turn_left : ℕ → Event
  settled : String → ℕ → Event
  cleared : Event

unfoldable pub step : Event → RequestDeduplicator → RequestDeduplicator
unfolding dedupe decide leave_turn settle clear
step (asked key options now) d = dedupe key options now d
step (decided now) d = decide now d
step (turn_left request) d = leave_turn request d
step (settled key request) d = settle key request d
step cleared d = clear d
