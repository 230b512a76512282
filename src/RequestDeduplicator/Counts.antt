-- ===== src/RequestDeduplicator/Counts.antt =====
-- The counters of the deduplicator, whatever happens to it.
use sorostream_sdk.Base.{
  ℕ, ◌+◌, ◌≤◌, ◌≡◌, refl, String, Bool, ◌&&◌, not, Option, none, some, List, [], ◌∷◌, nat_eq,
  string_eq, if_elim, length, length-append, arith,
}
use sorostream_sdk.Base.Dict
use sorostream_sdk.Base.Dict.{Dict}
use sorostream_sdk.RequestDeduplicator.{
  InFlightEntry, Deferred, RequestDeduplicator, within, age_of, or_own, is_of, start, join,
  dedupe_found, dedupe, decide_found, decide_first, decide, leave_entries, leave_turn, settle,
  clear, Event, asked, decided, turn_left, settled, cleared, step,
}

-- Each call has started a request, joined one or is put off; each caller of the first two kinds has an
-- answer; and no more requests were in flight than the peak.
pub record IsCounted (d : RequestDeduplicator) : Type 0 where
  pub calls : d.started + d.deduplicated + length d.deferred ≡ d.requests
  pub answered : length d.answers ≡ d.started + d.deduplicated
  pub peak : length d.in_flight ≤ d.peak_in_flight

-- The same, with one call that is not accounted for.
record IsOpen (d : RequestDeduplicator) : Type 0 where
  calls : d.started + d.deduplicated + length d.deferred + 1 ≡ d.requests
  answered : length d.answers ≡ d.started + d.deduplicated
  peak : length d.in_flight ≤ d.peak_in_flight

start-IsCounted :
    (key : String) (now : ℕ) (d : RequestDeduplicator) → IsOpen d → IsCounted (start key now d)
unfolding start
start-IsCounted key now d h = record {
  calls = omega (arith, h.calls);
  answered = omega (arith, h.answered, length-append d.answers (d.next_request ∷ []));
  peak = ground arith;
}

join-IsCounted :
    (entry : InFlightEntry) (d : RequestDeduplicator) → IsOpen d → IsCounted (join entry d)
unfolding join
join-IsCounted entry d h = record {
  calls = omega (arith, h.calls);
  answered = omega (arith, h.answered, length-append d.answers (entry.request ∷ []));
  peak = h.peak;
}

dedupe_found-IsCounted :
    (o : Option InFlightEntry) (key : String) (fresh : Bool) (max_age : Option ℕ) (now : ℕ)
    (d : RequestDeduplicator)
    → IsOpen d
    → IsCounted (dedupe_found o key fresh max_age now d)
dedupe_found-IsCounted none key fresh max_age now d h = start-IsCounted key now d h
dedupe_found-IsCounted (some entry) key fresh max_age now d h =
    if_elim IsCounted (not fresh && within (age_of key now d) max_age)
      (λ shares.
        if_elim IsCounted entry.creation_tick (λ same_turn. join-IsCounted entry d h)
          (λ later. record {
            calls = omega (arith, h.calls, length-append d.deferred (_ ∷ []));
            answered = h.answered;
            peak = h.peak;
          }))
      (λ anew. start-IsCounted key now d h)

decide_found-IsCounted :
    (o : Option InFlightEntry) (call : Deferred) (now : ℕ) (d : RequestDeduplicator)
    → IsOpen d
    → IsCounted (decide_found o call now d)
decide_found-IsCounted none call now d h = start-IsCounted call.key now d h
decide_found-IsCounted (some entry) call now d h =
    if_elim IsCounted (within (age_of call.key now d) call.max_age)
      (λ shares. join-IsCounted entry d h) (λ anew. start-IsCounted call.key now d h)

decide_first-IsCounted :
    (calls : List Deferred) (now : ℕ) (d : RequestDeduplicator)
    → length d.deferred ≡ length calls
    → IsCounted d
    → IsCounted (decide_first calls now d)
decide_first-IsCounted [] now d e h = h
decide_first-IsCounted (call ∷ calls) now d e h =
    decide_found-IsCounted (Dict.get call.key d.in_flight) call now (record d { deferred = calls })
      (record { calls = omega (arith, h.calls, e); answered = h.answered; peak = h.peak })

length-leave_entries :
    (request : ℕ) (es : Dict String InFlightEntry) → length (leave_entries request es) ≡ length es
length-leave_entries request [] = refl
length-leave_entries request (e ∷ es) = omega (arith, length-leave_entries request es)

-- Whatever is asked for, decided, settled and cleared: each call has started a request, joined one or
-- is put off, each of the first two kinds has been answered, and the peak is at least the number of
-- requests in flight.
pub step-IsCounted : (e : Event) (d : RequestDeduplicator) → IsCounted d → IsCounted (step e d)
unfolding step dedupe decide leave_turn settle clear
step-IsCounted (asked key options now) d h =
    if_elim IsCounted (not d.enabled)
      (λ off. record {
        calls = omega (arith, h.calls);
        answered = omega (arith, h.answered, length-append d.answers (d.next_request ∷ []));
        peak = h.peak;
      })
      (λ on.
        dedupe_found-IsCounted (Dict.get key d.in_flight) key options.fresh
          (or_own d.max_age_ms options.max_age_ms) now (record d { requests = d.requests + 1 })
          (record { calls = omega (arith, h.calls); answered = h.answered; peak = h.peak }))
step-IsCounted (decided now) d h = decide_first-IsCounted d.deferred now d refl h
step-IsCounted (turn_left request) d h = record {
  calls = h.calls;
  answered = h.answered;
  peak = omega (arith, h.peak, length-leave_entries request d.in_flight);
}
step-IsCounted (settled key request) d h =
    if_elim IsCounted (is_of request (Dict.get key d.in_flight))
      (λ own. record {
        calls = h.calls;
        answered = h.answered;
        peak = omega (arith, h.peak, Dict.length-delete-le key d.in_flight);
      })
      (λ other. h)
step-IsCounted cleared d h = record { calls = h.calls; answered = h.answered; peak = omega arith }
