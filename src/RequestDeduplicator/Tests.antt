-- ===== src/RequestDeduplicator/Tests.antt =====
-- Calls for one key.
use sorostream_sdk.Base.{◌≡◌, refl, true, false, none, some, [], ◌∷◌, string_eq, arith}
use sorostream_sdk.Base.Dict
use sorostream_sdk.RequestDeduplicator.{
  DedupeCallOptions, RequestDeduplicator, dedupe, start, join, decide, settle, asked, decided,
  settled, step,
}
use sorostream_sdk.RequestDeduplicator.Counts.{IsCounted, step-IsCounted}
use sorostream_sdk.RequestDeduplicator.Coalescing.{Shares, dedupe-Shares}

abbrev plain : DedupeCallOptions
plain = record { max_age_ms = none; fresh = false }

abbrev fetching : RequestDeduplicator
fetching = record {
  enabled = true;
  max_age_ms = some 500;
  in_flight = ("stream:42", record { request = 0; creation_tick = false }) ∷ [];
  started_at = ("stream:42", 100) ∷ [];
  requests = 1;
  started = 1;
  deduplicated = 0;
  peak_in_flight = 1;
  next_request = 1;
  deferred = [];
  answers = 0 ∷ [];
}

fetching-IsCounted : IsCounted fetching
fetching-IsCounted = record { calls = refl; answered = refl; peak = omega arith }

-- A later call is put off, and starts anew if the request has settled by then.
late_call :
    (step
      (decided 130)
      (step (settled "stream:42" 0) (step (asked "stream:42" plain 120) fetching))).answers
    ≡ 0 ∷ 1 ∷ []
unfolding step dedupe decide settle start join Dict.get Dict.set Dict.delete
late_call = refl

step-IsCounted_example : IsCounted (step (asked "stream:42" plain 120) fetching)
step-IsCounted_example = step-IsCounted (asked "stream:42" plain 120) fetching fetching-IsCounted

abbrev idle : RequestDeduplicator
idle = record fetching { in_flight = []; started_at = [] }

dedupe-Shares_example : Shares idle (dedupe "stream:7" plain 150 (dedupe "stream:7" plain 150 idle))
unfolding Dict.get
dedupe-Shares_example = dedupe-Shares "stream:7" plain plain 150 idle refl refl refl
