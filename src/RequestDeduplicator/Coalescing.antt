-- ===== src/RequestDeduplicator/Coalescing.antt =====
-- That calls of one turn share a request.
use sorostream_sdk.Base.{
  ℕ, ◌+◌, ◌≡◌, refl, sym, ap, ◌∙◌, subst, if_elim, String, true, false, ◌&&◌, not, Option, none,
  some, [], ◌∷◌, ◌++◌, nat_eq, string_eq, arith,
}
use sorostream_sdk.Base.Dict
use sorostream_sdk.RequestDeduplicator.{
  DedupeCallOptions, InFlightEntry, RequestDeduplicator, within, since, age_of, or_own, start, join,
  dedupe_found, dedupe,
}

-- The first of two calls starts a request, and the second is given the same one.
pub record Shares (d d' : RequestDeduplicator) : Type 0 where
  pub started_once : d'.started ≡ d.started + 1
  pub joined : d'.deduplicated ≡ d.deduplicated + 1
  pub answers : d'.answers ≡ (d.answers ++ d.next_request ∷ []) ++ d.next_request ∷ []

abbrev counted : RequestDeduplicator → RequestDeduplicator
counted d = record d { requests = d.requests + 1 }

dedupe-start :
    (key : String) (options : DedupeCallOptions) (now : ℕ) (d : RequestDeduplicator)
    → d.enabled ≡ true
    → Dict.get key d.in_flight ≡ none
    → dedupe key options now d ≡ start key now (counted d)
unfolding dedupe
dedupe-start key options now d on absent =
    if_elim (λ r. r ≡ start key now (counted d)) (not d.enabled)
      (λ off. absurd (ground (arith, off, on)))
      (λ enabled.
        ap
          (λ o.
            dedupe_found o key options.fresh (or_own d.max_age_ms options.max_age_ms) now
              (counted d))
          absent)

within_zero : (now : ℕ) (most : Option ℕ) → within (since now (some now)) most ≡ true
within_zero now none = refl
within_zero now (some n) = ground arith

dedupe-join :
    (key : String) (options : DedupeCallOptions) (now : ℕ) (entry : InFlightEntry)
    (d : RequestDeduplicator)
    → d.enabled ≡ true
    → Dict.get key d.in_flight ≡ some entry
    → Dict.get key d.started_at ≡ some now
    → entry.creation_tick ≡ true
    → options.fresh ≡ false
    → dedupe key options now d ≡ join entry (counted d)
unfolding dedupe
dedupe-join key options now entry d on found time tick again =
    let most = or_own d.max_age_ms options.max_age_ms in
    let young : within (age_of key now (counted d)) most ≡ true =
      ap (λ o. within (since now o) most) time ∙ within_zero now most in
    let P : RequestDeduplicator → Type 0 = λ r. r ≡ join entry (counted d) in
    if_elim P (not d.enabled) (λ off. absurd (ground (arith, off, on)))
      (λ enabled.
        ap (λ o. dedupe_found o key options.fresh most now (counted d)) found
        ∙ if_elim P (not options.fresh && within (age_of key now (counted d)) most)
            (λ shares.
              if_elim P entry.creation_tick (λ same_turn. refl)
                (λ later. absurd (ground (arith, later, tick))))
            (λ anew. absurd (ground (arith, anew, young, again))))

-- With an enabled deduplicator two calls for a key that is not in flight, of the same turn and time,
-- share one request, if the second does not ask for a fresh one.
pub dedupe-Shares :
    (key : String) (first second : DedupeCallOptions) (now : ℕ) (d : RequestDeduplicator)
    → d.enabled ≡ true
    → Dict.get key d.in_flight ≡ none
    → second.fresh ≡ false
    → Shares d (dedupe key second now (dedupe key first now d))
unfolding start join
dedupe-Shares key first second now d on absent again =
    let entry : InFlightEntry = record { request = d.next_request; creation_tick = true } in
    let once : RequestDeduplicator = start key now (counted d) in
    let e : dedupe key second now (dedupe key first now d) ≡ join entry (counted once) =
      ap (dedupe key second now) (dedupe-start key first now d on absent)
      ∙ dedupe-join key second now entry once on (Dict.get-set_self key entry d.in_flight)
          (Dict.get-set_self key now d.started_at) refl again in
    subst (Shares d) (sym e) (record { started_once = refl; joined = refl; answers = refl })
