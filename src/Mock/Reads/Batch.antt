-- ===== src/Mock/Reads/Batch.antt =====
-- What a batch read returns.
use sorostream_sdk.Base.{
  ◌≡◌, ◌⊎◌, inl, inr, refl, sym, ap, ◌∙◌, subst, not, ◌&&◌, filter, ◌==◌, String, Bool, true, none,
  some, List, [], ◌∷◌, ◌++◌, string_eq, contains, contains-append, Bool-cases, Option-cases, arith,
}
use mathlib.Core.List.{append_assoc, append-nil}
use sorostream_sdk.Base.Dict
use sorostream_sdk.Base.Dict.{Dict}
use sorostream_sdk.Base.Result.{ok}
use sorostream_sdk.Stream.{Stream}
use sorostream_sdk.Mock.State.{Client}
use sorostream_sdk.Mock.Reads.{BatchStreamsResult, distinct_from, look_up, get_streams_batch}

-- The ids, each where it occurs first.
unfoldable pub first_occurrences : List String → List String
unfolding filter
first_occurrences [] = []
first_occurrences (id ∷ ids) = id ∷ filter (λ q. not (id == q)) (first_occurrences ids)

filter-filter :
    (p r s : String → Bool)
    → ((q : String) → s q ≡ (r q && p q))
    → (xs : List String) → filter p (filter r xs) ≡ filter s xs
unfolding filter
filter-filter p r s h [] = refl
filter-filter p r s h (x ∷ xs) = ground (arith, h x, filter-filter p r s h xs)

filter_all :
    (p : String → Bool) → ((q : String) → p q ≡ true) → (xs : List String) → filter p xs ≡ xs
unfolding filter
filter_all p h [] = refl
filter_all p h (x ∷ xs) = rw (h x) (ap (x ∷◌) (filter_all p h xs))

abbrev unasked : List String → String → Bool
unasked requested q = not (contains requested q)

old_ids :
    (requested : List String) (id : String) (xs : List String)
    → contains requested id ≡ true
    → filter (unasked requested) (filter (λ q. not (id == q)) xs) ≡ filter (unasked requested) xs
old_ids requested id xs old =
    filter-filter (unasked requested) (λ q. not (id == q)) (unasked requested)
      (λ q. elim (Bool-cases (id == q)) [
        | inl same ↦
            let there : contains requested q ≡ true =
              subst (λ x. contains requested x ≡ true) ((string_eq.beq_iff id q).0 same) old in
            rw (same, there) refl
        | inr other ↦ rw other refl
      ])
      xs

new_ids :
    (requested : List String) (id : String) (xs : List String)
    → filter (unasked requested) (filter (λ q. not (id == q)) xs)
      ≡ filter (unasked (requested ++ id ∷ [])) xs
new_ids requested id xs =
    filter-filter (unasked requested) (λ q. not (id == q)) (unasked (requested ++ id ∷ []))
      (λ q. ground (arith, contains-append requested id q)) xs

-- The loop keeps what was asked for, and adds the other ids in the order in which they occur first.
distinct_from-first_occurrences :
    (ids requested : List String)
    → distinct_from requested ids ≡ requested ++ filter (unasked requested) (first_occurrences ids)
unfolding distinct_from first_occurrences filter
distinct_from-first_occurrences [] requested = sym (append-nil requested)
distinct_from-first_occurrences (id ∷ ids) requested =
    let later = filter (λ q. not (id == q)) (first_occurrences ids) in
    elim (Bool-cases (contains requested id)) [
      | inl old ↦ rw old (
          distinct_from-first_occurrences ids requested
          ∙ ap (λ xs. requested ++ xs) (sym (old_ids requested id (first_occurrences ids) old)))
      | inr new ↦ rw new (
          distinct_from-first_occurrences ids (requested ++ id ∷ [])
          ∙ append_assoc requested (id ∷ [])
              (filter (unasked (requested ++ id ∷ [])) (first_occurrences ids))
          ∙ ap (λ xs. requested ++ (id ∷ xs)) (sym (new_ids requested id (first_occurrences ids))))
    ]

asked_for : (ids : List String) → distinct_from [] ids ≡ first_occurrences ids
unfolding contains
asked_for ids =
    distinct_from-first_occurrences ids []
    ∙ filter_all (unasked []) (λ q. refl) (first_occurrences ids)

-- Each stream stands where its id was asked for, and each other id is missing.
abbrev pub Answers : Dict String Stream → List String → List Stream → List String → Type 0
Answers m [] ss missing = (ss ≡ []) × (missing ≡ [])
Answers m (id ∷ ids) ss missing =
    ((s : Stream) × (rest : List Stream) × (Dict.get id m ≡ some s)
      × (ss ≡ s ∷ rest)
      × Answers m ids rest missing)
    ⊎ ((rest : List String) × (Dict.get id m ≡ none)
        × (missing ≡ id ∷ rest)
        × Answers m ids ss rest)

look_up-Answers :
    (m : Dict String Stream) (ids : List String) → Answers m ids (look_up m ids).0 (look_up m ids).1
unfolding look_up
look_up-Answers m [] = (refl, refl)
look_up-Answers m (id ∷ ids) = elim (Option-cases (Dict.get id m)) [
  | inl absent ↦ rw (absent, look_up) (inr ((look_up m ids).1, refl, refl, look_up-Answers m ids))
  | inr (s, found) ↦
      rw (found, look_up) (inl (s, (look_up m ids).0, refl, refl, look_up-Answers m ids))
]

-- A batch read that returns has the streams of the ids in the order in which the ids occur first, each
-- once, and the ids that have no stream in that order.
pub get_streams_batch-Answers :
    (ids : List String) (strict : Bool) (c : Client) (r : BatchStreamsResult)
    → (get_streams_batch ids strict c).1 ≡ ok r
    → Answers c.streams (first_occurrences ids) r.streams r.missing
unfolding get_streams_batch
get_streams_batch-Answers ids strict c r done =
    let same : r.streams ≡ (look_up c.streams (distinct_from [] ids)).0 = ground arith in
    let same_missing : r.missing ≡ (look_up c.streams (distinct_from [] ids)).1 = ground arith in
    subst (λ xs. Answers c.streams xs r.streams r.missing) (asked_for ids)
      (rw (same, same_missing) (look_up-Answers c.streams (distinct_from [] ids)))
