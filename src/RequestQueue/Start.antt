-- ===== src/RequestQueue/Start.antt =====
-- A new request queue.
use sorostream_sdk.Base.{
  ℕ, ◌≡◌, refl, ap, ◌∙◌, inl, inr, String, false, Option, none, List, [], ◌∷◌, nat_eq, string_eq,
  ◌==◌, length, contains, All, All-weaken, Bool-cases, arith,
}
use sorostream_sdk.Base.Dict
use sorostream_sdk.Base.Dict.{Dict}
use sorostream_sdk.RequestQueue.{QueuedItem, create, configured, each_lane, total_queued}
use sorostream_sdk.RequestQueue.Place.{InLane}
use sorostream_sdk.RequestQueue.Drain.{itself}
use sorostream_sdk.RequestQueue.Register.{IsSound}

module _ {V : Type 0} (v : V) where
  abbrev IsInitial : String × V → Type 0
  IsInitial (lane, w) = w ≡ v

  each_lane-IsInitial :
      (lanes : List String) (m : Dict String V)
      → All IsInitial m
      → All IsInitial (each_lane v lanes m)
  each_lane-IsInitial [] m h = h
  each_lane-IsInitial (lane ∷ lanes) m h =
      each_lane-IsInitial lanes _ (Dict.set-All IsInitial lane v m refl h)

  each_lane-IsKeyed :
      (lanes : List String) (m : Dict String V)
      → Dict.IsKeyed m
      → Dict.IsKeyed (each_lane v lanes m)
  each_lane-IsKeyed [] m h = h
  each_lane-IsKeyed (lane ∷ lanes) m h = each_lane-IsKeyed lanes _ (Dict.set-IsKeyed lane v m h)

  get-each_lane :
      (lanes : List String) (l : String) (m : Dict String V)
      → contains lanes l ≡ false
      → Dict.get l (each_lane v lanes m) ≡ Dict.get l m
  unfolding contains
  get-each_lane [] l m h = refl
  get-each_lane (lane ∷ lanes) l m h =
      get-each_lane lanes l (Dict.set lane v m) (ground (arith, h))
      ∙ Dict.get-set_ne lane l v m (λ e. absurd (ground (arith, h, e, string_eq.beq_iff lane l)))

  module _ (f : V → ℕ) (z : f v ≡ 0) where
    total-IsInitial : (m : Dict String V) → All IsInitial m → Dict.total f m ≡ 0
    total-IsInitial [] h = refl
    total-IsInitial ((lane, w) ∷ m) (p, h) = omega (arith, ap f p, z, total-IsInitial m h)

    measure-IsInitial :
        (l : String) (m : Dict String V) → All IsInitial m → Dict.measure f (Dict.get l m) ≡ 0
    unfolding Dict.get
    measure-IsInitial l [] h = refl
    measure-IsInitial l ((lane, w) ∷ m) (p, h) = elim (Bool-cases (lane == l)) [
      | inl same ↦ rw same (ap f p ∙ z)
      | inr other ↦ rw other (measure-IsInitial l m h)
    ]

empty_InLane : {T : Type 0} (p : String × List (QueuedItem T)) → p.1 ≡ [] → InLane p
empty_InLane (lane, []) e = tt
empty_InLane (lane, item ∷ items) e = absurd (ground (arith, e))

none_there : {V : Type 0} (l : String) → Dict.get {K = String} {V = V} l [] ≡ none
unfolding Dict.get
none_there l = refl

-- A new queue is sound, whatever its limit and lanes.
pub create-IsSound :
    {T : Type 0} (limit : Option ℕ) (lanes : List String) → IsSound {T = T} (create limit lanes)
unfolding create total_queued
create-IsSound {T} limit lanes =
    let names = configured lanes in
    let empty_lanes : Dict String (List (QueuedItem T)) = each_lane [] names [] in
    let empties = each_lane-IsInitial [] names [] tt in
    let zeros = each_lane-IsInitial 0 names [] tt in
    record {
      ready = record {
        positive = omega arith;
        within = omega arith;
        in_lanes = All-weaken _ InLane (λ p e. empty_InLane p e) empty_lanes empties;
        keyed = each_lane-IsKeyed [] names [] tt;
        known = λ l u. get-each_lane [] names l [] u ∙ none_there l;
        counted_lanes = λ l u. measure-IsInitial 0 itself refl l (each_lane 0 names []) zeros;
        counted = total-IsInitial 0 itself refl (each_lane 0 names []) zeros;
      };
      busy = inr (total-IsInitial [] length refl empty_lanes empties);
    }
