-- ===== src/Portfolio/Groups.antt =====
-- What the aggregates by token and by recipient come to.
use sorostream_sdk.Base.{
  ℕ, ◌+◌, ◌-◌, ◌≡◌, refl, ap, ◌∙◌, subst, inl, inr, Option-cases, String, Bool, true, Option, none,
  some, List, [], ◌∷◌, nat_eq, string_eq, ◌==◌, length, map, filter, All, Bool-cases, arith,
}
use sorostream_sdk.Base.Dict
use sorostream_sdk.Base.Dict.{Dict}
use sorostream_sdk.Base.Sort.{sort_on}
use sorostream_sdk.Base.Result.{ok}
use sorostream_sdk.Stream.{Stream}
use sorostream_sdk.Portfolio.Totals.{
  StreamTotals, Aggregate, add_totals, total_value_streamed, existing, add_to, group_streams,
  aggregate_by, value_of,
}
use sorostream_sdk.Portfolio.Balance.{Fits, Readings, readings}

-- The figures of a group, nothing for one that is not there.
pub record Figures : Type 0 where
  pub count : ℕ
  pub deposited : ℕ
  pub claimable : ℕ
  pub claimed : ℕ

abbrev pub figures : Option Aggregate → Figures
figures none = record { count = 0; deposited = 0; claimable = 0; claimed = 0 }
figures (some a) = record {
  count = a.stream_count;
  deposited = a.deposited;
  claimable = a.claimable;
  claimed = a.claimed_so_far;
}

-- `t` is what the figures `g` of a group became, `f` before, over the streams whose totals `t` adds
-- up from `t0`.
record Grew (g f : Figures) (t t0 : StreamTotals) : Type 0 where
  deposited : g.deposited + t0.total_deposited ≡ f.deposited + t.total_deposited
  claimable : g.claimable + t0.total_claimable ≡ f.claimable + t.total_claimable
  streams : t.total_streams ≡ t0.total_streams
  claimed : g.claimed + t0.total_claimed ≡ f.claimed + t.total_claimed

-- A group carries the key that it stands at.
abbrev pub IsNamed : String × Aggregate → Type 0
IsNamed (k, a) = a.key ≡ k

add_to-IsNamed :
    (key : String) (c r : ℕ) (s : Stream) (m : Dict String Aggregate)
    → All IsNamed m
    → IsNamed (key, add_to c r s (existing key (Dict.get key m)))
add_to-IsNamed key c r s m h = elim (Option-cases (Dict.get key m)) [
  | inl new ↦ rw new refl
  | inr (a, old) ↦ rw old (Dict.get-All IsNamed key a m old h)
]

abbrev keyed_by : (Stream → String) → String → Stream → Bool
keyed_by key_of k s = key_of s == k

-- The groups over some streams, and the totals of the streams of one key.
record Grouped (key_of : Stream → String) (k : String) (ss : List Stream) (now : ℕ)
    (m : Dict String Aggregate) (t : StreamTotals) : Type 0 where
  groups : Dict String Aggregate
  totals : StreamTotals
  grouped : group_streams key_of ss now m ≡ ok groups
  totalled : add_totals (filter (keyed_by key_of k) ss) now t ≡ ok totals
  grew : Grew (figures (Dict.get k groups)) (figures (Dict.get k m)) totals t
  counted :
      (figures (Dict.get k groups)).count
      ≡ (figures (Dict.get k m)).count + length (filter (keyed_by key_of k) ss)
  keyed : Dict.IsKeyed m → Dict.IsKeyed groups
  named : All IsNamed m → All IsNamed groups

abbrev plus : ℕ → ℕ → Stream → Figures → Figures
plus c r s f = record {
  count = f.count + 1;
  deposited = f.deposited + s.deposit;
  claimable = f.claimable + c;
  claimed = f.claimed + (s.deposit - r);
}

figures-add_to :
    (key : String) (c r : ℕ) (s : Stream) (o : Option Aggregate)
    → figures (some (add_to c r s (existing key o))) ≡ plus c r s (figures o)
figures-add_to key c r s none = refl
figures-add_to key c r s (some a) = refl

group_streams-Grouped :
    (key_of : Stream → String) (k : String) (ss : List Stream) (now : ℕ) (m : Dict String Aggregate)
    (t : StreamTotals)
    → All Fits ss
    → Grouped key_of k ss now m t
unfolding group_streams add_totals filter
group_streams-Grouped key_of k [] now m t h = record {
  groups = m;
  totals = t;
  grouped = refl;
  totalled = refl;
  grew = record { streams = refl; deposited = refl; claimable = refl; claimed = refl };
  counted = omega arith;
  keyed = λ i. i;
  named = λ i. i;
}
group_streams-Grouped key_of k (s ∷ ss) now m t (fits, h) =
    let r : Readings s now = readings s now fits in
    let key = key_of s in
    let added : Aggregate = add_to r.claimable r.remaining s (existing key (Dict.get key m)) in
    let m' : Dict String Aggregate = Dict.set key added m in
    elim (Bool-cases (key_of s == k)) [
      | inl same ↦
          let t' : StreamTotals = record t {
            total_deposited = t.total_deposited + s.deposit;
            total_claimable = t.total_claimable + r.claimable;
            total_claimed = t.total_claimed + (s.deposit - r.remaining);
            total_remaining = t.total_remaining + r.remaining;
          } in
          let g : Grouped key_of k ss now m' t' = group_streams-Grouped key_of k ss now m' t' h in
          let after : figures (Dict.get k m')
              ≡ plus r.claimable r.remaining s (figures (Dict.get k m)) =
            subst
              (λ x.
                figures (Dict.get x m') ≡ plus r.claimable r.remaining s (figures (Dict.get x m)))
              ((string_eq.beq_iff key k).0 same)
              (ap figures (Dict.get-set_self key added m)
                ∙ figures-add_to key r.claimable r.remaining s (Dict.get key m)) in
          record {
            groups = g.groups;
            totals = g.totals;
            grouped = rw (r.claims, r.remains) g.grouped;
            totalled = rw (same, add_totals, r.claims, r.remains) g.totalled;
            grew = record {
              streams = g.grew.streams;
              deposited = omega (arith, g.grew.deposited, ap (λ (f : Figures). f.deposited) after);
              claimable = omega (arith, g.grew.claimable, ap (λ (f : Figures). f.claimable) after);
              claimed = omega (arith, g.grew.claimed, ap (λ (f : Figures). f.claimed) after);
            };
            counted = rw same (omega (arith, g.counted, ap (λ (f : Figures). f.count) after));
            keyed = λ i. g.keyed (Dict.set-IsKeyed key added m i);
            named = λ i. g.named (
                Dict.set-All IsNamed key added m (add_to-IsNamed key r.claimable r.remaining s m i)
                  i);
          }
      | inr other ↦
          let g : Grouped key_of k ss now m' t = group_streams-Grouped key_of k ss now m' t h in
          let before : Dict.get k m' ≡ Dict.get k m =
            Dict.get-set_ne key k added m
              (λ e. absurd (ground (arith, other, e, string_eq.beq_iff key k))) in
          record {
            groups = g.groups;
            totals = g.totals;
            grouped = rw (r.claims, r.remains) g.grouped;
            totalled = rw other g.totalled;
            grew =
                subst (λ o. Grew (figures (Dict.get k g.groups)) (figures o) g.totals t) before
                  g.grew;
            counted = rw other (
                g.counted
                ∙ ap (λ o. (figures o).count + length (filter (keyed_by key_of k) ss)) before);
            keyed = λ i. g.keyed (Dict.set-IsKeyed key added m i);
            named = λ i. g.named (
                Dict.set-All IsNamed key added m (add_to-IsNamed key r.claimable r.remaining s m i)
                  i);
          }
    ]

nothing :
    (k : String)
    → figures (Dict.get k []) ≡ record { count = 0; deposited = 0; claimable = 0; claimed = 0 }
unfolding Dict.get
nothing k = refl

-- The figures of a group are the totals of its own streams, and their number.
abbrev pub IsTotalOf : Figures → StreamTotals → Type 0
IsTotalOf f t =
    (f.count ≡ t.total_streams)
    × (f.deposited ≡ t.total_deposited)
    × (f.claimable ≡ t.total_claimable)
    × (f.claimed ≡ t.total_claimed)

-- The totals of the streams of one key, and that the group of that key shows them.
IsTotalled : (Stream → String) → List Stream → ℕ → Dict String Aggregate → String → Type 0
IsTotalled key_of streams now groups k =
    (t : StreamTotals) × (total_value_streamed (filter (λ s. key_of s == k) streams) now ≡ ok t)
    × IsTotalOf (figures (Dict.get k groups)) t

abbrev starting : (Stream → String) → List Stream → String → StreamTotals
starting key_of streams k = record {
  total_streams = length (filter (keyed_by key_of k) streams);
  total_deposited = 0;
  total_claimable = 0;
  total_claimed = 0;
  total_remaining = 0;
}

Grouped-IsTotalled :
    (key_of : Stream → String) (streams : List Stream) (now : ℕ) (k : String)
    → (g : Grouped key_of k streams now [] (starting key_of streams k))
    → IsTotalled key_of streams now g.groups k
unfolding total_value_streamed IsTotalled
Grouped-IsTotalled key_of streams now k g = (
  g.totals,
  g.totalled,
  (
    omega (arith, g.counted, g.grew.streams, ap (λ (f : Figures). f.count) (nothing k)),
    omega (arith, g.grew.deposited, ap (λ (f : Figures). f.deposited) (nothing k)),
    omega (arith, g.grew.claimable, ap (λ (f : Figures). f.claimable) (nothing k)),
    omega (arith, g.grew.claimed, ap (λ (f : Figures). f.claimed) (nothing k)),
  ),
)

-- If no deposit exceeds the i128 maximum, the aggregates by any key are returned, by falling deposits;
-- each carries the key of its group, the groups' keys are different, and for every key the figures of
-- its group are those that `totalValueStreamed` gives for the streams of that key alone.
pub aggregate_by-Totals :
    (key_of : Stream → String) (streams : List Stream) (now : ℕ)
    → All Fits streams
    → (groups : Dict String Aggregate) × (aggregate_by key_of streams now
        ≡ ok (sort_on (λ (a : Aggregate). a.deposited) true (map value_of groups)))
      × All IsNamed groups
      × Dict.IsKeyed groups
      × ((k : String)
          → (t : StreamTotals) × (total_value_streamed (filter (λ s. key_of s == k) streams) now
              ≡ ok t)
            × IsTotalOf (figures (Dict.get k groups)) t)
unfolding aggregate_by IsTotalled
aggregate_by-Totals key_of streams now h =
    let g : Grouped key_of "" streams now [] (starting key_of streams "") =
      group_streams-Grouped key_of "" streams now [] (starting key_of streams "") h in
    (
      g.groups,
      rw g.grouped refl,
      g.named tt,
      g.keyed tt,
      λ k.
          let f : Grouped key_of k streams now [] (starting key_of streams k) =
            group_streams-Grouped key_of k streams now [] (starting key_of streams k) h in
          let same : f.groups ≡ g.groups = ground (arith, f.grouped, g.grouped) in
          subst (λ m. IsTotalled key_of streams now m k) same
            (Grouped-IsTotalled key_of streams now k f),
    )
