-- ===== src/ConnectionPool/Slots.antt =====
-- Which slot a subscription gets.
use sorostream_sdk.Base.{
  ℕ, zero, suc, ◌+◌, ◌≤◌, ◌<◌, ◌≡◌, ◌⊎◌, refl, subst, inl, inr, none, some, List, [], ◌∷◌, ltb, leb,
  length, sum_of, All, All-weaken, Bool-cases, arith,
}
use sorostream_sdk.ConnectionPool.{
  PoolSlot, ConnectionPool, least_from, least_loaded_slot, change_at, subscribe, load_at,
  acquire_poller,
}

abbrev pub load_of : PoolSlot → ℕ
load_of slot = slot.subscriptions

-- The slot at a place has the least load, and is there.
pub record IsLeast (place : ℕ) (slots : List PoolSlot) : Type 0 where
  pub there : place < length slots
  pub least : All (λ slot. load_at place slots ≤ load_of slot) slots

-- The slots are those of `all` from a place on.
abbrev AreAt : List PoolSlot → ℕ → List PoolSlot → Type 0
AreAt all i slots =
    (j : ℕ) → j < length slots → (load_at (i + j) all ≡ load_at j slots) × (i + j < length all)

record Found (all slots : List PoolSlot) (load r : ℕ) : Type 0 where
  there : r < length all
  below : load_at r all ≤ load
  least : All (λ slot. load_at r all ≤ load_of slot) slots

least_from-Found :
    (all slots : List PoolSlot) (best load i : ℕ)
    → AreAt all i slots
    → best < length all
    → load_at best all ≡ load
    → Found all slots load (least_from slots best load i)
unfolding least_from
least_from-Found all [] best load i at there e = record {
  there = there;
  below = omega arith;
  least = tt;
}
least_from-Found all (slot ∷ slots) best load i at there e =
    let rest : AreAt all (i + 1) slots = λ j h.
      let here = at (suc j) (omega arith) in
      subst (λ n. (load_at n all ≡ load_at j slots) × (n < length all)) (omega arith) here in
    let first : (load_at i all ≡ slot.subscriptions) × (i < length all) =
      subst (λ n. (load_at n all ≡ slot.subscriptions) × (n < length all)) (omega arith)
        (at 0 (omega arith)) in
    elim (Bool-cases (ltb slot.subscriptions load)) [
      | inl lower ↦
          let f : Found all slots slot.subscriptions _ =
            least_from-Found all slots i slot.subscriptions (i + 1) rest first.1 first.0 in
          rw lower (record {
            there = f.there;
            below = ground (arith, f.below, lower);
            least = (f.below, f.least);
          })
      | inr higher ↦
          let f : Found all slots load _ =
            least_from-Found all slots best load (i + 1) rest there e in
          rw higher (record {
            there = f.there;
            below = f.below;
            least = (ground (arith, f.below, higher), f.least);
          })
    ]

pub least_loaded_slot-IsLeast :
    (slots : List PoolSlot) → 1 ≤ length slots → IsLeast (least_loaded_slot slots) slots
unfolding least_loaded_slot
least_loaded_slot-IsLeast [] h = absurd (omega arith)
least_loaded_slot-IsLeast (slot ∷ slots) h =
    let at : AreAt (slot ∷ slots) 1 slots = λ j k.
      subst (λ n. (load_at n (slot ∷ slots) ≡ load_at j slots) × (n < suc (length slots)))
        {x = suc j} (omega arith) (refl, omega arith) in
    let f : Found (slot ∷ slots) slots slot.subscriptions _ =
      least_from-Found (slot ∷ slots) slots 0 slot.subscriptions 1 at (omega arith) refl in
    record { there = f.there; least = (f.below, f.least) }

pub sum_of-subscribe :
    (i now : ℕ) (slots : List PoolSlot)
    → i < length slots
    → sum_of load_of (change_at i (subscribe now) slots) ≡ sum_of load_of slots + 1
unfolding change_at
sum_of-subscribe i now [] h = absurd (omega arith)
sum_of-subscribe zero now (slot ∷ slots) h = omega arith
sum_of-subscribe (suc i) now (slot ∷ slots) h =
    omega (arith, sum_of-subscribe i now slots (omega arith))

-- A poller that was given out.
pub record Given (p p' : ConnectionPool) (place : ℕ) : Type 0 where
  pub least : IsLeast place p.slots
  pub free : load_at place p.slots < p.max_subs
  pub counted : sum_of load_of p'.slots ≡ sum_of load_of p.slots + 1

-- A pool with slots gives out a poller of a least loaded slot, whose load was below the limit and is
-- one higher now, or throws, and then every slot is at the limit and none has changed.
pub acquire_poller-Given :
    (now : ℕ) (p : ConnectionPool)
    → 1 ≤ length p.slots
    → ((place : ℕ) × ((acquire_poller now p).1 ≡ some place)
        × Given p (acquire_poller now p).0 place)
      ⊎ (((acquire_poller now p).1 ≡ none)
          × All (λ slot. p.max_subs ≤ load_of slot) p.slots
          × ((acquire_poller now p).0.slots ≡ p.slots))
unfolding acquire_poller
acquire_poller-Given now p h =
    let best = least_loaded_slot p.slots in
    let l : IsLeast best p.slots = least_loaded_slot-IsLeast p.slots h in
    elim (Bool-cases (leb p.max_subs (load_at best p.slots))) [
      | inl full ↦
          rw full
            (inr (refl, All-weaken _ _ (λ slot k. ground (arith, full, k)) p.slots l.least, refl))
      | inr room ↦ rw room (
          inl (
            best,
            refl,
            record {
              least = l;
              free = ground (arith, room);
              counted = sum_of-subscribe best now p.slots l.there;
            },
          ))
    ]
