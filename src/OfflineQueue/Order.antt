-- ===== src/OfflineQueue/Order.antt =====
-- The order in which operations are kept.
use sorostream_sdk.Base.{
  suc, ◌<◌, ◌≡◌, ◌≢◌, ◌⊎◌, inl, inr, refl, List, [], ◌∷◌, nat_eq, length, All, Bool-cases, arith,
}
use sorostream_sdk.OfflineQueue.{QueuedOperation, before, insert_sorted}

-- `a` is replayed before `b`: its priority is higher, or equal and it was queued earlier.
abbrev pub Precedes : QueuedOperation → QueuedOperation → Type 0
Precedes a b = (b.priority < a.priority) ⊎ ((a.priority ≡ b.priority) × (a.sequence < b.sequence))

abbrev pub IsOrdered : List QueuedOperation → Type 0
IsOrdered [] = Unit
IsOrdered (a ∷ ops) = All (Precedes a) ops × IsOrdered ops

abbrev pub Apart : QueuedOperation → List QueuedOperation → Type 0
Apart a ops = All (λ b. b.sequence ≢ a.sequence) ops

Precedes-trans : (a b c : QueuedOperation) → Precedes a b → Precedes b c → Precedes a c
Precedes-trans a b c h k = ground arith

All-Precedes :
    (a b : QueuedOperation) (ops : List QueuedOperation)
    → Precedes a b
    → All (Precedes b) ops
    → All (Precedes a) ops
All-Precedes a b [] h k = tt
All-Precedes a b (c ∷ ops) h (p, k) = (Precedes-trans a b c h p, All-Precedes a b ops h k)

-- What holds of the new operation and of all others holds of all.
module _ (P : QueuedOperation → Type 0) where
  pub insert_sorted-All :
      (new : QueuedOperation) (ops : List QueuedOperation)
      → P new
      → All P ops
      → All P (insert_sorted new ops)
  unfolding insert_sorted
  insert_sorted-All new [] p h = (p, tt)
  insert_sorted-All new (op ∷ ops) p (q, h) = elim (Bool-cases (before new op)) [
    | inl first ↦ rw first (p, (q, h))
    | inr later ↦ rw later (q, insert_sorted-All new ops p h)
  ]

pub insert_sorted-IsOrdered :
    (new : QueuedOperation) (ops : List QueuedOperation)
    → Apart new ops
    → IsOrdered ops
    → IsOrdered (insert_sorted new ops)
unfolding insert_sorted
insert_sorted-IsOrdered new [] a h = (tt, tt)
insert_sorted-IsOrdered new (op ∷ ops) (a, aparts) (h, hs) = elim (Bool-cases (before new op)) [
  | inl first ↦
      let p : Precedes new op = ground (arith, first) in
      rw first ((p, All-Precedes new op ops p h), (h, hs))
  | inr later ↦
      let p : Precedes op new = ground (arith, later) in
      rw later
        (insert_sorted-All (Precedes op) new ops p h, insert_sorted-IsOrdered new ops aparts hs)
]

pub length-insert_sorted :
    (new : QueuedOperation) (ops : List QueuedOperation)
    → length (insert_sorted new ops) ≡ suc (length ops)
unfolding insert_sorted
length-insert_sorted new [] = refl
length-insert_sorted new (op ∷ ops) = ground (arith, length-insert_sorted new ops)
