-- ===== src/ConnectionPool/Waiting.antt =====
-- Which waiter is next, and the list of waiters without it.
use sorostream_sdk.Base.{
  ℕ, ◌+◌, ◌≤◌, ◌<◌, ◌≡◌, ◌⊎◌, refl, ap, inl, inr, String, none, some, List, [], ◌∷◌, ◌++◌, nat_eq,
  ◌==◌, if◌then◌else◌, if_elim, length, suc, sum_of, All, All-append, Bool-cases, arith,
}
use sorostream_sdk.ConnectionPool.{Waiter, better, best_waiter, remove_waiter, next_waiter}

-- `a` is granted before `b`, or is it: its rank is lower, or equal and it has waited at least as long.
abbrev pub Outranks : Waiter → Waiter → Type 0
Outranks a b = (a.rank < b.rank) ⊎ ((a.rank ≡ b.rank) × (a.seq ≤ b.seq))

abbrev pub InLine : Waiter → List Waiter → Type 0
InLine w [] = ⊥
InLine w (v ∷ vs) = (w ≡ v) ⊎ InLine w vs

record IsBest (ws : List Waiter) (start best : Waiter) : Type 0 where
  first : Outranks best start
  others : All (Outranks best) ws
  place : (best ≡ start) ⊎ InLine best ws

best_waiter-IsBest : (ws : List Waiter) (start : Waiter) → IsBest ws start (best_waiter ws start)
unfolding best_waiter
best_waiter-IsBest [] start = record {
  first = inr (refl, omega arith);
  others = tt;
  place = inl refl;
}
best_waiter-IsBest (w ∷ ws) start = elim (Bool-cases (better w start)) [
  | inl wins ↦
      let b : IsBest ws w (best_waiter ws w) = best_waiter-IsBest ws w in
      rw wins (record {
        first = ground (arith, wins, b.first);
        others = (b.first, b.others);
        place = inr b.place;
      })
  | inr stays ↦
      let b : IsBest ws start (best_waiter ws start) = best_waiter-IsBest ws start in
      rw stays (record {
        first = b.first;
        others = (ground (arith, stays, b.first), b.others);
        place = after b.place;
      })
]
  where
    after :
        {best : Waiter}
        → (best ≡ start) ⊎ InLine best ws
        → (best ≡ start) ⊎ ((best ≡ w) ⊎ InLine best ws)
    after (inl e) = inl e
    after (inr h) = inr (inr h)

-- The waiter that is granted next outranks all others, and is the one that waits no more; there is one
-- as long as any waits.
pub next_waiter-Outranks :
    (ws : List Waiter)
    → ((next_waiter ws ≡ none) × (ws ≡ []))
      ⊎ ((best : Waiter) × (next_waiter ws ≡ some (best, remove_waiter best.seq ws))
          × All (Outranks best) ws
          × InLine best ws)
unfolding next_waiter
next_waiter-Outranks [] = inl (refl, refl)
next_waiter-Outranks (w ∷ ws) =
    let b : IsBest ws w (best_waiter ws w) = best_waiter-IsBest ws w in
    inr (best_waiter ws w, refl, (b.first, b.others), b.place)

-- The waiters stand in the order of their numbers, which are below `next`.
abbrev pub Numbered : ℕ → List Waiter → Type 0
Numbered next [] = Unit
Numbered next (v ∷ vs) = (v.seq < next) × (All (λ u. v.seq < u.seq) vs × Numbered next vs)

later-InLine :
    (n : ℕ) (w : Waiter) (vs : List Waiter) → All (λ u. n < u.seq) vs → InLine w vs → n < w.seq
later-InLine n w [] h i = absurd i
later-InLine n w (v ∷ vs) (p, h) (inl e) = omega (arith, p, ap (λ (x : Waiter). x.seq) e)
later-InLine n w (v ∷ vs) (p, h) (inr i) = later-InLine n w vs h i

-- The one that is removed is the one with the number.
pub sum_of-remove_waiter :
    (f : Waiter → ℕ) (next : ℕ) (w : Waiter) (ws : List Waiter)
    → Numbered next ws
    → InLine w ws
    → sum_of f (remove_waiter w.seq ws) + f w ≡ sum_of f ws
unfolding remove_waiter
sum_of-remove_waiter f next w [] h i = absurd i
sum_of-remove_waiter f next w (v ∷ vs) (p, (q, h)) i = elim (Bool-cases (v.seq == w.seq)) [
  | inl same ↦ elim i [
    | inl e ↦ rw same (omega (arith, ap f e))
    | inr j ↦ absurd (ground (arith, same, later-InLine v.seq w vs q j))
  ]
  | inr other ↦ elim i [
    | inl e ↦ absurd (ground (arith, other, ap (λ (x : Waiter). x.seq) e))
    | inr j ↦ rw other (omega (arith, sum_of-remove_waiter f next w vs h j))
  ]
]

remove_waiter-All :
    (P : Waiter → Type 0) (seq : ℕ) (ws : List Waiter) → All P ws → All P (remove_waiter seq ws)
unfolding remove_waiter
remove_waiter-All P seq [] h = tt
remove_waiter-All P seq (v ∷ vs) (p, h) =
    if_elim (All P) (v.seq == seq) (λ found. h) (λ other. (p, remove_waiter-All P seq vs h))

pub remove_waiter-Numbered :
    (next seq : ℕ) (ws : List Waiter) → Numbered next ws → Numbered next (remove_waiter seq ws)
unfolding remove_waiter
remove_waiter-Numbered next seq [] h = tt
remove_waiter-Numbered next seq (v ∷ vs) (p, (q, h)) =
    if_elim (Numbered next) (v.seq == seq) (λ found. h)
      (λ other. (
        p,
        (remove_waiter-All (λ u. v.seq < u.seq) seq vs q, remove_waiter-Numbered next seq vs h),
      ))

pub append-Numbered :
    (next : ℕ) (w : Waiter) (ws : List Waiter)
    → w.seq ≡ next
    → Numbered next ws
    → Numbered (next + 1) (ws ++ w ∷ [])
append-Numbered next w [] e h = (omega (arith, e), (tt, tt))
append-Numbered next w (v ∷ vs) e (p, (q, h)) = (
  omega (arith, p),
  (
    All-append (λ u. v.seq < u.seq) vs (w ∷ []) q (omega (arith, p, e), tt),
    append-Numbered next w vs e h,
  ),
)

-- The caller that waits with that number.
abbrev pub waits : ℕ → List Waiter → List String
waits seq [] = []
waits seq (w ∷ ws) = if w.seq == seq then w.caller ∷ [] else waits seq ws

pub remove_waiter-waits :
    (f : String → ℕ) (seq : ℕ) (ws : List Waiter)
    → sum_of (λ (v : Waiter). f v.caller) (remove_waiter seq ws) + sum_of f (waits seq ws)
      ≡ sum_of (λ (v : Waiter). f v.caller) ws
unfolding remove_waiter
remove_waiter-waits f seq [] = refl
remove_waiter-waits f seq (w ∷ ws) = elim (Bool-cases (w.seq == seq)) [
  | inl found ↦ rw found (omega arith)
  | inr other ↦ rw other (omega (arith, remove_waiter-waits f seq ws))
]

pub length-remove_waiter : (seq : ℕ) (ws : List Waiter) → length (remove_waiter seq ws) ≤ length ws
unfolding remove_waiter
length-remove_waiter seq [] = omega arith
length-remove_waiter seq (w ∷ ws) =
    if_elim (λ l. length l ≤ suc (length ws)) (w.seq == seq) {x = ws} {y = w ∷ remove_waiter seq ws}
      (λ found. omega arith) (λ other. omega (arith, length-remove_waiter seq ws))
