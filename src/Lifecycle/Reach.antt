-- ===== src/Lifecycle/Reach.antt =====
-- Which states a stream can come to, by any sequence of actions.
use sorostream_sdk.Base.{true, false, ◌≡◌, ◌≢◌, ◌⊎◌, ◌↔◌, refl, sym, subst, List, [], ◌∷◌, arith}
use sorostream_sdk.Base.Result.{ok}
use sorostream_sdk.Stream.{StreamStatus, active, cancelled, completed, paused}
use sorostream_sdk.Lifecycle.{
  StreamAction, Context, assert_valid_transition, can_transition, get_next_state, get_valid_actions,
  allows, target, cancel, pause, resume, same,
}

-- An action that `getNextState` accepts.
pub data Step : StreamStatus → StreamStatus → Type 0 where
  act :
      {s t : StreamStatus} (a : StreamAction) (x : Context) → get_next_state s a x ≡ ok t → Step s t

pub data Reach (s : StreamStatus) : StreamStatus → Type 0 where
  here : Reach s s
  next : {t u : StreamStatus} → Reach s t → Step t u → Reach s u

abbrev pub IsTerminal : StreamStatus → Type 0
IsTerminal s = (s ≡ cancelled) ⊎ (s ≡ completed)

-- A terminal state refuses every action.
pub terminal_refuses :
    (s : StreamStatus) (a : StreamAction) → IsTerminal s → can_transition s a ≡ false
unfolding can_transition
terminal_refuses s a h = ground arith

-- Every state that is not terminal accepts `cancel`, which is final.
pub cancel_always :
    (s : StreamStatus) (x : Context) → ¬ IsTerminal s → get_next_state s cancel x ≡ ok cancelled
unfolding get_next_state
cancel_always s x h = ground arith

Step-from_IsTerminal : {s t : StreamStatus} → Step s t → ¬ IsTerminal s
unfolding get_next_state
Step-from_IsTerminal (act a x e) h = ground arith

-- From a terminal state nothing else is reached.
pub Reach-terminal : {s t : StreamStatus} → IsTerminal s → Reach s t → t ≡ s
Reach-terminal h here = refl
Reach-terminal h (next r st) =
    absurd (Step-from_IsTerminal st (subst IsTerminal (sym (Reach-terminal h r)) h))

-- A paused stream becomes active by `resume` alone, and a stream is paused by `pause` alone.
pub get_next_state-pause :
    (s : StreamStatus) (a : StreamAction) (x : Context)
    → ((get_next_state s a x ≡ ok paused) × (s ≢ paused) → a ≡ pause)
      × (get_next_state paused a x ≡ ok active → a ≡ resume)
unfolding get_next_state
get_next_state-pause s a x = ground arith

same-eq : (a b : StreamAction) → same a b ≡ true → a ≡ b
same-eq a b h = ground arith

same_refl : (a : StreamAction) → same a a ≡ true
same_refl a = ground arith

abbrev pub Among : StreamAction → List StreamAction → Type 0
Among a [] = ⊥
Among a (b ∷ bs) = (b ≡ a) ⊎ Among a bs

allows_iff : (bs : List StreamAction) (a : StreamAction) → (allows bs a ≡ true) ↔ Among a bs
unfolding allows
allows_iff [] a = ground arith
allows_iff (b ∷ bs) a = ground (arith, allows_iff bs a, same-eq b a, same_refl a)

-- `getValidActions` lists exactly the actions for which `getNextState` does not throw, which are
-- those that `assertValidTransition` lets pass.
pub get_valid_actions_iff :
    (s : StreamStatus) (a : StreamAction) (x : Context)
    → (((t : StreamStatus) × (get_next_state s a x ≡ ok t)) ↔ Among a (get_valid_actions s))
      × ((assert_valid_transition s a ≡ ok tt) ↔ Among a (get_valid_actions s))
unfolding get_next_state assert_valid_transition
get_valid_actions_iff s a x = (
  (
    λ p. (allows_iff (get_valid_actions s) a).0 (ground arith),
    λ m. (target s a x, ground (arith, allows_iff (get_valid_actions s) a)),
  ),
  (
    λ p. ground (arith, allows_iff (get_valid_actions s) a),
    λ m. ground (arith, allows_iff (get_valid_actions s) a),
  ),
)
