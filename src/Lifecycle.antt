-- ===== src/Lifecycle.antt =====
-- state-machine.ts: the finite state machine of a stream's life.
pub mod Reach
mod Tests
use sorostream_sdk.Base.{Bool, true, false, List, [], ◌∷◌, ◌||◌, if◌then◌else◌, filter}
use sorostream_sdk.Base.Result.{Result, ok, err}
use sorostream_sdk.Stream.{StreamStatus, active, cancelled, completed, paused}

pub data StreamAction : Type 0 where
  withdraw cancel top_up update_flow_rate pause resume transfer split : StreamAction

-- `InvalidStateTransitionError`, with its two fields.
pub data TransitionError : Type 0 where
  invalid_transition : StreamStatus → StreamAction → TransitionError

-- `TRANSITION_RULES`; `getValidActions` is the row as an array.
unfoldable pub get_valid_actions : StreamStatus → List StreamAction
get_valid_actions active =
    withdraw ∷ cancel ∷ top_up ∷ update_flow_rate ∷ pause ∷ transfer ∷ split ∷ []
get_valid_actions paused = resume ∷ cancel ∷ withdraw ∷ []
get_valid_actions cancelled = []
get_valid_actions completed = []

abbrev pub index : StreamAction → Prim.Native.Nat.ℕ
index withdraw = 0
index cancel = 1
index top_up = 2
index update_flow_rate = 3
index pause = 4
index resume = 5
index transfer = 6
index split = 7

abbrev pub same : StreamAction → StreamAction → Bool
same a b = sorostream_sdk.Base.nat_beq (index a) (index b)

-- `Set.has`
unfoldable pub allows : List StreamAction → StreamAction → Bool
allows [] a = false
allows (b ∷ bs) a = same b a || allows bs a

unfoldable pub can_transition : StreamStatus → StreamAction → Bool
unfolding get_valid_actions allows
can_transition state action = allows (get_valid_actions state) action

-- The `context` of `getNextState`; an absent flag is false.
pub record Context : Type 0 where
  pub is_fully_withdrawn : Bool
  pub is_expired : Bool

-- The `switch` of `getNextState`.
unfoldable pub target : StreamStatus → StreamAction → Context → StreamStatus
target state cancel x = cancelled
target state pause x = paused
target state resume x = active
target state withdraw x = if x.is_fully_withdrawn || x.is_expired then completed else state
target state top_up x = active
target state update_flow_rate x = active
target state transfer x = active
target state split x = active

unfoldable pub get_next_state :
    StreamStatus → StreamAction → Context → Result TransitionError StreamStatus
unfolding can_transition target
get_next_state state action x =
    if can_transition state action
    then ok (target state action x)
    else err (invalid_transition state action)

unfoldable pub assert_valid_transition :
    StreamStatus → StreamAction → Result TransitionError (Unit {0})
unfolding can_transition
assert_valid_transition state action =
    if can_transition state action then ok tt else err (invalid_transition state action)
