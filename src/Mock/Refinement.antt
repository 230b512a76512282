-- ===== src/Mock/Refinement.antt =====
-- The mock's methods step by step against the state machine of state-machine.ts.
use sorostream_sdk.Base.{
  ℕ, ◌≡◌, refl, inl, inr, ◌⊎◌, String, false, Option, none, some, List, [], ◌∷◌, string_eq, ◌==◌,
  leb, Bool-cases, arith,
}
use text.Mathlib.TextEquality.{eq_iff}
use sorostream_sdk.Base.Dict
use sorostream_sdk.Base.Dict.{Dict}
use sorostream_sdk.Base.Result.{ok}
use sorostream_sdk.Stream.{Stream, active}
use sorostream_sdk.Lifecycle
use sorostream_sdk.Lifecycle.{Context, get_next_state}
use sorostream_sdk.Mock.State.{Client}
use sorostream_sdk.Mock.Flows.{withdraw_from}
use sorostream_sdk.Mock.Lifecycle.{pause_at}
use sorostream_sdk.Mock.Effects.{
  Effect, withdraw-effect, cancel_stream-Effect, transfer_stream-Effect, pause-Effect,
  top_up-Effect, lock_until-effect,
}
use sorostream_sdk.Mock.Solvency.{Command, execute}

abbrev pub target_of : Command → String
target_of (Command.withdraw id) = id
target_of (Command.cancel id) = id
target_of (Command.top_up id p) = id
target_of (Command.transfer id to) = id
target_of (Command.lock id time_ms) = id
target_of (Command.pause id) = id

-- At `now` the stream has reached its end, or not.
abbrev pub context : ℕ → Stream → Context
context now s = record { is_fully_withdrawn = false; is_expired = leb s.end_time now }

-- The status after the command is the next state of the state machine under the command's own action. A
-- lock, for which the state machine has no action, keeps the status.
abbrev pub Agrees : ℕ → Command → Stream → Stream → Type 0
Agrees now (Command.withdraw id) s t =
    get_next_state s.status Lifecycle.withdraw (context now s) ≡ ok t.status
Agrees now (Command.cancel id) s t =
    get_next_state s.status Lifecycle.cancel (context now s) ≡ ok t.status
Agrees now (Command.top_up id p) s t =
    get_next_state s.status Lifecycle.top_up (context now s) ≡ ok t.status
Agrees now (Command.transfer id to) s t =
    get_next_state s.status Lifecycle.transfer (context now s) ≡ ok t.status
Agrees now (Command.lock id time_ms) s t = t.status ≡ s.status
Agrees now (Command.pause id) s t =
    get_next_state s.status Lifecycle.pause (context now s) ≡ ok t.status

-- One slot of the map before and after a command: no stream appears or vanishes, and a stream is the
-- same in all its fields, or it is the command's own and its status agrees.
abbrev pub Obeys : ℕ → String → Command → Option Stream → Option Stream → Type 0
Obeys now id k none none = Unit
Obeys now id k none (some t) = ⊥
Obeys now id k (some s) none = ⊥
Obeys now id k (some s) (some t) = (t ≡ s) ⊎ ((target_of k ≡ id) × Agrees now k s t)

Obeys-refl : (now : ℕ) (id : String) (k : Command) (o : Option Stream) → Obeys now id k o o
Obeys-refl now id k none = tt
Obeys-refl now id k (some s) = inl refl

module _ (now : ℕ) (id : String) (k : Command) (m m' : Dict String Stream) where
  Obeys-replace :
      (s s' : Stream)
      → Dict.get (target_of k) m ≡ some s
      → Agrees now k s s'
      → Obeys now id k (Dict.get id m) (Dict.get id (Dict.set (target_of k) s' m))
  Obeys-replace s s' found agrees =
      rw (Dict.get-set (target_of k) id s' m) (elim (Bool-cases (target_of k == id)) [
        | inl same ↦
            let own : target_of k ≡ id = (eq_iff (target_of k) id).0 same in
            rw (same, ← own, found) (inr (refl, agrees))
        | inr away ↦ rw away (Obeys-refl now id k (Dict.get id m))
      ])

  Effect-Obeys :
      (f : Stream → Stream)
      → ((s : Stream) → s.status ≡ active → Agrees now k s (f s))
      → Effect (target_of k) f m m'
      → Obeys now id k (Dict.get id m) (Dict.get id m')
  Effect-Obeys f agrees (inl kept) = rw kept (Obeys-refl now id k (Dict.get id m))
  Effect-Obeys f agrees (inr (s, found, live, moved)) =
      rw moved (Obeys-replace s (f s) found (agrees s live))

withdraw-Agrees :
    (now : ℕ) (id : String) (s : Stream)
    → s.status ≡ active
    → Agrees now (Command.withdraw id) s (withdraw_from s now)
unfolding get_next_state withdraw_from
withdraw-Agrees now id s live = ground (arith, live)

execute-Obeys :
    (now : ℕ) (id : String) (k : Command) (c : Client)
    → Obeys now id k (Dict.get id c.streams) (Dict.get id (execute now k c).streams)
unfolding execute get_next_state pause_at
execute-Obeys now id (Command.withdraw target) c = elim (withdraw-effect now target c) [
  | inl (kept, nothing) ↦
      rw kept (Obeys-refl now id (Command.withdraw target) (Dict.get id c.streams))
  | inr (s, found, live, claimed, moved) ↦ rw moved (
      Obeys-replace now id (Command.withdraw target) c.streams [] s (withdraw_from s now) found
        (withdraw-Agrees now target s live))
]
execute-Obeys now id (Command.cancel target) c =
    Effect-Obeys now id (Command.cancel target) c.streams _ _ (λ s live. ground (arith, live))
      (cancel_stream-Effect now target c)
execute-Obeys now id (Command.top_up target p) c =
    Effect-Obeys now id (Command.top_up target p) c.streams _ _ (λ s live. ground (arith, live))
      (top_up-Effect now target c p)
execute-Obeys now id (Command.transfer target to) c =
    Effect-Obeys now id (Command.transfer target to) c.streams _ _ (λ s live. ground (arith, live))
      (transfer_stream-Effect now target c to)
execute-Obeys now id (Command.pause target) c =
    Effect-Obeys now id (Command.pause target) c.streams _ _ (λ s live. ground (arith, live))
      (pause-Effect now target c)
execute-Obeys now id (Command.lock target time_ms) c =
    elim (lock_until-effect now target c time_ms) [
      | inl kept ↦ rw kept (Obeys-refl now id (Command.lock target time_ms) (Dict.get id c.streams))
      | inr (s, found, moved) ↦
          rw moved (Obeys-replace now id (Command.lock target time_ms) c.streams [] s _ found refl)
    ]

-- Each command of a run leaves the slot as the state machine says.
abbrev pub IsRefined : String → List (ℕ × Command) → Client → Type 0
IsRefined id [] c = Unit
IsRefined id ((now, k) ∷ ks) c =
    Obeys now id k (Dict.get id c.streams) (Dict.get id (execute now k c).streams)
    × IsRefined id ks (execute now k c)

-- At each command of any run of the mock's withdrawals, cancellations, top-ups, transfers, locks and
-- pauses, no stream appears or vanishes, and each stream is left as it is, or it is the command's own
-- and its status becomes the next state of the SDK's state machine under the action of the
-- command, where a withdrawal at the end time or later counts as one of an expired stream. A lock
-- keeps the status.
pub run-IsRefined : (ks : List (ℕ × Command)) (id : String) (c : Client) → IsRefined id ks c
run-IsRefined [] id c = tt
run-IsRefined ((now, k) ∷ ks) id c =
    (execute-Obeys now id k c, run-IsRefined ks id (execute now k c))
