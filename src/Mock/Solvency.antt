-- ===== src/Mock/Solvency.antt =====
-- Runs of the mock's methods, and what one stream pays out over a run.
use sorostream_sdk.Base.{
  ℕ, ◌+◌, ◌-◌, ◌≤◌, ◌≡◌, refl, sym, subst, inl, inr, String, false, Option, none, some, string_eq,
  ◌==◌, if◌then◌else◌, arith, Bool-cases, List, [], ◌∷◌,
}
use native.Mathlib.Nat.{add-zero, zero-add, add_assoc}
use text.Mathlib.TextEquality.{eq_iff}
use sorostream_sdk.Base.Dict
use sorostream_sdk.Base.Dict.{Dict}
use sorostream_sdk.Base.Int.{ℤ}
use sorostream_sdk.Base.Result.{Result}
use sorostream_sdk.Stream.{Stream}
use sorostream_sdk.Stream.Claims.{mul_span_mono}
use sorostream_sdk.Mock.State.{Client, Error}
use sorostream_sdk.Mock.Create.{lock_until}
use sorostream_sdk.Mock.Flows.{withdraw_from, WithdrawResult, withdrawn, cancel_stream}
use sorostream_sdk.Mock.Flows
use sorostream_sdk.Mock.Lifecycle
use sorostream_sdk.Mock.Effects.{
  Effect, value_of, paid_to, payout, withdraw-effect, cancel_stream-Effect, transfer_stream-Effect,
  pause-Effect, top_up-Effect, lock_until-effect,
}
use sorostream_sdk.Mock.Lifecycle.{transfer_stream, pause_at}
use sorostream_sdk.Mock.Backing.{
  IsBacked, Backed, withdraw_from-IsBacked, extend-IsBacked, IsBacked-later,
}

pub data Command : Type 0 where
  withdraw : String → Command
  cancel : String → Command
  top_up : String → ℤ → Command
  transfer : String → String → Command
  lock : String → ℕ → Command
  pause : String → Command

unfoldable pub execute : ℕ → Command → Client → Client
execute now (withdraw id) c = (Flows.withdraw now false id c).0
execute now (cancel id) c = (cancel_stream now false id c).0
execute now (top_up id p) c = (Flows.top_up now false id p c).0
execute now (transfer id to) c = (transfer_stream now id to c).0
execute now (lock id time_ms) c = (lock_until now id time_ms c).0
execute now (pause id) c = (Lifecycle.pause now id c).0

-- What the command pays out of the stream `id`.
unfoldable pub paid_by : ℕ → Command → String → Client → ℕ
paid_by now (withdraw target) id c = paid_to id target (Flows.withdraw now false target c).1
paid_by now _ id c = 0

-- Commands with the seconds at which they run.
unfoldable pub run : List (ℕ × Command) → Client → Client
run [] c = c
run ((now, k) ∷ ks) c = run ks (execute now k c)

unfoldable pub total_paid : String → List (ℕ × Command) → Client → ℕ
total_paid id [] c = 0
total_paid id ((now, k) ∷ ks) c = paid_by now k id c + total_paid id ks (execute now k c)

-- The clock does not run backwards.
abbrev pub IsChronological : ℕ → List (ℕ × Command) → Type 0
IsChronological clock [] = Unit
IsChronological clock ((now, k) ∷ ks) = (clock ≤ now) × IsChronological now ks

IsBacked-found :
    (now paid : ℕ) (id target : String) (m : Dict String Stream) (s : Stream)
    → target ≡ id
    → Dict.get target m ≡ some s
    → Backed now paid (Dict.get id m)
    → IsBacked now paid s
IsBacked-found now paid id target m s e found backed =
    rw found at (subst (λ k. Backed now paid (Dict.get k m)) (sym e) backed)

module _ (now paid : ℕ) (id target : String) (m m' : Dict String Stream)
    (backed : Backed now paid (Dict.get id m)) where
  -- To replace the stream at `target`, which pays `a`, keeps the backing of `id` if it keeps that of
  -- the stream which it replaces.
  Backed-set :
      (a : ℕ) (s s' : Stream)
      → Dict.get target m ≡ some s
      → (IsBacked now paid s → IsBacked now (paid + a) s')
      → Backed now (paid + (if target == id then a else 0)) (Dict.get id (Dict.set target s' m))
  Backed-set a s s' found keeps =
      rw (Dict.get-set target id s' m) (elim (Bool-cases (target == id)) [
        | inl here ↦
            rw here (
              keeps
                (IsBacked-found now paid id target m s ((eq_iff target id).0 here) found backed))
        | inr away ↦ rw (away, add-zero) backed
      ])

  Backed-replace :
      (s s' : Stream)
      → Dict.get target m ≡ some s
      → (IsBacked now paid s → IsBacked now paid s')
      → Backed now paid (Dict.get id (Dict.set target s' m))
  Backed-replace s s' found keeps =
      rw (Dict.get-set target id s' m) (elim (Bool-cases (target == id)) [
        | inl here ↦
            rw here (
              keeps
                (IsBacked-found now paid id target m s ((eq_iff target id).0 here) found backed))
        | inr away ↦ rw away backed
      ])

  Effect-Backed :
      (f : Stream → Stream)
      → ((s : Stream) → IsBacked now paid s → IsBacked now paid (f s))
      → Effect target f m m'
      → Backed now paid (Dict.get id m')
  Effect-Backed f keeps (inl same) = rw same backed
  Effect-Backed f keeps (inr (s, found, act, moved)) =
      rw moved (Backed-replace s (f s) found (keeps s))

paid_to-eq-zero :
    (id target : String) (r : Result Error WithdrawResult) → payout r ≡ 0 → paid_to id target r ≡ 0
paid_to-eq-zero id target r h = elim (Bool-cases (target == id)) [
  | inl here ↦ rw here h
  | inr away ↦ rw away
]

pause_at-IsBacked :
    (now paid : ℕ) (s : Stream) → IsBacked now paid s → IsBacked now paid (pause_at s now)
unfolding pause_at
pause_at-IsBacked now paid s b = assumption

Backed-later :
    (clock now paid : ℕ) (o : Option Stream) → clock ≤ now → Backed clock paid o → Backed now paid o
Backed-later clock now paid (some s) t h = IsBacked-later clock now paid s t h
Backed-later clock now paid none t h = h

-- No command takes the backing of the stream `id` away, and what it pays is counted.
execute-Backed :
    (now paid : ℕ) (id : String) (k : Command) (c : Client)
    → Backed now paid (Dict.get id c.streams)
    → Backed now (paid + paid_by now k id c) (Dict.get id (execute now k c).streams)
unfolding execute paid_by
execute-Backed now paid id (withdraw target) c h = elim (withdraw-effect now target c) [
  | inl (kept, nothing) ↦ rw (kept, paid_to-eq-zero id target _ nothing, add-zero) h
  | inr (s, found, act, claimed, moved) ↦ rw moved (
      Backed-set now paid id target c.streams [] h _ s (withdraw_from s now) found
        (λ b. withdraw_from-IsBacked now paid _ s b act claimed))
]
execute-Backed now paid id (cancel target) c h = rw add-zero (
    Effect-Backed now paid id target c.streams _ h _ (λ s b. assumption)
      (cancel_stream-Effect now target c))
execute-Backed now paid id (top_up target p) c h = rw add-zero (
    Effect-Backed now paid id target c.streams _ h _ (extend-IsBacked now paid (value_of p))
      (top_up-Effect now target c p))
execute-Backed now paid id (transfer target to) c h = rw add-zero (
    Effect-Backed now paid id target c.streams _ h _ (λ s b. assumption)
      (transfer_stream-Effect now target c to))
execute-Backed now paid id (pause target) c h = rw add-zero (
    Effect-Backed now paid id target c.streams _ h _ (λ s b. pause_at-IsBacked now paid s b)
      (pause-Effect now target c))
execute-Backed now paid id (lock target time_ms) c h =
    elim (lock_until-effect now target c time_ms) [
      | inl kept ↦ rw (kept, add-zero) h
      | inr (s, found, moved) ↦
          rw (moved, add-zero)
            (Backed-replace now paid id target c.streams [] h s _ found (λ b. assumption))
    ]

-- Over any run of withdrawals, cancellations, top-ups, transfers, locks and pauses in chronological
-- order a backed stream stays backed, with all that
-- the run has paid out of it added to what it had paid.
pub run-Backed :
    (ks : List (ℕ × Command)) (clock paid : ℕ) (id : String) (c : Client)
    → IsChronological clock ks
    → Backed clock paid (Dict.get id c.streams)
    → (now : ℕ) × Backed now (paid + total_paid id ks c) (Dict.get id (run ks c).streams)
unfolding run total_paid
run-Backed [] clock paid id c t h = (clock, rw add-zero h)
run-Backed ((now, k) ∷ ks) clock paid id c (t, ts) h = rw (← add_assoc) (
    run-Backed ks now (paid + paid_by now k id c) id (execute now k c) ts
      (execute-Backed now paid id k c (Backed-later clock now paid _ t h)))

-- A backed stream has paid at most its deposit.
IsBacked-le : (now paid : ℕ) (s : Stream) → IsBacked now paid s → paid ≤ s.deposit
IsBacked-le now paid s h = grind (
  arith,
  mul_span_mono s.flow_rate (s.last_withdraw_time - s.start_time) (s.end_time - s.start_time),
)

Backed-le :
    (now paid : ℕ) (o : Option Stream)
    → Backed now paid o
    → (s : Stream) × (o ≡ some s) × (paid ≤ s.deposit)
Backed-le now paid (some s) h = (s, refl, IsBacked-le now paid s h)
Backed-le now paid none h = absurd h

-- A backed stream that has paid nothing yet pays at most its deposit, top-ups included, over any
-- run of withdrawals, cancellations, top-ups, transfers, locks and pauses, of it and of other
-- streams, in chronological order.
pub run-solvent :
    (ks : List (ℕ × Command)) (clock : ℕ) (id : String) (c : Client)
    → IsChronological clock ks
    → Backed clock 0 (Dict.get id c.streams)
    → (s : Stream) × (Dict.get id (run ks c).streams ≡ some s) × (total_paid id ks c ≤ s.deposit)
run-solvent ks clock id c t h =
    let (now, b) = run-Backed ks clock 0 id c t h in Backed-le now _ _ (rw zero-add at b)
