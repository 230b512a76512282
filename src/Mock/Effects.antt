-- ===== src/Mock/Effects.antt =====
-- What each method of the mock does to the map of streams: nothing, or it replaces one active
-- stream.
use sorostream_sdk.Base.{
  ℕ, zero, suc, ◌+◌, ◌/◌, ◌≡◌, ◌≢◌, refl, ◌⊎◌, inl, inr, String, false, none, some, string_eq, ◌==◌,
  if◌then◌else◌, arith, Bool-cases, Option-cases,
}
use sorostream_sdk.Base.Dict
use sorostream_sdk.Base.Dict.{Dict}
use sorostream_sdk.Base.Int.{ℤ, pos, negsuc}
use sorostream_sdk.Base.Result.{Result, ok, err}
use sorostream_sdk.Stream.{
  Stream, StreamStatus, active, cancelled, paused, completed, ClaimError, overflow,
}
use sorostream_sdk.Mock.State.{Client, Error, stream_not_found, not_active, claim_overflow}
use sorostream_sdk.Mock.Claimable.{claimable_at}
use sorostream_sdk.Mock.Create.{lock_until, reaches}
use sorostream_sdk.Mock.Flows.{
  withdraw, withdraw_from, WithdrawResult, withdrawn, cancel_stream, top_up,
}
use sorostream_sdk.Mock.Lifecycle.{transfer_stream, pause, pause_at}

-- What a call of `withdraw` has paid out.
abbrev pub payout : Result Error WithdrawResult → ℕ
payout (ok (withdrawn hash amount)) = amount
payout _ = 0

abbrev pub paid_to : String → String → Result Error WithdrawResult → ℕ
paid_to id target r = if target == id then payout r else 0

module _ (now : ℕ) (target : String) (c : Client) where
  pub withdraw_missing :
      Dict.get target c.streams ≡ none
      → withdraw now false target c ≡ (c, err (stream_not_found target))
  unfolding withdraw
  withdraw_missing h = ground arith

  pub withdraw_inactive :
      (s : Stream)
      → Dict.get target c.streams ≡ some s
      → s.status ≢ active
      → withdraw now false target c ≡ (c, err not_active)
  unfolding withdraw
  withdraw_inactive s h k = ground arith

  withdraw_overflow :
      (s : Stream)
      → Dict.get target c.streams ≡ some s
      → s.status ≡ active
      → claimable_at s now ≡ err overflow
      → withdraw now false target c ≡ (c, err claim_overflow)
  unfolding withdraw claimable_at
  withdraw_overflow s h k e = ground arith

  pub withdraw_found :
      (s : Stream) (a : ℕ)
      → Dict.get target c.streams ≡ some s
      → s.status ≡ active
      → claimable_at s now ≡ ok a
      → ((withdraw now false target c).0.streams ≡ Dict.set target (withdraw_from s now) c.streams)
        × (payout (withdraw now false target c).1 ≡ a)
  unfolding withdraw claimable_at
  withdraw_found s a h k e = ground arith

-- A method left the map alone, or it replaced the active stream `s` at `target` by `f s`.
abbrev pub Effect : String → (Stream → Stream) → Dict String Stream → Dict String Stream → Type 0
Effect target f m m' =
    (m' ≡ m)
    ⊎ ((s : Stream) × (Dict.get target m ≡ some s)
        × (s.status ≡ active)
        × (m' ≡ Dict.set target (f s) m))

-- The same, of a method that has found the stream.
abbrev pub Moves : String → Stream → Stream → Dict String Stream → Dict String Stream → Type 0
Moves target s s' m m' = (m' ≡ m) ⊎ ((s.status ≡ active) × (m' ≡ Dict.set target s' m))

Effect-of_Moves :
    (target : String) (f : Stream → Stream) (m m' : Dict String Stream)
    → (Dict.get target m ≡ none → m' ≡ m)
    → ((s : Stream) → Dict.get target m ≡ some s → Moves target s (f s) m m')
    → Effect target f m m'
Effect-of_Moves target f m m' missing moves = elim (Option-cases (Dict.get target m)) [
  | inl absent ↦ inl (missing absent)
  | inr (s, found) ↦ elim (moves s found) [
    | inl kept ↦ inl kept
    | inr (act, moved) ↦ inr (s, found, act, moved)
  ]
]

pub Status-cases : (x : StreamStatus) → (x ≡ active) ⊎ (x ≢ active)
Status-cases active = inl refl
Status-cases cancelled = inr (λ e. cc)
Status-cases completed = inr (λ e. cc)
Status-cases paused = inr (λ e. cc)

Claim-cases : (r : Result ClaimError ℕ) → (r ≡ err overflow) ⊎ ((a : ℕ) × (r ≡ ok a))
Claim-cases (ok a) = inr (a, refl)
Claim-cases (err overflow) = inl refl

-- A call of `withdraw` leaves the map as it is and pays nothing, or it pays the claim of an active stream
-- and moves its last withdrawal.
pub withdraw-effect :
    (now : ℕ) (target : String) (c : Client)
    → (((withdraw now false target c).0.streams ≡ c.streams)
        × (payout (withdraw now false target c).1 ≡ 0))
      ⊎ ((s : Stream) × (Dict.get target c.streams ≡ some s)
          × (s.status ≡ active)
          × (claimable_at s now ≡ ok (payout (withdraw now false target c).1))
          × ((withdraw now false target c).0.streams
              ≡ Dict.set target (withdraw_from s now) c.streams))
withdraw-effect now target c = elim (Option-cases (Dict.get target c.streams)) [
  | inl absent ↦ inl (rw (withdraw_missing now target c absent) (refl, refl))
  | inr (s, found) ↦ elim (Status-cases s.status) [
    | inr idle ↦ inl (rw (withdraw_inactive now target c s found idle) (refl, refl))
    | inl act ↦ elim (Claim-cases (claimable_at s now)) [
      | inl over ↦ inl (rw (withdraw_overflow now target c s found act over) (refl, refl))
      | inr (a, claimed) ↦
          let (moved, paid) = withdraw_found now target c s a found act claimed in
          inr (s, found, act, rw paid claimed, moved)
    ]
  ]
]

-- A positive amount; a method does nothing at any other.
abbrev pub value_of : ℤ → ℕ
value_of (pos n) = n
value_of (negsuc n) = 0

abbrev pub extend : ℕ → Stream → Stream
extend value s = record s {
  deposit = s.deposit + value;
  end_time = s.end_time + value / s.flow_rate;
}

module _ (now : ℕ) (target : String) (c : Client) where
  pub cancel_stream-Effect :
      Effect target
        (λ s. record s { status = cancelled })
        c.streams
        (cancel_stream now false target c).0.streams
  unfolding cancel_stream
  cancel_stream-Effect =
      Effect-of_Moves target _ c.streams _ (λ absent. ground arith) (λ s found. ground arith)

  pub transfer_stream-Effect :
      (to : String)
      → Effect target
          (λ s. record s { recipient = to })
          c.streams
          (transfer_stream now target to c).0.streams
  unfolding transfer_stream
  transfer_stream-Effect to =
      Effect-of_Moves target _ c.streams _ (λ absent. ground arith) (λ s found. ground arith)

  pub pause-Effect : Effect target (λ s. pause_at s now) c.streams (pause now target c).0.streams
  unfolding pause
  pause-Effect =
      Effect-of_Moves target _ c.streams _ (λ absent. ground arith) (λ s found. ground arith)

  pub top_up-Effect :
      (p : ℤ)
      → Effect target (extend (value_of p)) c.streams (top_up now false target p c).0.streams
  unfolding top_up
  top_up-Effect (negsuc n) = inl refl
  top_up-Effect (pos zero) = inl refl
  top_up-Effect (pos (suc n)) =
      Effect-of_Moves target _ c.streams _ (λ absent. ground arith) (λ s found. ground arith)

  -- A lock is set on a stream of any status.
  pub lock_until-effect :
      (time_ms : ℕ)
      → ((lock_until now target time_ms c).0.streams ≡ c.streams)
        ⊎ ((s : Stream) × (Dict.get target c.streams ≡ some s)
            × ((lock_until now target time_ms c).0.streams
                ≡ Dict.set target (record s { lock_until = some (time_ms / 1000) }) c.streams))
  unfolding lock_until
  lock_until-effect time_ms = elim (Option-cases (Dict.get target c.streams)) [
    | inl absent ↦ inl (ground arith)
    | inr (s, found) ↦ elim (Bool-cases (reaches s.lock_until (time_ms / 1000))) [
      | inl late ↦ inl (ground arith)
      | inr early ↦ inr (s, found, ground arith)
    ]
  ]
