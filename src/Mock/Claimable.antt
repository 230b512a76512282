-- ===== src/Mock/Claimable.antt =====
-- `claimableAt` of mock.ts: what a stream has accrued since the last withdrawal.
use sorostream_sdk.Base.{
  ℕ, ◌-◌, Bool, false, Option, none, some, min, nat_eq, string_eq, ltb, if◌then◌else◌,
}
use sorostream_sdk.Base.Result.{Result, ok}
use sorostream_sdk.Stream.{
  Stream, StreamStatus, ClaimError, safe_claimable, active, cancelled, completed, paused,
}

-- `x !== undefined && now < x`
abbrev pub before : ℕ → Option ℕ → Bool
before now none = false
before now (some t) = ltb now t

abbrev pub or_else : Option ℕ → ℕ → ℕ
or_else none d = d
or_else (some t) d = t

abbrev pub accrued : Stream → ℕ → Result ClaimError ℕ
accrued s until =
    safe_claimable s.flow_rate (min until s.end_time - s.last_withdraw_time) (some s.deposit)

-- The branches of `claimableAt`: a lock comes before the status `Paused`.
abbrev pub claimable_of : StreamStatus → Stream → ℕ → Result ClaimError ℕ
claimable_of cancelled s at = ok 0
claimable_of completed s at = ok 0
claimable_of paused s at =
    if before at s.lock_until then ok 0 else accrued s (or_else s.paused_at at)
claimable_of active s at = if before at s.lock_until then ok 0 else accrued s at

unfoldable pub claimable_at : Stream → ℕ → Result ClaimError ℕ
claimable_at s at = claimable_of s.status s at
