-- ===== src/Stream.antt =====
-- The `Stream` record of types.ts and `safeClaimable` of utils.ts. Amounts (bigint, in stroops) and
-- times (integral seconds) of a stream are natural numbers, so the guard `x <= 0n` is `x == 0`, and
-- `Math.max(0, a - b)` is the truncated `a - b`.
pub mod Claims
mod Tests
use sorostream_sdk.Base.{
  ℕ, ◌+◌, ◌-◌, ◌*◌, ◌^◌, String, Bool, ◌||◌, Option, none, some, nat_eq, ◌==◌, ltb, if◌then◌else◌,
}
use sorostream_sdk.Base.Result.{Result, ok, err}

pub data StreamStatus : Type 0 where
  active cancelled completed paused : StreamStatus

pub record Stream : Type 0 where
  pub id : String
  pub sender : String
  pub recipient : String
  pub token : String
  pub deposit : ℕ
  pub flow_rate : ℕ
  pub start_time : ℕ
  pub end_time : ℕ
  pub last_withdraw_time : ℕ
  pub status : StreamStatus
  pub auto_renew : Bool
  pub paused_at : Option ℕ
  pub lock_until : Option ℕ
  pub namespace : Option String
  pub tag : Option String

-- The `SoroStreamError` of an accrual that does not fit an i128.
pub data ClaimError : Type 0 where
  overflow : ClaimError

abbrev pub i128_max : ℕ
i128_max = 2 ^ 127 - 1

-- The two tests that follow the product: the limit first, then the overflow.
abbrev pub clamp_claim : ℕ → Option ℕ → Result ClaimError ℕ
clamp_claim result none = if ltb i128_max result then err overflow else ok result
clamp_claim result (some limit) =
    if ltb limit result then ok limit else if ltb i128_max result then err overflow else ok result

unfoldable pub safe_claimable : ℕ → ℕ → Option ℕ → Result ClaimError ℕ
safe_claimable flow_rate elapsed limit =
    if flow_rate == 0 || elapsed == 0 then ok 0 else clamp_claim (flow_rate * elapsed) limit
