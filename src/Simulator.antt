-- ===== src/Simulator.antt =====
-- simulator.ts: `StreamSimulator`. `clock` is the real time in seconds, `Math.floor(Date.now() /
-- 1000)`. An expiry callback is known by the stream that it is registered for; `fired` lists the
-- calls.
pub mod Expiry
pub mod Withdrawals
mod Tests
use sorostream_sdk.Base.{
  ℕ, zero, suc, ◌+◌, ◌-◌, String, Bool, true, false, ◌&&◌, ◌||◌, not, Option, none, some, List, [],
  ◌∷◌, ◌++◌, min, string_eq, ltb, leb, contains, if◌then◌else◌,
}
use sorostream_sdk.Base.Dict
use sorostream_sdk.Base.Dict.{Dict}
use sorostream_sdk.Base.Int.{ℤ, pos, negsuc}
use sorostream_sdk.Base.Result.{Result, ok, err}
use sorostream_sdk.Stream.{
  Stream, StreamStatus, active, cancelled, completed, paused, ClaimError, safe_claimable,
}

pub record StreamSimulator : Type 0 where
  pub clock_offset_seconds : ℕ
  pub current_ledger_seq : ℕ
  pub expiry_callbacks : List String
  pub fired_expiry : List String
  pub storage_ttl : Dict String ℕ
  pub storage_ttl_ledger : Dict String ℕ
  pub fired : List String

unfoldable pub now : ℕ → StreamSimulator → ℕ
now clock m = clock + m.clock_offset_seconds

-- The setters throw at a negative number, and change nothing then.
abbrev pub set_ledger : ℤ → StreamSimulator → Option StreamSimulator
set_ledger (pos n) m = some (record m { current_ledger_seq = n })
set_ledger (negsuc n) m = none

abbrev pub advance_ledgers : ℤ → StreamSimulator → Option StreamSimulator
advance_ledgers (pos n) m = some (record m { current_ledger_seq = m.current_ledger_seq + n })
advance_ledgers (negsuc n) m = none

-- One round of the loop of `advance`, at the simulated time.
unfoldable pub expire : ℕ → Stream → StreamSimulator → StreamSimulator
expire time s m =
    if not (contains m.fired_expiry s.id) && leb s.end_time time
    then record m {
      fired_expiry = s.id ∷ m.fired_expiry;
      fired = if contains m.expiry_callbacks s.id then s.id ∷ m.fired else m.fired;
    }
    else m

unfoldable pub expire_all : ℕ → List Stream → StreamSimulator → StreamSimulator
expire_all time [] m = m
expire_all time (s ∷ ss) m = expire_all time ss (expire time s m)

abbrev pub ledgers_of : Option ℤ → Option ℕ
ledgers_of none = some 0
ledgers_of (some (pos n)) = some n
ledgers_of (some (negsuc n)) = none

-- `advance`, and whether it returns. Where it throws for the ledgers, the clock has moved.
unfoldable pub advance : ℕ → ℤ → List Stream → Option ℤ → StreamSimulator → StreamSimulator × Bool
unfolding expire_all expire now
advance clock (negsuc n) streams ledgers m = (m, false)
advance clock (pos n) streams ledgers m =
    let moved = record m { clock_offset_seconds = m.clock_offset_seconds + n } in
    elim (ledgers_of ledgers) [
      | none ↦ (moved, false)
      | some k ↦
          let paid = record moved { current_ledger_seq = moved.current_ledger_seq + k } in
          (expire_all (now clock paid) streams paid, true)
    ]

unfoldable pub on_expire : String → StreamSimulator → StreamSimulator
on_expire id m = record m {
  expiry_callbacks =
      if contains m.expiry_callbacks id then m.expiry_callbacks else id ∷ m.expiry_callbacks;
}

abbrev locked_at : ℕ → Option ℕ → Bool
locked_at time none = false
locked_at time (some t) = ltb time t

abbrev accrued_until : Stream → ℕ → Result ClaimError ℕ
accrued_until s time =
    let effective = min time s.end_time in
    safe_claimable s.flow_rate (effective - s.last_withdraw_time) (some s.deposit)

abbrev is_terminal : StreamStatus → Bool
is_terminal cancelled = true
is_terminal completed = true
is_terminal _ = false

abbrev is_paused : StreamStatus → Bool
is_paused paused = true
is_paused _ = false

abbrev pause_time : Option ℕ → ℕ → ℕ
pause_time none time = time
pause_time (some t) time = t

unfoldable pub claimable_at : ℕ → Stream → StreamSimulator → Result ClaimError ℕ
unfolding now
claimable_at clock s m =
    let time = now clock m in
    if is_terminal s.status
    then ok 0
    else if locked_at time s.lock_until
    then ok 0
    else if is_paused s.status
    then accrued_until s (pause_time s.paused_at time)
    else accrued_until s time

abbrev pub reached : Option ℕ → ℕ → Bool
reached none at = false
reached (some limit) at = leb limit at

unfoldable pub is_storage_expired : String → ℕ → StreamSimulator → Bool
is_storage_expired id at m =
    reached (Dict.get id m.storage_ttl) at
    || reached (Dict.get id m.storage_ttl_ledger) m.current_ledger_seq

pub data FailureReason : Type 0 where
  storage_expired stream_not_active insufficient_claimable : FailureReason

pub data WithdrawVerdict : Type 0 where
  success : ℕ → WithdrawVerdict
  failure : FailureReason → WithdrawVerdict

pub record SimulatedWithdrawResult : Type 0 where
  pub verdict : WithdrawVerdict
  pub claimable : ℕ
  pub ledger : ℕ

abbrev pub or_value : Option ℕ → ℕ → ℕ
or_value none d = d
or_value (some n) d = n

abbrev verdict_of : ℕ → Stream → Option ℕ → ℕ → ℕ → StreamSimulator → WithdrawVerdict
verdict_of time s amount claimable ledger m =
    if reached (Dict.get s.id m.storage_ttl) time
    then failure storage_expired
    else if reached (Dict.get s.id m.storage_ttl_ledger) ledger
    then failure storage_expired
    else if is_terminal s.status
    then failure stream_not_active
    else if ltb claimable (or_value amount claimable)
    then failure insufficient_claimable
    else success (or_value amount claimable)

abbrev answer :
    ℕ
    → Stream
    → Option ℕ
    → ℕ
    → StreamSimulator
    → Result ClaimError ℕ
    → Result ClaimError SimulatedWithdrawResult
answer time s amount ledger m (err e) = err e
answer time s amount ledger m (ok claimable) = ok (record {
  verdict = verdict_of time s amount claimable ledger m;
  claimable = claimable;
  ledger = ledger;
})

unfoldable pub simulate_withdraw :
    ℕ → Stream → Option ℕ → Option ℕ → StreamSimulator → Result ClaimError SimulatedWithdrawResult
simulate_withdraw clock s amount ledger m =
    answer (now clock m) s amount (or_value ledger m.current_ledger_seq) m (claimable_at clock s m)

unfoldable pub set_storage_ttl : String → ℕ → StreamSimulator → StreamSimulator
set_storage_ttl id at m = record m { storage_ttl = Dict.set id at m.storage_ttl }

unfoldable pub clear_storage_ttl : String → StreamSimulator → StreamSimulator
clear_storage_ttl id m = record m { storage_ttl = Dict.delete id m.storage_ttl }

unfoldable pub set_storage_ttl_ledger : String → ℕ → StreamSimulator → StreamSimulator
set_storage_ttl_ledger id at m = record m {
  storage_ttl_ledger = Dict.set id at m.storage_ttl_ledger;
}

unfoldable pub clear_storage_ttl_ledger : String → StreamSimulator → StreamSimulator
clear_storage_ttl_ledger id m = record m {
  storage_ttl_ledger = Dict.delete id m.storage_ttl_ledger;
}

unfoldable pub reset : StreamSimulator → StreamSimulator
reset m = record m {
  clock_offset_seconds = 0;
  current_ledger_seq = 0;
  fired_expiry = [];
  storage_ttl = [];
  storage_ttl_ledger = [];
}
