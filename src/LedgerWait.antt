-- ===== src/LedgerWait.antt =====
-- readConsistency.ts: `waitForLedger`. Times are milliseconds. A round of its loop is given by what
-- happens in it: the ledger that the server answers with, the time of the answer, whether the signal
-- has fired before it, while it is awaited or during the sleep, and by how much the timer overshoots. A server that throws is the
-- caller's exception. An endless list of rounds is a function.
pub mod Termination
mod Tests
use sorostream_sdk.Base.{
  ℕ, zero, suc, ◌+◌, ◌-◌, ◌≤◌, min, Bool, true, false, ◌||◌, Option, none, some, ltb, leb,
  if◌then◌else◌,
}

pub record Round : Type 0 where
  pub aborted_before : Bool
  pub latency : ℕ
  pub answer : Option ℕ
  pub aborted_awaiting : Bool
  pub aborted_asleep : Bool
  pub overshoot : ℕ

pub data WaitEnd : Type 0 where
  seen timed_out aborted failed : WaitEnd

pub record WaitForLedgerOptions : Type 0 where
  pub timeout_ms : ℕ
  pub poll_interval_ms : ℕ

-- What one round comes to: the end, or the time at which the next one starts.
pub data Outcome : Type 0 where
  ended : WaitEnd → Outcome
  slept : ℕ → Outcome

-- The signal fires before the answer comes, also while it is awaited, or the answer is looked at.
abbrev pub answered : Option ℕ → Round → ℕ → ℕ → ℕ → ℕ → Outcome
answered none round target poll_interval deadline now = ended failed
answered (some sequence) round target poll_interval deadline now =
    if leb target sequence
    then ended seen
    else if leb deadline now
    then ended timed_out
    else if round.aborted_asleep
    then ended aborted
    else slept (now + (min poll_interval (deadline - now) + round.overshoot))

unfoldable pub poll_once : Round → ℕ → ℕ → ℕ → ℕ → Outcome
poll_once round target poll_interval deadline now =
    if round.aborted_before
    then ended aborted
    else if round.aborted_awaiting
    then ended aborted
    else answered round.answer round target poll_interval deadline (now + round.latency)

-- The rounds from a number on, at most `fuel` of them; none if the loop has not ended by then.
unfoldable pub loop : ℕ → (ℕ → Round) → ℕ → ℕ → ℕ → ℕ → ℕ → Option WaitEnd
unfolding poll_once
loop zero rounds i target poll_interval deadline now = none
loop (suc fuel) rounds i target poll_interval deadline now =
    elim (poll_once (rounds i) target poll_interval deadline now) [
      | ended e ↦ some e
      | slept later ↦ loop fuel rounds (i + 1) target poll_interval deadline later
    ]

unfoldable pub wait_for_ledger : ℕ → (ℕ → Round) → ℕ → WaitForLedgerOptions → ℕ → Option WaitEnd
wait_for_ledger fuel rounds target options now =
    loop fuel rounds 0 target options.poll_interval_ms (now + options.timeout_ms) now
