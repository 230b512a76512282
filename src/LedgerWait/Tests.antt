-- ===== src/LedgerWait/Tests.antt =====
-- Waits for ledger 12, of a server that closes a ledger in each round.
use sorostream_sdk.Base.{ℕ, ◌+◌, ◌≡◌, refl, false, some, arith}
use sorostream_sdk.LedgerWait.{
  Round, WaitForLedgerOptions, seen, timed_out, wait_for_ledger, loop, poll_once,
}
use sorostream_sdk.LedgerWait.Termination.{Ends, wait_for_ledger-Ends}

abbrev growing : ℕ → Round
growing i = record {
  aborted_before = false;
  latency = 3;
  answer = some (10 + i);
  aborted_awaiting = false;
  aborted_asleep = false;
  overshoot = 0;
}

abbrev patient : WaitForLedgerOptions
patient = record { timeout_ms = 100; poll_interval_ms = 20 }

abbrev hasty : WaitForLedgerOptions
hasty = record { timeout_ms = 25; poll_interval_ms = 20 }

sees_ledger : wait_for_ledger 101 growing 12 patient 0 ≡ some seen
unfolding wait_for_ledger loop poll_once
sees_ledger = refl

times_out : wait_for_ledger 26 growing 12 hasty 0 ≡ some timed_out
unfolding wait_for_ledger loop poll_once
times_out = refl

wait_for_ledger-Ends_example : Ends growing 12 (wait_for_ledger 101 growing 12 patient 0)
wait_for_ledger-Ends_example = wait_for_ledger-Ends growing 12 patient 0 (omega arith)
