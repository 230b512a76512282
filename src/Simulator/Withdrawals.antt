-- ===== src/Simulator/Withdrawals.antt =====
-- The balances and withdrawals that the simulator predicts.
use sorostream_sdk.Base.{ℕ, ◌≤◌, ◌<◌, ◌≡◌, ◌↔◌, ◌⊎◌, false, none, some, Option, string_eq, arith}
use sorostream_sdk.Base.Dict
use sorostream_sdk.Base.Result.{ok}
use sorostream_sdk.Stream.{Stream, active, paused}
use sorostream_sdk.Mock.Claimable
use sorostream_sdk.Simulator.{
  StreamSimulator, now, claimable_at, simulate_withdraw, SimulatedWithdrawResult, success, reached,
  or_value,
}

-- The simulator predicts the balance that the mock client computes at the simulated time, whatever
-- the status, the pause and the lock of the stream.
pub claimable_at-mock :
    (clock : ℕ) (s : Stream) (m : StreamSimulator)
    → claimable_at clock s m ≡ Claimable.claimable_at s (now clock m)
unfolding claimable_at Claimable.claimable_at
claimable_at-mock clock s m = ground arith

-- A limit that is not set never expires, and any other is still ahead.
abbrev pub Lasts : Option ℕ → ℕ → Type 0
Lasts none at = Unit
Lasts (some limit) at = at < limit

reached-Lasts : (o : Option ℕ) (at : ℕ) → (reached o at ≡ false) ↔ Lasts o at
reached-Lasts none at = ground arith
reached-Lasts (some limit) at = ground arith

-- Where a simulated withdrawal returns, it shows the balance that is claimable at the simulated time. It
-- succeeds exactly when the simulated time and the ledger are below the limits that are set for the
-- storage of the stream, the stream is active or paused, and the amount asked for, or all of the
-- balance, does not exceed the balance; it then transfers that amount.
pub simulate_withdraw_iff :
    (clock : ℕ) (s : Stream) (amount ledger : Option ℕ) (m : StreamSimulator)
    (r : SimulatedWithdrawResult) (paid : ℕ)
    → simulate_withdraw clock s amount ledger m ≡ ok r
    → (claimable_at clock s m ≡ ok r.claimable)
      × ((r.verdict ≡ success paid) ↔ (
          Lasts (Dict.get s.id m.storage_ttl) (now clock m)
          × Lasts (Dict.get s.id m.storage_ttl_ledger) (or_value ledger m.current_ledger_seq)
          × ((s.status ≡ active) ⊎ (s.status ≡ paused))
          × (or_value amount r.claimable ≤ r.claimable)
          × (paid ≡ or_value amount r.claimable)))
unfolding simulate_withdraw
simulate_withdraw_iff clock s amount ledger m r paid h =
    let in_time = reached-Lasts (Dict.get s.id m.storage_ttl) (now clock m) in
    let in_ledger =
      reached-Lasts (Dict.get s.id m.storage_ttl_ledger) (or_value ledger m.current_ledger_seq) in
    (ground (arith, h), ground (arith, h, in_time, in_ledger))
